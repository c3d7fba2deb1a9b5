-- ===== src/Auth/Names.antt =====
-- `_normalize_email` and `_slugify` of src/cryptohawk/storage/auth.py, and what the fields of a
-- `Workspace` (src/cryptohawk/domain/inventory.py) must match. Letters are lowered as in ASCII.
use crypto_hawk.Prelude.{
  ℕ, Bool, true, false, not, ◌&&◌, ◌||◌, [], ◌∷◌, ◌++◌, Text, codes, strip, lower, is_space, take,
  length, leb, ◌==◌, if◌then◌else◌, Result, ok, err, value_error,
}

-- `[^@\s]`
unfoldable pub is_mail_char : ℕ → Bool
is_mail_char c = not (c == b'@') && not (is_space c)

unfoldable pub are_mail_chars : Text → Bool
are_mail_chars [] = true
are_mail_chars (c ∷ s) = is_mail_char c && are_mail_chars s

-- A dot with a character after it.
unfoldable pub has_inner_dot : Text → Bool
has_inner_dot [] = false
has_inner_dot (c ∷ s) = (c == b'.') && leb 1 (length s) || has_inner_dot s

-- `[^@\s]+\.[^@\s]+`
unfoldable pub is_domain : Text → Bool
is_domain [] = false
is_domain (c ∷ s) = are_mail_chars (c ∷ s) && has_inner_dot s

-- What stands after the first character: `[^@\s]*@` and a domain.
unfoldable pub is_address_end : Text → Bool
is_address_end [] = false
is_address_end (c ∷ s) =
    let rest = is_address_end s in if c == b'@' then is_domain s else is_mail_char c && rest

unfoldable pub is_address : Text → Bool
is_address [] = false
is_address (c ∷ s) = is_mail_char c && is_address_end s

unfoldable pub normalize_email : Text → Result Text
normalize_email email =
    let value = lower (strip email) in if is_address value then ok value else err value_error

-- `[a-z0-9]`
unfoldable pub is_slug_char : ℕ → Bool
is_slug_char c = leb b'a' c && leb c b'z' || leb b'0' c && leb c b'9'

-- `re.sub(r"[^a-z0-9]+", "-", value)`: one dash for a run of other characters.
unfoldable pub dashed : Bool → Text → Text
dashed in_run [] = []
dashed in_run (c ∷ s) =
    let after = dashed false s in
    let within = dashed true s in
    if is_slug_char c then c ∷ after else if in_run then within else b'-' ∷ within

-- `strip("-")`
unfoldable pub drop_dashes : Text → Text
drop_dashes [] = []
drop_dashes (c ∷ s) = let rest = drop_dashes s in if c == b'-' then rest else c ∷ s

unfoldable pub keep_unless_dashes : ℕ → Text → Text
keep_unless_dashes c [] = if c == b'-' then [] else c ∷ []
keep_unless_dashes c (d ∷ s) = c ∷ d ∷ s

unfoldable pub drop_last_dashes : Text → Text
drop_last_dashes [] = []
drop_last_dashes (c ∷ s) = keep_unless_dashes c (drop_last_dashes s)

unfoldable pub strip_dashes : Text → Text
strip_dashes s = drop_last_dashes (drop_dashes s)

-- `slug or "workspace"`
unfoldable pub or_workspace : Text → Text
or_workspace [] = codes "workspace"
or_workspace (c ∷ s) = c ∷ s

unfoldable pub slugify : Text → Text
slugify value =
    let slug = strip_dashes (dashed false (lower value)) in
    take 80 (if leb 2 (length slug) then slug else codes "ws-" ++ or_workspace slug)

-- `^[a-z0-9][a-z0-9-]*$` of 2 to 80 characters
unfoldable pub are_slug_chars : Text → Bool
are_slug_chars [] = true
are_slug_chars (c ∷ s) = (is_slug_char c || (c == b'-')) && are_slug_chars s

unfoldable pub is_slug : Text → Bool
is_slug [] = false
is_slug (c ∷ s) = (is_slug_char c && are_slug_chars s) && (leb 1 (length s) && leb (length s) 79)

-- `name: str = Field(min_length=1, max_length=200)`
unfoldable pub is_name : Text → Bool
is_name s = leb 1 (length s) && leb (length s) 200
