-- ===== src/Auth/Slugs.antt =====
-- The slugs that `_slugify` of src/cryptohawk/storage/auth.py makes.
use crypto_hawk.Prelude.{
  ℕ, zero, suc, Bool, true, false, ◌||◌, [], ◌∷◌, ◌++◌, ◌≡◌, refl, arith, Text, codes, lower, take,
  length, leb, ◌==◌, Bool-cases, inl, inr, &&-eq_true, le→leb, length-take, length-take,
}
use crypto_hawk.Auth.Names.{
  is_slug_char, dashed, drop_dashes, keep_unless_dashes, drop_last_dashes, strip_dashes,
  or_workspace, slugify, are_slug_chars, is_slug,
}

-- The text is empty or starts with a letter or a digit.
unfoldable starts_well : Text → Bool
starts_well [] = true
starts_well (c ∷ s) = is_slug_char c

are_slug_chars-dashed : (b : Bool) (s : Text) → are_slug_chars (dashed b s) ≡ true
unfolding are_slug_chars dashed
are_slug_chars-dashed b [] = refl
are_slug_chars-dashed b (c ∷ s) =
    ground (arith, are_slug_chars-dashed false s, are_slug_chars-dashed true s)

are_slug_chars-drop_dashes :
    (s : Text) → are_slug_chars s ≡ true → are_slug_chars (drop_dashes s) ≡ true
unfolding are_slug_chars drop_dashes
are_slug_chars-drop_dashes [] h = refl
are_slug_chars-drop_dashes (c ∷ s) h = ground (arith, are_slug_chars-drop_dashes s)

starts_well-drop_dashes : (s : Text) → are_slug_chars s ≡ true → starts_well (drop_dashes s) ≡ true
unfolding are_slug_chars drop_dashes starts_well
starts_well-drop_dashes [] h = refl
starts_well-drop_dashes (c ∷ s) h = ground (arith, starts_well-drop_dashes s)

are_slug_chars-keep :
    (c : ℕ) (s : Text)
    → are_slug_chars (c ∷ s) ≡ true
    → are_slug_chars (keep_unless_dashes c s) ≡ true
unfolding are_slug_chars keep_unless_dashes
are_slug_chars-keep c [] h = ground arith
are_slug_chars-keep c (d ∷ s) h = ground arith

are_slug_chars-drop_last_dashes :
    (s : Text) → are_slug_chars s ≡ true → are_slug_chars (drop_last_dashes s) ≡ true
unfolding are_slug_chars drop_last_dashes
are_slug_chars-drop_last_dashes [] h = refl
are_slug_chars-drop_last_dashes (c ∷ s) h =
    ground (arith, are_slug_chars-drop_last_dashes s, are_slug_chars-keep c (drop_last_dashes s))

starts_well-keep :
    (c : ℕ) (s : Text) → is_slug_char c ≡ true → starts_well (keep_unless_dashes c s) ≡ true
unfolding starts_well keep_unless_dashes
starts_well-keep c [] h = ground arith
starts_well-keep c (d ∷ s) h = h

starts_well-drop_last_dashes :
    (s : Text) → starts_well s ≡ true → starts_well (drop_last_dashes s) ≡ true
unfolding starts_well drop_last_dashes
starts_well-drop_last_dashes [] h = refl
starts_well-drop_last_dashes (c ∷ s) h = starts_well-keep c (drop_last_dashes s) h

are_slug_chars-take :
    (n : ℕ) (s : Text) → are_slug_chars s ≡ true → are_slug_chars (take n s) ≡ true
unfolding are_slug_chars
are_slug_chars-take zero s h = refl
are_slug_chars-take (suc n) [] h = refl
are_slug_chars-take (suc n) (c ∷ s) h = ground (arith, are_slug_chars-take n s)

are_slug_chars-or_workspace :
    (s : Text) → are_slug_chars s ≡ true → are_slug_chars (codes "ws-" ++ or_workspace s) ≡ true
unfolding are_slug_chars or_workspace is_slug_char
are_slug_chars-or_workspace [] h = refl
are_slug_chars-or_workspace (c ∷ s) h = h

head_is_slug_char :
    (c : ℕ) (s : Text)
    → are_slug_chars (c ∷ s) ≡ true
    → starts_well (c ∷ s) ≡ true
    → (is_slug_char c ≡ true) × (are_slug_chars s ≡ true)
unfolding are_slug_chars starts_well
head_is_slug_char c s a h = (h, (&&-eq_true (is_slug_char c || (c == b'-')) (are_slug_chars s) a).1)

is_slug-take :
    (t : Text)
    → are_slug_chars t ≡ true
    → starts_well t ≡ true
    → leb 2 (length t) ≡ true
    → is_slug (take 80 t) ≡ true
unfolding is_slug
is_slug-take [] a s l = ground arith
is_slug-take (c ∷ []) a s l = ground arith
is_slug-take (c ∷ d ∷ t) a s l =
    let parts = head_is_slug_char c (d ∷ t) a s in
    rw
      (
        parts.0,
        are_slug_chars-take 79 (d ∷ t) parts.1,
        le→leb 1 (length (take 79 (d ∷ t))) (omega arith),
        le→leb (length (take 79 (d ∷ t))) 79 (length-take 79 (d ∷ t)),
      )
      refl

longer : (s : Text) → leb 2 (length (codes "ws-" ++ s)) ≡ true
longer s = le→leb 2 (length (codes "ws-" ++ s)) (omega arith)

-- The slug that is made of any text is one that a workspace may have: it has 2 to 80 characters, the
-- first a lower-case letter or a digit, the others these or dashes.
pub slugify-is_slug : (value : Text) → is_slug (slugify value) ≡ true
unfolding slugify strip_dashes starts_well is_slug_char
slugify-is_slug value =
    let cleaned = dashed false (lower value) in
    let slug = strip_dashes cleaned in
    let chars : are_slug_chars slug ≡ true =
      are_slug_chars-drop_last_dashes (drop_dashes cleaned)
        (are_slug_chars-drop_dashes cleaned (are_slug_chars-dashed false (lower value))) in
    elim (Bool-cases (leb 2 (length slug))) [
      | inl long ↦
          rw (long, slugify)
            (is_slug-take slug chars
              (starts_well-drop_last_dashes (drop_dashes cleaned)
                (starts_well-drop_dashes cleaned (are_slug_chars-dashed false (lower value))))
              long)
      | inr short ↦
          rw (short, slugify)
            (is_slug-take (codes "ws-" ++ or_workspace slug)
              (are_slug_chars-or_workspace slug chars) refl (longer (or_workspace slug)))
    ]
