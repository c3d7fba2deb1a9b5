-- ===== src/Examples/Policies.antt =====
-- A second version of a policy pack (src/cryptohawk/storage/policy.py).
use crypto_hawk.Store.{is_blank}
use crypto_hawk.Prelude.{
  true, false, some, [], ◌∷◌, codes, ◌≡◌, refl, lookup, ◌==◌, if◌then◌else◌, strip, lstrip, rstrip,
  is_space, keep_unless_blank, insert, has_key, text_eq, ◌+◌, length, put, find_row, ok, ℕ, Text,
  keys_distinct,
}
use crypto_hawk.Domain.Rules.{
  CryptoPolicyPack, CryptoPolicyVersion, EffectiveCryptoPolicy, CryptoPolicyRules,
}
use crypto_hawk.Packs.{
  PolicyDb, recommended_rules, create_version, new_version, latest_version, is_unchanged,
  add_version, version_of_pack, signature, activate, activate_version, effective_policy,
  policy_in_effect, ensure_builtins, add_builtins, add_builtin, add_if_absent, assign,
  assign_default, pack_id, version_id, builtin_packs,
}
use crypto_hawk.Packs.Effective.{effective_policy-activate}
use crypto_hawk.Packs.Numbering.{is_above_all, create_version-next}

abbrev own_pack : CryptoPolicyPack
own_pack = record {
  id = 4;
  workspace_id = 1;
  slug = codes "own";
  name = codes "Own";
  description = [];
  built_in = false;
  created_by = codes "ann";
  created_at = 0;
}

abbrev first_version : CryptoPolicyVersion
first_version = record {
  id = 6;
  policy_id = 4;
  workspace_id = 1;
  version = 1;
  rules = recommended_rules;
  rules_hash = codes "a";
  created_by = codes "ann";
  created_at = 0;
}

abbrev one_version : PolicyDb
one_version = record {
  workspaces = 1 ∷ [];
  packs = (4, own_pack) ∷ [];
  versions = (6, first_version) ∷ [];
  assignments = [];
}

abbrev second_version : CryptoPolicyVersion
second_version = record first_version {
  id = 7;
  version = 2;
  rules_hash = codes "b";
  created_at = 5;
}

abbrev two_versions : PolicyDb
two_versions = record one_version { versions = (6, first_version) ∷ (7, second_version) ∷ [] }

create_version-next_example :
    (pack : CryptoPolicyPack) × (lookup 4 one_version.packs ≡ some pack)
    × ((pack.workspace_id == 1) ≡ true)
    × (pack.built_in ≡ false)
    × (is_above_all 4 2 one_version.versions ≡ true)
    × (is_unchanged (codes "b") (latest_version 4 one_version.versions) ≡ false)
    × (lookup 6 two_versions.versions
        ≡ (if 6 == 7 then some second_version else lookup 6 one_version.versions))
unfolding create_version version_of_pack add_version latest_version is_unchanged new_version
    signature is_blank strip lstrip rstrip is_space keep_unless_blank lookup insert has_key text_eq
create_version-next_example =
    create_version-next (λ w t. 0) (λ r. codes "b") false 7 1 4 recommended_rules (codes "ann") 5
      one_version two_versions second_version 6 refl

abbrev numbered : ℕ → Text → ℕ
numbered workspace t = 100 + length t

abbrev unhashed : CryptoPolicyRules → Text
unhashed rules = []

abbrev activated : PolicyDb
activated = assign 1 6 (codes "ann") 9 (
    assign_default numbered unhashed 1 9
      (add_builtins numbered unhashed 1 9 builtin_packs one_version))

abbrev own_policy : EffectiveCryptoPolicy
own_policy = record {
  pack = own_pack;
  version = first_version;
  assigned_by = codes "ann";
  assigned_at = 9;
}

effective_policy-activate_example :
    (effective_policy numbered unhashed 1 20 activated ≡ ok (activated, own_policy))
    × (own_policy.version.workspace_id ≡ 1)
    × (own_policy.version.policy_id ≡ 4)
    × (own_policy.version.version ≡ 1)
    × (lookup 4 activated.packs ≡ some own_policy.pack)
    × (own_policy.pack.workspace_id ≡ 1)
    × (own_policy.assigned_by ≡ signature (codes "ann"))
    × (own_policy.assigned_at ≡ 9)
unfolding activate activate_version effective_policy policy_in_effect ensure_builtins add_builtins
    add_builtin add_if_absent assign assign_default pack_id version_id signature is_blank strip
    lstrip rstrip is_space keep_unless_blank lookup insert put find_row keys_distinct has_key
effective_policy-activate_example =
    effective_policy-activate numbered unhashed 1 4 1 (codes "ann") 9 20 one_version activated
      own_policy refl refl
