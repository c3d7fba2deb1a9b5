-- ===== src/Packs/Builtins.antt =====
-- The tables of src/cryptohawk/storage/policy.py, `_BUILTIN_PACKS` and `ensure_builtins`. The branch
-- for a row that another process inserts is left out. `stable_id` and the hash of the rules (hashlib)
-- are arguments.
use crypto_hawk.Prelude.{
  ℕ, true, none, some, List, [], ◌∷◌, ◌++◌, Result, ok, err, lookup_error, Text, codes, Table,
  lookup, insert, member, if◌then◌else◌,
}
use crypto_hawk.Domain.Models.{review, fail}
use crypto_hawk.Domain.Rules.{
  CryptoPolicyRules, CryptoPolicyPack, CryptoPolicyVersion, tls_1_2, tls_1_3,
}

pub record WorkspacePolicyAssignmentRecord : Type 0 where
  pub policy_version_id : ℕ
  pub assigned_by : Text
  pub assigned_at : ℕ

pub record PolicyDb : Type 0 where
  pub workspaces : List ℕ
  pub packs : Table CryptoPolicyPack
  pub versions : Table CryptoPolicyVersion
  pub assignments : Table WorkspacePolicyAssignmentRecord

pub record Builtin : Type 0 where
  pub slug : Text
  pub name : Text
  pub description : Text
  pub rules : CryptoPolicyRules

-- `CryptoPolicyRules()`
abbrev pub recommended_rules : CryptoPolicyRules
recommended_rules = record {
  minimum_rsa_bits = 2048;
  minimum_aes_bits = 128;
  minimum_tls_version = tls_1_2;
  disallowed_families =
      codes "MD5" ∷ codes "SHA-1" ∷ codes "DES" ∷ codes "3DES" ∷ codes "RC4" ∷ codes "DSA" ∷ [];
  quantum_vulnerable_default = review;
  internet_exposed_quantum_action = review;
  long_lived_data_years = 5;
  unknown_family_action = review;
  minimum_detection_confidence = 750000;
}

abbrev pub builtin_packs : List Builtin
builtin_packs =
    record {
      slug = codes "cryptohawk-recommended";
      name = codes "CryptoHawk Recommended";
      description = codes "Balanced modern cryptography and post-quantum transition baseline.";
      rules = recommended_rules;
    }
    ∷ record {
      slug = codes "strict-modern";
      name = codes "Strict Modern";
      description =
          codes "High-assurance baseline for new systems and aggressively modernized estates.";
      rules = record recommended_rules {
        minimum_rsa_bits = 3072;
        minimum_aes_bits = 256;
        minimum_tls_version = tls_1_3;
        quantum_vulnerable_default = fail;
        internet_exposed_quantum_action = fail;
        long_lived_data_years = 3;
        unknown_family_action = fail;
        minimum_detection_confidence = 850000;
      };
    }
    ∷ record {
      slug = codes "long-lived-confidentiality";
      name = codes "Long-Lived Confidentiality";
      description =
          codes
            "HNDL-focused baseline for data that must remain confidential through the PQ transition.";
      rules = record recommended_rules {
        minimum_rsa_bits = 3072;
        minimum_aes_bits = 256;
        internet_exposed_quantum_action = fail;
        long_lived_data_years = 3;
        minimum_detection_confidence = 800000;
      };
    }
    ∷ []

-- `if session.get(...) is None: session.add(...)`
unfoldable pub add_if_absent {ℓ} : {V : Type ℓ} → ℕ → V → Table V → Table V
add_if_absent key row d = elim (lookup key d) [ some old ↦ d | none ↦ insert key row d ]

module _ (stable_id : ℕ → Text → ℕ) (rules_hash : CryptoPolicyRules → Text) where
  unfoldable pub pack_id : ℕ → Text → ℕ
  pack_id workspace slug = stable_id workspace (codes "builtin-policy:" ++ slug)

  unfoldable pub version_id : ℕ → Text → ℕ
  version_id workspace slug = stable_id workspace (codes "builtin-policy:" ++ slug ++ codes ":v1")

  unfoldable pub add_builtin : ℕ → ℕ → Builtin → PolicyDb → PolicyDb
  add_builtin workspace now b db = record db {
    packs =
        add_if_absent (pack_id workspace b.slug)
          (record {
            id = pack_id workspace b.slug;
            workspace_id = workspace;
            slug = b.slug;
            name = b.name;
            description = b.description;
            built_in = true;
            created_by = codes "system:builtin-policy";
            created_at = now;
          })
          db.packs;
    versions =
        add_if_absent (version_id workspace b.slug)
          (record {
            id = version_id workspace b.slug;
            policy_id = pack_id workspace b.slug;
            workspace_id = workspace;
            version = 1;
            rules = b.rules;
            rules_hash = rules_hash b.rules;
            created_by = codes "system:builtin-policy";
            created_at = now;
          })
          db.versions;
  }

  unfoldable pub add_builtins : ℕ → ℕ → List Builtin → PolicyDb → PolicyDb
  add_builtins workspace now [] db = db
  add_builtins workspace now (b ∷ bs) db =
      add_builtins workspace now bs (add_builtin workspace now b db)

  unfoldable pub assign_default : ℕ → ℕ → PolicyDb → PolicyDb
  assign_default workspace now db = record db {
    assignments =
        add_if_absent workspace
          (record {
            policy_version_id = version_id workspace (codes "cryptohawk-recommended");
            assigned_by = codes "system:default-policy";
            assigned_at = now;
          })
          db.assignments;
  }

  unfoldable pub ensure_builtins : ℕ → ℕ → PolicyDb → Result PolicyDb
  ensure_builtins workspace now db =
      if member workspace db.workspaces
      then ok (assign_default workspace now (add_builtins workspace now builtin_packs db))
      else err lookup_error
