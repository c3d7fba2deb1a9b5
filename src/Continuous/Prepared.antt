-- ===== src/Continuous/Prepared.antt =====
-- The findings that a scan is compared by: `prepare_findings` and the table of fingerprints of
-- src/cryptohawk/storage/continuous.py.
use crypto_hawk.Prelude.{
  ℕ, Bool, true, false, ◌&&◌, ◌||◌, List, [], ◌∷◌, ◌≡◌, refl, arith, Table, has_key, lookup, put,
  has_key-put, has_key-lookup, Option-cases, inl, inr, ◌==◌,
}
use crypto_hawk.Domain.Findings.{Finding}
use crypto_hawk.Continuous.Fingerprints.{
  Digests, observation_fingerprint, keep_higher, select, insert_entry, sort_entries, renamed,
  rename_all, prepare_findings, by_fingerprint, fingerprint_payload,
}
use crypto_hawk.Continuous.Events.{ScanRun}
use crypto_hawk.Continuous.Drift.{current_findings}

has_key-keep_higher :
    (j k : ℕ) (f : Finding) (t : Table Finding)
    → has_key j (keep_higher k f t) ≡ ((j == k) || has_key j t)
unfolding keep_higher
has_key-keep_higher j k f t = elim (Option-cases (lookup k t)) [
  | inl n ↦ rw (n, keep_higher) (has_key-put j k f t)
  | inr (g, e) ↦
      rw (e, keep_higher)
        (ground (arith, has_key-put j k f t, has_key-lookup k t, has_key-lookup j t))
]

has_key-insert_entry :
    (j k : ℕ) (f : Finding) (t : Table Finding)
    → has_key j (insert_entry k f t) ≡ ((j == k) || has_key j t)
unfolding insert_entry has_key
has_key-insert_entry j k f [] = refl
has_key-insert_entry j k f ((i, g) ∷ t) = ground (arith, has_key-insert_entry j k f t)

has_key-sort_entries : (j : ℕ) (t : Table Finding) → has_key j (sort_entries t) ≡ has_key j t
unfolding sort_entries has_key
has_key-sort_entries j [] = refl
has_key-sort_entries j ((k, f) ∷ t) =
    ground (arith, has_key-insert_entry j k f (sort_entries t), has_key-sort_entries j t)

module _ (h : Digests) where
  -- A finding of the list has the fingerprint.
  unfoldable pub mentions : ℕ → List Finding → Bool
  mentions j [] = false
  mentions j (f ∷ fs) = (j == observation_fingerprint h f) || mentions j fs

  -- Each entry stands under the fingerprint of its finding.
  unfoldable is_keyed : Table Finding → Bool
  is_keyed [] = true
  is_keyed ((k, f) ∷ t) = (observation_fingerprint h f == k) && is_keyed t

  is_keyed-put :
      (f : Finding) (t : Table Finding)
      → is_keyed t ≡ true
      → is_keyed (put (observation_fingerprint h f) f t) ≡ true
  unfolding is_keyed put
  is_keyed-put f [] e = ground arith
  is_keyed-put f ((k, g) ∷ t) e = ground (arith, is_keyed-put f t)

  is_keyed-keep_higher :
      (f : Finding) (t : Table Finding)
      → is_keyed t ≡ true
      → is_keyed (keep_higher (observation_fingerprint h f) f t) ≡ true
  unfolding keep_higher
  is_keyed-keep_higher f t e = elim (Option-cases (lookup (observation_fingerprint h f) t)) [
    | inl n ↦ rw (n, keep_higher) (is_keyed-put f t e)
    | inr (g, q) ↦ rw (q, keep_higher) (ground (arith, is_keyed-put f t e))
  ]

  is_keyed-select :
      (fs : List Finding) (t : Table Finding) → is_keyed t ≡ true → is_keyed (select h fs t) ≡ true
  unfolding select
  is_keyed-select [] t e = e
  is_keyed-select (f ∷ fs) t e =
      is_keyed-select fs (keep_higher (observation_fingerprint h f) f t)
        (is_keyed-keep_higher f t e)

  is_keyed-insert_entry :
      (k : ℕ) (f : Finding) (t : Table Finding)
      → is_keyed (insert_entry k f t) ≡ ((observation_fingerprint h f == k) && is_keyed t)
  unfolding is_keyed insert_entry
  is_keyed-insert_entry k f [] = refl
  is_keyed-insert_entry k f ((i, g) ∷ t) = ground (arith, is_keyed-insert_entry k f t)

  is_keyed-sort_entries : (t : Table Finding) → is_keyed (sort_entries t) ≡ is_keyed t
  unfolding is_keyed sort_entries
  is_keyed-sort_entries [] = refl
  is_keyed-sort_entries ((k, f) ∷ t) =
      ground (arith, is_keyed-insert_entry k f (sort_entries t), is_keyed-sort_entries t)

  has_key-select :
      (j : ℕ) (fs : List Finding) (t : Table Finding)
      → has_key j (select h fs t) ≡ (mentions j fs || has_key j t)
  unfolding select mentions
  has_key-select j [] t = refl
  has_key-select j (f ∷ fs) t = ground (
    arith,
    has_key-select j fs (keep_higher (observation_fingerprint h f) f t),
    has_key-keep_higher j (observation_fingerprint h f) f t,
  )

  -- A new identifier of the observation does not change the fingerprint.
  observation_fingerprint-renamed :
      (job k : ℕ) (f : Finding)
      → observation_fingerprint h (renamed h job k f) ≡ observation_fingerprint h f
  unfolding observation_fingerprint fingerprint_payload renamed
  observation_fingerprint-renamed job k f = refl

  mentions-rename_all :
      (j job : ℕ) (t : Table Finding)
      → is_keyed t ≡ true
      → mentions j (rename_all h job t) ≡ has_key j t
  unfolding mentions rename_all has_key is_keyed
  mentions-rename_all j job [] e = refl
  mentions-rename_all j job ((k, f) ∷ t) e =
      ground (arith, observation_fingerprint-renamed job k f, mentions-rename_all j job t)

  has_key-by_fingerprint :
      (j : ℕ) (fs : List Finding) (t : Table Finding)
      → has_key j (by_fingerprint h fs t) ≡ (mentions j fs || has_key j t)
  unfolding by_fingerprint mentions
  has_key-by_fingerprint j [] t = refl
  has_key-by_fingerprint j (f ∷ fs) t = ground (
    arith,
    has_key-by_fingerprint j fs (put (observation_fingerprint h f) f t),
    has_key-put j (observation_fingerprint h f) f t,
  )

  pub mentions-prepare_findings :
      (j job : ℕ) (fs : List Finding) → mentions j (prepare_findings h job fs) ≡ mentions j fs
  unfolding prepare_findings has_key is_keyed
  mentions-prepare_findings j job fs =
      let t = select h fs [] in
      ground (
        arith,
        mentions-rename_all j job (sort_entries t),
        is_keyed-sort_entries t,
        is_keyed-select fs [],
        has_key-sort_entries j t,
        has_key-select j fs [],
      )

  pub has_key-current_findings :
      (run : ScanRun) (j : ℕ) (fs : List Finding)
      → has_key j (current_findings h run fs) ≡ mentions j fs
  unfolding current_findings has_key
  has_key-current_findings run j fs = ground (
    arith,
    has_key-by_fingerprint j (prepare_findings h run.scan_job_id fs) [],
    mentions-prepare_findings j run.scan_job_id fs,
  )
