-- ===== src/Quotas/Windows.antt =====
-- A sequence of `consume` calls (src/cryptohawk/storage/quotas.py) within one window.
use crypto_hawk.Prelude.{
  ℕ, ◌+◌, ◌-◌, ◌*◌, ◌≤◌, min, true, false, Option, none, some, List, [], ◌∷◌, ◌++◌, ok, err, Text,
  length, ltb, if◌then◌else◌, ◌≡◌, refl, arith, one_if, All, Option-cases, Bool-cases, inl, inr,
  text_eq_refl, ◌<◌,
}
use crypto_hawk.Quotas.Limits.{
  RateLimitBucketRecord, RateLimitDecision, is_bucket, bucket_count, bump, first_use,
  increment_or_create, consume_arguments_valid, window_of, retry_after, decide, consume,
}

abbrev pub or_zero : Option ℕ → ℕ
or_zero none = 0
or_zero (some n) = n

-- How often the bucket was used.
unfoldable pub used : Text → Text → ℕ → List RateLimitBucketRecord → ℕ
used scope action window buckets = or_zero (bucket_count scope action window buckets)

-- The calls at the given times, one after the other: how many were allowed. A call that raises is
-- not allowed and leaves the buckets.
unfoldable pub allowed_of : Text → Text → ℕ → ℕ → List ℕ → List RateLimitBucketRecord → ℕ
allowed_of scope action limit window_seconds [] buckets = 0
allowed_of scope action limit window_seconds (now ∷ times) buckets =
    elim (consume scope action limit window_seconds now buckets) [
      | err e ↦ allowed_of scope action limit window_seconds times buckets
      | ok out ↦ one_if out.1.allowed + allowed_of scope action limit window_seconds times out.0
    ]

module _ (scope action : Text) (window : ℕ) where
  count-bump :
      (now n : ℕ) (bs : List RateLimitBucketRecord)
      → bucket_count scope action window bs ≡ some n
      → bucket_count scope action window (bump scope action window now bs) ≡ some (n + 1)
  unfolding bucket_count bump is_bucket
  count-bump now n [] h = ground arith
  count-bump now n (b ∷ bs) h = ground (arith, count-bump now n bs)

  count-append :
      (b : RateLimitBucketRecord) (bs : List RateLimitBucketRecord)
      → bucket_count scope action window bs ≡ none
      → is_bucket scope action window b ≡ true
      → bucket_count scope action window (bs ++ b ∷ []) ≡ some b.count
  unfolding bucket_count
  count-append b [] h t = ground arith
  count-append b (c ∷ bs) h t = ground (arith, count-append b bs)

  first_use-is_bucket :
      (now : ℕ) → is_bucket scope action window (first_use scope action window now) ≡ true
  unfolding is_bucket first_use
  first_use-is_bucket now = ground (arith, text_eq_refl scope, text_eq_refl action)

  -- One call: the number that it returns, and how often the bucket was used afterwards.
  increment-used :
      (limit now : ℕ) (bs : List RateLimitBucketRecord)
      → 0 < limit
      → ((increment_or_create scope action window limit now bs).1 ≡ used scope action window bs + 1)
        × (used scope action window (increment_or_create scope action window limit now bs).0 ≡ (
            if ltb (used scope action window bs) limit
            then used scope action window bs + 1
            else used scope action window bs))
  unfolding increment_or_create used first_use
  increment-used limit now bs p = elim (Option-cases (bucket_count scope action window bs)) [
    | inl n ↦
        rw (n, increment_or_create)
          (ground (
            arith,
            n,
            count-append (first_use scope action window now) bs n (first_use-is_bucket now),
          ))
    | inr (u, e) ↦ rw (e, increment_or_create) (ground (arith, e, count-bump now u bs e))
  ]

consume-same :
    (scope action : Text) (limit window_seconds window now : ℕ) (bs : List RateLimitBucketRecord)
    → consume_arguments_valid scope action limit window_seconds ≡ true
    → window_of window_seconds now ≡ window
    → consume scope action limit window_seconds now bs
      ≡ ok (
        (increment_or_create scope action window limit now bs).0,
        decide limit
            (window + window_seconds)
            now
            (increment_or_create scope action window limit now bs).1,
      )
unfolding consume
consume-same scope action limit window_seconds window now bs valid same =
    rw (valid, same, consume) refl

limit_positive :
    (scope action : Text) (limit window_seconds : ℕ)
    → consume_arguments_valid scope action limit window_seconds ≡ true
    → 0 < limit
unfolding consume_arguments_valid
limit_positive scope action limit window_seconds valid = ground arith

-- In one window, and whatever is stored about it, valid calls under one limit are allowed until the
-- limit is reached: of any sequence of them as many as the limit has left, or all if they are fewer.
pub allowed_of-eq-min :
    (scope action : Text) (limit window_seconds window : ℕ) (times : List ℕ)
    (buckets : List RateLimitBucketRecord)
    → consume_arguments_valid scope action limit window_seconds ≡ true
    → All (λ now. window_of window_seconds now ≡ window) times
    → allowed_of scope action limit window_seconds times buckets
      ≡ min (length times) (limit - used scope action window buckets)
unfolding allowed_of decide
allowed_of-eq-min scope action limit window_seconds window [] buckets valid same = omega arith
allowed_of-eq-min scope action limit window_seconds window (now ∷ times) buckets valid same =
    rw (consume-same scope action limit window_seconds window now buckets valid same.0, allowed_of)
      (ground (
        arith,
        increment-used scope action window limit now buckets
            (limit_positive scope action limit window_seconds valid),
        allowed_of-eq-min scope action limit window_seconds window times
            (increment_or_create scope action window limit now buckets).0 valid same.1,
      ))

retry_bounds :
    (w now : ℕ)
    → 0 < w
    → (1 ≤ retry_after (window_of w now + w) now)
      × (retry_after (window_of w now + w) now ≤ w)
      × ((window_of w now + w) * 1000000 ≤ now + retry_after (window_of w now + w) now * 1000000)
unfolding window_of retry_after
retry_bounds w now p = (omega arith, omega arith, omega arith)

window_positive :
    (scope action : Text) (limit window_seconds : ℕ)
    → consume_arguments_valid scope action limit window_seconds ≡ true
    → 0 < window_seconds
unfolding consume_arguments_valid
window_positive scope action limit window_seconds valid = ground arith

-- A refused call is told to wait at least one second and at most the length of the window, and the
-- window has ended when it has waited.
pub consume-retry_after :
    (scope action : Text) (limit window_seconds now : ℕ) (bs bs' : List RateLimitBucketRecord)
    (d : RateLimitDecision)
    → consume scope action limit window_seconds now bs ≡ ok (bs', d)
    → d.allowed ≡ false
    → (1 ≤ d.retry_after_seconds)
      × (d.retry_after_seconds ≤ window_seconds)
      × (d.reset_at * 1000000 ≤ now + d.retry_after_seconds * 1000000)
      × (d.remaining ≡ 0)
unfolding consume decide
consume-retry_after scope action limit window_seconds now bs bs' d e refused =
    elim (Bool-cases (consume_arguments_valid scope action limit window_seconds)) [
      | inr invalid ↦ ground (arith, invalid)
      | inl valid ↦ ground (
        arith,
        valid,
        retry_bounds window_seconds now (window_positive scope action limit window_seconds valid),
      )
    ]
