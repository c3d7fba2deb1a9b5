-- ===== src/Quotas/Limits.antt =====
-- The rate limits (`consume`, `_increment_or_create`, `_bucket_count` and `prune_rate_limits` of
-- src/cryptohawk/storage/quotas.py). A time counts microseconds.
use crypto_hawk.Prelude.{
  ℕ, ◌+◌, ◌-◌, ◌*◌, ◌/◌, ◌%◌, min, Bool, ◌&&◌, Option, none, some, List, [], ◌∷◌, ◌++◌, Result, ok,
  err, value_error, Text, text_eq, length, ltb, leb, ◌==◌, if◌then◌else◌,
}

pub record RateLimitBucketRecord : Type 0 where
  pub scope_key : Text
  pub action : Text
  pub window_start : ℕ
  pub count : ℕ
  pub updated_at : ℕ

pub record RateLimitDecision : Type 0 where
  pub allowed : Bool
  pub limit : ℕ
  pub remaining : ℕ
  pub reset_at : ℕ
  pub retry_after_seconds : ℕ

-- The primary key of a bucket.
unfoldable pub is_bucket : Text → Text → ℕ → RateLimitBucketRecord → Bool
is_bucket scope action window b =
    text_eq b.scope_key scope && (text_eq b.action action && (b.window_start == window))

unfoldable pub bucket_count : Text → Text → ℕ → List RateLimitBucketRecord → Option ℕ
bucket_count scope action window [] = none
bucket_count scope action window (b ∷ bs) =
    if is_bucket scope action window b then some b.count else bucket_count scope action window bs

-- `UPDATE ... SET count = count + 1`, of the row with the key.
unfoldable pub bump : Text → Text → ℕ → ℕ → List RateLimitBucketRecord → List RateLimitBucketRecord
bump scope action window now [] = []
bump scope action window now (b ∷ bs) =
    if is_bucket scope action window b
    then record b { count = b.count + 1; updated_at = now } ∷ bs
    else b ∷ bump scope action window now bs

unfoldable pub first_use : Text → Text → ℕ → ℕ → RateLimitBucketRecord
first_use scope action window now = record {
  scope_key = scope;
  action = action;
  window_start = window;
  count = 1;
  updated_at = now;
}

unfoldable pub increment_or_create :
    Text → Text → ℕ → ℕ → ℕ → List RateLimitBucketRecord → List RateLimitBucketRecord × ℕ
increment_or_create scope action window limit now buckets =
    elim (bucket_count scope action window buckets) [
      | none ↦ (buckets ++ first_use scope action window now ∷ [], 1)
      | some existing ↦
          if ltb existing limit
          then (bump scope action window now buckets, existing + 1)
          else (buckets, existing + 1)
    ]

unfoldable pub consume_arguments_valid : Text → Text → ℕ → ℕ → Bool
consume_arguments_valid scope action limit window_seconds =
    ltb 0 (length scope)
    && (leb (length scope) 300
        && (ltb 0 (length action)
            && (leb (length action) 100 && (ltb 0 limit && ltb 0 window_seconds))))

-- `epoch - (epoch % window_seconds)`
unfoldable pub window_of : ℕ → ℕ → ℕ
window_of window_seconds now = now / 1000000 - (now / 1000000) % window_seconds

-- `math.ceil((reset_at - current).total_seconds())`
unfoldable pub retry_after : ℕ → ℕ → ℕ
retry_after reset_at now = (reset_at * 1000000 - now + 999999) / 1000000

unfoldable pub decide : ℕ → ℕ → ℕ → ℕ → RateLimitDecision
decide limit reset_at now count = record {
  allowed = leb count limit;
  limit = limit;
  remaining = limit - min count limit;
  reset_at = reset_at;
  retry_after_seconds = if leb count limit then 0 else retry_after reset_at now;
}

unfoldable pub consume :
    Text
    → Text
    → ℕ
    → ℕ
    → ℕ
    → List RateLimitBucketRecord
    → Result (List RateLimitBucketRecord × RateLimitDecision)
consume scope action limit window_seconds now buckets =
    if consume_arguments_valid scope action limit window_seconds
    then (let window = window_of window_seconds now in
        let (buckets', count) = increment_or_create scope action window limit now buckets in
        ok (buckets', decide limit (window + window_seconds) now count))
    else err value_error

-- `DELETE ... WHERE window_start < cutoff`
unfoldable pub prune_rate_limits : ℕ → List RateLimitBucketRecord → List RateLimitBucketRecord × ℕ
prune_rate_limits before [] = ([], 0)
prune_rate_limits before (b ∷ bs) =
    let (kept, removed) = prune_rate_limits before bs in
    if ltb b.window_start (before / 1000000) then (kept, removed + 1) else (b ∷ kept, removed)
