-- ===== src/Examples/Requests.antt =====
-- Requests against the rate limits of src/cryptohawk/storage/quotas.py.
use crypto_hawk.Prelude.{
  ℕ, ◌+◌, ◌-◌, ◌*◌, ◌≤◌, min, true, false, List, [], ◌∷◌, ok, Text, codes, ◌≡◌, refl, All, text_eq,
}
use crypto_hawk.Quotas.{
  RateLimitBucketRecord, RateLimitDecision, consume, consume_arguments_valid, window_of,
  bucket_count, decide, increment_or_create, is_bucket,
}
use crypto_hawk.Quotas.Windows.{used, allowed_of, allowed_of-eq-min, consume-retry_after}

abbrev scope : Text
scope = codes "workspace:1"

abbrev action : Text
action = codes "scan"

abbrev times : List ℕ
times = 60000000 ∷ 61500000 ∷ 119000000 ∷ []

valid_arguments : consume_arguments_valid scope action 2 60 ≡ true
unfolding consume_arguments_valid
valid_arguments = refl

times_same : All (λ now. window_of 60 now ≡ 60) times
unfolding window_of
times_same = (refl, (refl, (refl, tt)))

allowed_of-eq-min_example :
    allowed_of scope action 2 60 times [] ≡ min 3 (2 - used scope action 60 [])
allowed_of-eq-min_example =
    allowed_of-eq-min scope action 2 60 60 times [] valid_arguments times_same

abbrev full : List RateLimitBucketRecord
full =
    record {
      scope_key = scope;
      action = action;
      window_start = 60;
      count = 2;
      updated_at = 61500000;
    }
    ∷ []

refusal :
    (out : List RateLimitBucketRecord × RateLimitDecision) × (consume scope action 2 60 90500000
        full
      ≡ ok out)
    × (out.1.allowed ≡ false)
unfolding consume consume_arguments_valid decide increment_or_create bucket_count is_bucket text_eq
    window_of
refusal = (_, refl, refl)

consume-retry_after_example :
    (1 ≤ refusal.0.1.retry_after_seconds)
    × (refusal.0.1.retry_after_seconds ≤ 60)
    × (refusal.0.1.reset_at * 1000000 ≤ 90500000 + refusal.0.1.retry_after_seconds * 1000000)
    × (refusal.0.1.remaining ≡ 0)
consume-retry_after_example =
    consume-retry_after scope action 2 60 90500000 full refusal.0.0 refusal.0.1 refusal.1 refusal.2
