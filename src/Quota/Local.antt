-- ===== src/Quota/Local.antt =====
-- quota/local_fallback.py: the limiter that stands in for Redis. A bucket counts in units of a
-- 60000000th of a token over the number of instances, so that a plan's share of a rate per minute
-- times microseconds is whole; the source has floats there. Times are of a monotonic clock.
pub mod Rate
mod Tests
use tide_gate.Prelude.{
  ℕ, ◌+◌, ◌-◌, ◌*◌, min, max, String, string_eq, Bool, true, false, ◌||◌, ltb, if◌then◌else◌,
  get_or,
}
use tide_gate.Prelude.Dict.{Dict, lookup, insert}
use tide_gate.Config.{QuotaPlanConfig}
use tide_gate.Quota.Estimator.{Estimate}

-- `_Bucket`
pub record Bucket : Type 0 where
  pub tokens : ℕ
  pub ts : ℕ

pub record LocalFallbackLimiter : Type 0 where
  pub rpm : Dict String Bucket
  pub tpm : Dict String Bucket

-- `max(1.0, per_minute / instances)`, in instances' parts of a token
abbrev pub share : ℕ → ℕ → ℕ
share instances per_minute = max instances per_minute

-- one token
abbrev pub token : ℕ → ℕ
token instances = instances * 60_000_000

-- `_bucket`: a new one is full. The write of the new one is made with the refill.
unfoldable pub bucket_for : Dict String Bucket → String → ℕ → ℕ → Bucket
bucket_for buckets tenant_id cap now =
    get_or (lookup tenant_id buckets) (record { tokens = cap; ts = now })

-- `_refill`
unfoldable pub refill_bucket : Bucket → ℕ → ℕ → ℕ → Bucket
refill_bucket b rate cap now = record {
  tokens = min cap (b.tokens + (now - b.ts) * rate);
  ts = now;
}

unfoldable pub spend : ℕ → Bucket → Bucket
spend cost b = record b { tokens = b.tokens - cost }

-- `LocalFallbackLimiter.allow`; `instances` is TIDEGATE_INSTANCE_COUNT, and at least one.
unfoldable pub allow_local :
    ℕ → ℕ → String → QuotaPlanConfig → ℕ → LocalFallbackLimiter → Bool × LocalFallbackLimiter
unfolding bucket_for refill_bucket spend
allow_local instances now tenant_id plan tpm_cost l =
    let rpm_cap : ℕ = share instances plan.rpm * 60_000_000 in
    let tpm_cap : ℕ = share instances plan.tpm * 60_000_000 in
    let rpm_bucket =
      refill_bucket (bucket_for l.rpm tenant_id rpm_cap now) (share instances plan.rpm) rpm_cap
        now in
    let tpm_bucket =
      refill_bucket (bucket_for l.tpm tenant_id tpm_cap now) (share instances plan.tpm) tpm_cap
        now in
    let cost : ℕ = tpm_cost * token instances in
    if ltb rpm_bucket.tokens (token instances) || ltb tpm_bucket.tokens cost
    then (
      false,
      record { rpm = insert tenant_id rpm_bucket l.rpm; tpm = insert tenant_id tpm_bucket l.tpm },
    )
    else (
      true,
      record {
        rpm = insert tenant_id (spend (token instances) rpm_bucket) l.rpm;
        tpm = insert tenant_id (spend cost tpm_bucket) l.tpm;
      },
    )
