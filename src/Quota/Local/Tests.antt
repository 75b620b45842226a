-- ===== src/Quota/Local/Tests.antt =====
-- The local limiter at an input.
use tide_gate.Prelude.{◌+◌, ◌-◌, ◌*◌, ◌≤◌, ◌≡◌, refl, string_eq, [], ◌∷◌, List, arith}
use tide_gate.Prelude.Dict.{lookup, insert}
use tide_gate.Config.Samples.{sample_plan}
use tide_gate.Quota.Local.{
  LocalFallbackLimiter, share, token, allow_local, bucket_for, refill_bucket, spend,
}
use tide_gate.Quota.Local.Rate.{Call, granted, granted-rate, last}

abbrev limiter : LocalFallbackLimiter
limiter = record { rpm = []; tpm = [] }

-- half of 6000 tokens for each of two instances, of which a second refills 50
abbrev calls : List Call
calls =
    record { now = 10; cost = 2990 }
    ∷ record { now = 20; cost = 20 }
    ∷ record { now = 1_000_010; cost = 60 }
    ∷ []

granted_run : granted 2 "tenant-a" sample_plan calls limiter ≡ 3050
unfolding granted allow_local bucket_for refill_bucket lookup insert spend
granted_run = refl

granted-rate_example :
    granted 2 "tenant-a" sample_plan calls limiter * token 2
    ≤ share 2 6000 * 60_000_000 + share 2 6000 * (last 10 calls - 10)
unfolding lookup
granted-rate_example = granted-rate 2 10 "tenant-a" sample_plan calls limiter refl (ground arith)
