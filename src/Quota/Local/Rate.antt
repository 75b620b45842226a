-- ===== src/Quota/Local/Rate.antt =====
-- Over any span the limiter grants a tenant no more than its share's capacity and refill.
use tide_gate.Prelude.{
  ℕ, ◌+◌, ◌-◌, ◌*◌, ◌≤◌, ◌≡◌, refl, String, string_eq, Bool, true, false, ◌||◌, none, some, List,
  [], ◌∷◌, arith, ltb, if◌then◌else◌, Bool-cases, inl, inr,
}
use tide_gate.Prelude.Dict.{lookup, lookup-insert_self}
use tide_gate.Config.{QuotaPlanConfig}
use tide_gate.Quota.Local.{
  Bucket, LocalFallbackLimiter, share, token, bucket_for, refill_bucket, spend, allow_local,
}

-- one call of a tenant
pub record Call : Type 0 where
  pub now : ℕ
  pub cost : ℕ

-- the tokens that the calls are granted
unfoldable pub granted : ℕ → String → QuotaPlanConfig → List Call → LocalFallbackLimiter → ℕ
granted instances tenant plan [] l = 0
granted instances tenant plan (c ∷ cs) l =
    let (allowed, l') = allow_local instances c.now tenant plan c.cost l in
    let rest = granted instances tenant plan cs l' in if allowed then c.cost + rest else rest

-- The calls stand in the order of the clock, from `t` on.
abbrev pub Later : ℕ → List Call → Type 0
Later t [] = Unit
Later t (c ∷ cs) = (t ≤ c.now) × Later c.now cs

abbrev pub last : ℕ → List Call → ℕ
last t [] = t
last t (c ∷ cs) = last c.now cs

Later-last : (t : ℕ) (cs : List Call) → Later t cs → t ≤ last t cs
Later-last t [] s = omega arith
Later-last t (c ∷ cs) s = omega (arith, Later-last c.now cs s.1, s.0)

split_span :
    (r start mid end : ℕ)
    → start ≤ mid
    → mid ≤ end
    → (mid - start) * r + r * (end - mid) ≡ r * (end - start)
split_span r start mid end h k = grind arith

spent :
    (cost held other limit : ℕ)
    → (ltb other limit || ltb held cost) ≡ false
    → cost + (held - cost) ≡ held
spent cost held other h = ground arith

add_granted :
    (allowed : Bool) (cost rest t : ℕ)
    → (if allowed then cost + rest else rest) * t ≡ (if allowed then cost else 0) * t + rest * t
add_granted true cost rest t = grind arith
add_granted false cost rest t = grind arith

module _ (instances t0 : ℕ) (tenant : String) (plan : QuotaPlanConfig) where
  abbrev rate : ℕ
  rate = share instances plan.tpm

  -- the bucket of tokens that a call finds, refilled
  abbrev found : ℕ → LocalFallbackLimiter → Bucket
  found now l =
      refill_bucket (bucket_for l.tpm tenant (rate * 60_000_000) now) rate (rate * 60_000_000) now

  allow_local_tpm :
      (c : Call) (l : LocalFallbackLimiter)
      → let (allowed, l') = allow_local instances c.now tenant plan c.cost l in
        (b : Bucket) × (lookup tenant l'.tpm ≡ some b)
        × (b.ts ≡ c.now)
        × ((if allowed then c.cost else 0) * token instances + b.tokens ≡ (found c.now l).tokens)
  unfolding allow_local
  allow_local_tpm c l =
      let rpm_rate : ℕ = share instances plan.rpm in
      let rpm_bucket =
        refill_bucket (bucket_for l.rpm tenant (rpm_rate * 60_000_000) c.now) rpm_rate
          (rpm_rate * 60_000_000) c.now in
      let b = found c.now l in
      let cost : ℕ = c.cost * token instances in
      elim (Bool-cases (ltb rpm_bucket.tokens (token instances) || ltb b.tokens cost)) [
        | inl short ↦
            rw (allow_local, short) (b, lookup-insert_self tenant b l.tpm, refl, omega arith)
        | inr enough ↦
            rw (allow_local, enough)
              (
                spend cost b,
                lookup-insert_self tenant (spend cost b) l.tpm,
                refl,
                spent cost b.tokens rpm_bucket.tokens (token instances) enough,
              )
      ]

  found-le :
      (now : ℕ) (l : LocalFallbackLimiter) (b : Bucket)
      → lookup tenant l.tpm ≡ some b
      → (found now l).tokens ≤ b.tokens + (now - b.ts) * rate
  unfolding refill_bucket bucket_for
  found-le now l b h = rw (bucket_for, h) (omega arith)

  found_new :
      (now : ℕ) (l : LocalFallbackLimiter)
      → lookup tenant l.tpm ≡ none
      → (found now l).tokens ≤ rate * 60_000_000
  unfolding refill_bucket
  found_new now l h = omega arith

  -- one call, and what the later ones are granted from the bucket that it leaves
  granted_step :
      (c : Call) (cs : List Call) (l : LocalFallbackLimiter) (t x : ℕ)
      → let (allowed, l') = allow_local instances c.now tenant plan c.cost l in
        t ≤ c.now
        → Later c.now cs
        → (found c.now l).tokens ≤ x + (c.now - t) * rate
        → ((b : Bucket)
            → lookup tenant l'.tpm ≡ some b
            → b.ts ≡ c.now
            → granted instances tenant plan cs l' * token instances
              ≤ b.tokens + rate * (last c.now cs - c.now))
        → granted instances tenant plan (c ∷ cs) l * token instances
          ≤ x + rate * (last c.now cs - t)
  unfolding granted
  granted_step c cs l t x le s held rest =
      let (b', h', e, total) = allow_local_tpm c l in
      let l' = (allow_local instances c.now tenant plan c.cost l).1 in
      rw
        (add_granted (allow_local instances c.now tenant plan c.cost l).0 c.cost
          (granted instances tenant plan cs l') (token instances))
        (omega (
          arith,
          rest b' h' e,
          total,
          held,
          split_span rate t c.now (last c.now cs) le (Later-last c.now cs s),
        ))

  granted_from :
      (t : ℕ) (cs : List Call) (l : LocalFallbackLimiter) (b : Bucket)
      → lookup tenant l.tpm ≡ some b
      → b.ts ≡ t
      → Later t cs
      → granted instances tenant plan cs l * token instances ≤ b.tokens + rate * (last t cs - t)
  unfolding granted
  granted_from t [] l b h e s = omega arith
  granted_from t (c ∷ cs) l b h e s =
      granted_step c cs l t b.tokens s.0 s.1 (rw (← e) (found-le c.now l b h)) (λ b' k f.
        granted_from c.now cs (allow_local instances c.now tenant plan c.cost l).1 b' k f s.1)

  -- The tokens that a tenant new to the limiter is granted over any calls, by a clock that does not go
  -- back, are no more than its share's capacity and what the elapsed time refills.
  pub granted-rate :
      (cs : List Call) (l : LocalFallbackLimiter)
      → lookup tenant l.tpm ≡ none
      → Later t0 cs
      → granted instances tenant plan cs l * token instances
        ≤ rate * 60_000_000 + rate * (last t0 cs - t0)
  unfolding granted
  granted-rate [] l h s = omega arith
  granted-rate (c ∷ cs) l h s =
      granted_step c cs l t0 (rate * 60_000_000) s.0 s.1 (omega (arith, found_new c.now l h))
        (λ b k e.
          granted_from c.now cs (allow_local instances c.now tenant plan c.cost l).1 b k e s.1)
