-- ===== src/Quota/Scripts/Rate.antt =====
-- The token bucket of the requests per minute: over any span it admits no more than its capacity and
-- the tokens that the span refills.
use tide_gate.Prelude.{ℕ, ◌+◌, ◌-◌, ◌*◌, ◌≤◌, ◌≡◌, ◌≢◌, refl, some, List, [], ◌∷◌, arith, inl, inr}
use tide_gate.Prelude.Int.{ℤ, pos, ◌+ℤ◌, ◌-ℤ◌, ◌≤ℤ◌, min_ℤ, int_laws}
use tide_gate.Quota.Scripts.{
  TenantQuota, ReserveArgs, Reply, admitted, rejected, unit, no_bucket, refill_bucket,
  refill_tokens, refilled, reserved, check_and_reserve,
}
use tide_gate.Quota.Scripts.Outcome.{check_and_reserve_cases, rpm_now}

abbrev pub is_admitted : Reply → ℕ
is_admitted admitted = 1
is_admitted (rejected d n) = 0

-- one script call after the other, with the number of the admitted ones
unfoldable pub admit_all : List ReserveArgs → TenantQuota → ℕ × TenantQuota
admit_all [] q = (0, q)
admit_all (a ∷ rest) q =
    let (reply, q') = check_and_reserve a q in
    let (n, q'') = admit_all rest q' in (is_admitted reply + n, q'')

-- The calls of one plan, in the order of their clock, from `t` on.
abbrev pub Steady : ℕ → ℕ → ℕ → List ReserveArgs → Type 0
Steady r c t [] = Unit
Steady r c t (a ∷ rest) =
    (a.rpm_rate ≡ r) × (a.rpm_cap ≡ c) × (t ≤ a.now_ms) × Steady r c a.now_ms rest

abbrev pub last_ms : ℕ → List ReserveArgs → ℕ
last_ms t [] = t
last_ms t (a ∷ rest) = last_ms a.now_ms rest

split_span :
    (r t0 ts now : ℕ) → t0 ≤ ts → ts ≤ now → (now - ts) * r + r * (ts - t0) ≡ r * (now - t0)
split_span r t0 ts now h k = grind arith

refused : (reply : Reply) → reply ≢ admitted → is_admitted reply ≡ 0
refused admitted ne = absurd (ne refl)
refused (rejected d n) ne = refl

module _ (r c t0 : ℕ) where
  -- with `m` requests admitted so far and `x` tokens at `now`
  abbrev Credit : ℕ → ℕ → ℤ → Type 0
  Credit now m x =
      (pos 0 ≤ℤ x) × (x +ℤ pos (m * unit) ≤ℤ pos (c * unit + r * (now - t0))) × (t0 ≤ now)

  min_credit :
      (x y : ℤ)
      → (min_ℤ x y ≤ℤ x) × (min_ℤ x y ≤ℤ y) × (pos 0 ≤ℤ x → pos 0 ≤ℤ y → pos 0 ≤ℤ min_ℤ x y)
  min_credit x y = ground arith

  refill-Credit :
      (ts now m : ℕ) (t : ℤ)
      → ts ≤ now
      → Credit ts m t
      → Credit now m (refill_tokens now r c (some t) (some ts))
  refill-Credit ts now m t h (p, b, o) =
      let capped = min_credit (pos (c * unit)) (t +ℤ pos ((now - ts) * r)) in
      (
        capped.2 (omega arith) (omega (int_laws, p)),
        omega (int_laws, capped.1, split_span r t0 ts now o h, b),
        omega arith,
      )

  keep_zero : (now m : ℕ) (x : ℤ) → Credit now m x → Credit now (0 + m) x
  keep_zero now m x (p, b, o) = (p, omega (int_laws, b), o)

  spend-Credit :
      (now m : ℕ) (x : ℤ) → pos unit ≤ℤ x → Credit now m x → Credit now (1 + m) (x -ℤ pos unit)
  spend-Credit now m x h (p, b, o) = (omega int_laws, omega (int_laws, b), o)

  rpm_now_filled :
      (a : ReserveArgs) (q : TenantQuota) (t : ℤ) (ts : ℕ)
      → a.rpm_rate ≡ r
      → a.rpm_cap ≡ c
      → q.rpm.tokens ≡ some t
      → q.rpm.ts_ms ≡ some ts
      → rpm_now a q ≡ refill_tokens a.now_ms r c (some t) (some ts)
  unfolding refill_bucket
  rpm_now_filled a q t ts rate cap e f = rw (refill_bucket, rate, cap, e, f) refl

  rpm_now_new :
      (a : ReserveArgs) (q : TenantQuota)
      → a.rpm_rate ≡ r
      → a.rpm_cap ≡ c
      → q.rpm ≡ no_bucket
      → rpm_now a q ≡ pos (c * unit)
  unfolding refill_bucket
  rpm_now_new a q rate cap e = rw (refill_bucket, rate, cap, e) refl

  step-Credit :
      (a : ReserveArgs) (q : TenantQuota) (m : ℕ)
      → Credit a.now_ms m (rpm_now a q)
      → let (reply, q') = check_and_reserve a q in
        (t : ℤ) × (q'.rpm.tokens ≡ some t)
        × (q'.rpm.ts_ms ≡ some a.now_ms)
        × Credit a.now_ms (is_admitted reply + m) t
  unfolding refilled reserved
  step-Credit a q m k = elim (check_and_reserve_cases a q) [
    | inl (p, e) ↦
        rw e (rpm_now a q -ℤ pos unit, refl, refl, spend-Credit a.now_ms m (rpm_now a q) p.rpm k)
    | inr (ne, e) ↦ rw e (
      rpm_now a q,
      refl,
      refl,
      rw (refused (check_and_reserve a q).0 ne) (keep_zero a.now_ms m (rpm_now a q) k),
    )
  ]

  admit_all-Credit :
      (calls : List ReserveArgs) (q : TenantQuota) (ts m : ℕ) (t : ℤ)
      → q.rpm.tokens ≡ some t
      → q.rpm.ts_ms ≡ some ts
      → Credit ts m t
      → Steady r c ts calls
      → ((admit_all calls q).0 + m) * unit ≤ c * unit + r * (last_ms ts calls - t0)
  unfolding admit_all
  admit_all-Credit [] q ts m t e f (p, b, o) s = omega (int_laws, p, b)
  admit_all-Credit (a ∷ rest) q ts m t e f k (rate, cap, later, s) =
      let now : ℕ = a.now_ms in
      let x = refill-Credit ts now m t later k in
      let (t', e', f', k') = step-Credit a q m (rw (rpm_now_filled a q t ts rate cap e f) x) in
      omega (
        arith,
        admit_all-Credit rest (check_and_reserve a q).1 now
            (is_admitted (check_and_reserve a q).0 + m) t' e' f' k' s,
      )

  -- From a tenant's first request on, with the plan's rate and capacity unchanged and the clock never
  -- going back, no more requests are admitted than the capacity and what the elapsed time refills.
  pub admit_all_rate :
      (calls : List ReserveArgs) (q : TenantQuota)
      → q.rpm ≡ no_bucket
      → Steady r c t0 calls
      → (admit_all calls q).0 * unit ≤ c * unit + r * (last_ms t0 calls - t0)
  unfolding admit_all
  admit_all_rate [] q e s = omega arith
  admit_all_rate (a ∷ rest) q e (rate, cap, later, s) =
      let now : ℕ = a.now_ms in
      let (t', e', f', k') =
        step-Credit a q 0 (rw (rpm_now_new a q rate cap e) (omega arith, omega int_laws, later)) in
      omega (
        arith,
        admit_all-Credit rest (check_and_reserve a q).1 now
            (is_admitted (check_and_reserve a q).0 + 0) t' e' f' k' s,
      )
