-- ===== src/Routing/Hedge/Window.antt =====
-- The window holds exactly the events of its span, and the hedges stay within their ratio.
use tide_gate.Prelude.{
  if◌then◌else◌, ◌↔◌, ℕ, ◌+◌, ◌*◌, ◌≤◌, max, ◌≡◌, refl, Bool, true, false, not, List, [], ◌∷◌, ◌++◌,
  arith, ltb, length, keep_if, length-append, Bool-cases, inl, inr, ltb→lt, ltb_false→le,
}
use tide_gate.Config.{HedgingConfig}
use tide_gate.Routing.Hedge.{HedgeBudget, drop_old, prune, over_budget, allow_hedge}

-- All of the times are at `t` or later.
abbrev pub After : ℕ → List ℕ → Type 0
After t [] = Unit
After t (x ∷ xs) = (t ≤ x) × After t xs

-- Times in the order in which they were appended, by a clock that does not go back.
abbrev pub Ordered : List ℕ → Type 0
Ordered [] = Unit
Ordered (t ∷ ts) = After t ts × Ordered ts

-- `t` is in the window that ends at `now`
abbrev pub recent : ℕ → ℕ → ℕ → Bool
recent window now t = not (ltb (t + window) now)

keep_if-After :
    (window now t : ℕ) (ts : List ℕ)
    → After t ts
    → ltb (t + window) now ≡ false
    → keep_if (recent window now) ts ≡ ts
keep_if-After window now t [] a h = refl
keep_if-After window now t (x ∷ ts) a h = ground (arith, keep_if-After window now t ts a.1)

drop_old-eq-keep_if :
    (window now : ℕ) (ts : List ℕ)
    → Ordered ts
    → drop_old window now ts ≡ keep_if (recent window now) ts
unfolding drop_old
drop_old-eq-keep_if window now [] o = refl
drop_old-eq-keep_if window now (t ∷ ts) o =
    ground (arith, drop_old-eq-keep_if window now ts o.1, keep_if-After window now t ts o.0)

After-keep_if : (p : ℕ → Bool) (t : ℕ) (ts : List ℕ) → After t ts → After t (keep_if p ts)
After-keep_if p t [] a = tt
After-keep_if p t (x ∷ ts) a = ground (arith, After-keep_if p t ts a.1)

keep_if-Ordered : (p : ℕ → Bool) (ts : List ℕ) → Ordered ts → Ordered (keep_if p ts)
keep_if-Ordered p [] o = tt
keep_if-Ordered p (t ∷ ts) o = ground (arith, keep_if-Ordered p ts o.1, After-keep_if p t ts o.0)

-- With a clock that does not go back, pruning the two deques from the front leaves exactly the
-- requests and the hedges of the window that ends now, in their order.
pub prune-eq-recent :
    (now : ℕ) (b : HedgeBudget)
    → Ordered b.requests
    → Ordered b.hedges
    → ((prune now b).requests ≡ keep_if (recent b.window_s now) b.requests)
      × ((prune now b).hedges ≡ keep_if (recent b.window_s now) b.hedges)
unfolding prune
prune-eq-recent now b r h =
    (drop_old-eq-keep_if b.window_s now b.requests r, drop_old-eq-keep_if b.window_s now b.hedges h)

one_more : (ts : List ℕ) (now : ℕ) → length (ts ++ now ∷ []) ≡ length ts + 1
one_more ts now = omega (arith, length-append {0} ts (now ∷ []))

-- the times of the window that ends now
abbrev pub in_window : ℕ → ℕ → List ℕ → List ℕ
in_window window now ts = keep_if (recent window now) ts

-- With a clock that does not go back, a hedge is allowed exactly if with it the hedges of the window
-- that ends now do not exceed the configured share of the requests of that window, of which at least
-- one is counted; the hedges are then those of the window and, if it is allowed, this one, and the
-- requests are those of the window.
pub allow_hedge-ratio :
    (config : HedgingConfig) (now : ℕ) (b : HedgeBudget)
    → Ordered b.requests
    → Ordered b.hedges
    → let (allowed, b') = allow_hedge config now b in
      let requests = in_window b.window_s now b.requests in
      let hedges = in_window b.window_s now b.hedges in
      ((allowed ≡ true) ↔ (
        (length hedges + 1) * config.max_hedge_ratio.den
        ≤ config.max_hedge_ratio.num * max 1 (length requests)))
      × (b'.requests ≡ requests)
      × (b'.hedges ≡ (if allowed then hedges ++ now ∷ [] else hedges))
unfolding allow_hedge over_budget
allow_hedge-ratio config now b r h =
    let (same_requests, same_hedges) = prune-eq-recent now b r h in
    elim (Bool-cases (over_budget config (prune now b))) [
      | inl over ↦
          rw (allow_hedge, over, ← same_requests, ← same_hedges)
            ((λ k. cc, (λ k. ground (arith, ltb→lt _ _ over))), refl, refl)
      | inr within ↦
          rw (allow_hedge, within, ← same_requests, ← same_hedges)
            (((λ k. ltb_false→le _ _ within), (λ k. refl)), refl, refl)
    ]
