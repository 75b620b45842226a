-- ===== src/Routing/Hedge/Tests.antt =====
-- The hedging budget at an input.
use tide_gate.Prelude.{
  ◌↔◌, if◌then◌else◌, ◌++◌, ◌+◌, ◌*◌, ◌≤◌, max, ◌≡◌, refl, true, false, [], ◌∷◌, length, keep_if,
  arith,
}
use tide_gate.Config.Samples.{sample_hedging}
use tide_gate.Routing.Hedge.{HedgeBudget, drop_old, prune, allow_hedge}
use tide_gate.Routing.Hedge.Window.{recent, prune-eq-recent, allow_hedge-ratio, in_window}

abbrev budget : HedgeBudget
budget = record { window_s = 60; requests = 10 ∷ 50 ∷ 90 ∷ []; hedges = 20 ∷ [] }

-- one hedge to two requests is allowed, and the second is not
allow_hedge_run :
    ((allow_hedge sample_hedging 100 budget).0 ≡ true)
    × ((allow_hedge sample_hedging 100 (allow_hedge sample_hedging 100 budget).1).0 ≡ false)
unfolding allow_hedge drop_old
allow_hedge_run = (refl, refl)

prune-eq-recent_example :
    ((prune 100 budget).requests ≡ keep_if (recent 60 100) (10 ∷ 50 ∷ 90 ∷ []))
    × ((prune 100 budget).hedges ≡ keep_if (recent 60 100) (20 ∷ []))
prune-eq-recent_example = prune-eq-recent 100 budget (ground arith) (tt, tt)

allow_hedge-ratio_example :
    let (allowed, b') = allow_hedge sample_hedging 100 budget in
    let requests = in_window 60 100 (10 ∷ 50 ∷ 90 ∷ []) in
    let hedges = in_window 60 100 (20 ∷ []) in
    ((allowed ≡ true) ↔ ((length hedges + 1) * 2 ≤ 1 * max 1 (length requests)))
    × (b'.requests ≡ requests)
    × (b'.hedges ≡ (if allowed then hedges ++ 100 ∷ [] else hedges))
allow_hedge-ratio_example = allow_hedge-ratio sample_hedging 100 budget (ground arith) (tt, tt)
