-- ===== src/Api/Attempts/Order.antt =====
-- The next attempt is on a level that is not behind the last one, at a deployment that is not excluded.
use tide_gate.Prelude.{
  ℕ, zero, suc, ◌+◌, ◌≤◌, ◌≡◌, refl, ap, sym, ◌∙◌, Bool, true, List, [], ◌∷◌, arith, drop, keep_if,
  Bool-cases, inl, inr,
}
use mathlib.Core.Path.{subst}
use tide_gate.Core.{GatewayError, Result, Result-cases, ok, err}
use tide_gate.Config.{DeploymentConfig, P2CWeights}
use tide_gate.Routing.Ladder.{RouteLevel}
use tide_gate.Routing.Stats.{Key, RoutingState}
use tide_gate.Routing.Selector.{pick}
use tide_gate.Routing.Selector.Candidates.{
  eligible, eligible-Alike, probing, Alike, refl-Alike, trans-Alike,
}
use tide_gate.Routing.Selector.Choice.{
  Among, Samples, Chosen, nothing_left, first_probe, only_one, better_of_two, pick-Chosen,
  pick-Alike,
}
use tide_gate.Api.Attempts.{PickResult, pick_levels, pick_next_attempt, or_next}

keep_if-Among :
    (p : DeploymentConfig → Bool) (d : DeploymentConfig) (ds : List DeploymentConfig)
    → Among d (keep_if p ds)
    → Among d ds × (p d ≡ true)
keep_if-Among p d [] i = absurd i
keep_if-Among p d (x ∷ ds) i = elim (Bool-cases (p x)) [
  | inl kept ↦ elim (rw kept at i) [
    | inl same ↦ (inl same, ap p same ∙ kept)
    | inr later ↦ let (among, has) = keep_if-Among p d ds later in (inr among, has)
  ]
  | inr left ↦ let (among, has) = keep_if-Among p d ds (rw left at i) in (inr among, has)
]

first-Among : (p : DeploymentConfig) (ps xs : List DeploymentConfig) → xs ≡ p ∷ ps → Among p xs
first-Among p ps xs e = rw e (inl refl)

ok_same : (x d : DeploymentConfig) → ok x ≡ ok d → x ≡ d
ok_same x d h = ground arith

-- What is chosen is one of the candidates.
Chosen-Among :
    (weights : P2CWeights) (sample : List DeploymentConfig → DeploymentConfig × DeploymentConfig)
    (st : RoutingState) (q : DeploymentConfig → Bool) (found : List DeploymentConfig)
    (r : Result DeploymentConfig) (d : DeploymentConfig)
    → Chosen weights sample st found (keep_if q found) r
    → r ≡ ok d
    → Among d found
Chosen-Among weights sample st q found r d (nothing_left e) h = absurd (cc)
Chosen-Among weights sample st q found r d (first_probe p ps e) h =
    rw (← ok_same p d h) ((keep_if-Among q p found (first-Among p ps (keep_if q found) e)).0)
Chosen-Among weights sample st q found r d (only_one x e f) h =
    rw (← ok_same x d h) (first-Among x [] found f)
Chosen-Among weights sample st q found r d (better_of_two x y e i two le) h = rw (← ok_same x d h) i

ok_same_pick : (x r : PickResult) → ok x ≡ ok r → x ≡ r
ok_same_pick x r h = ap (from_ok x) h
  where
    from_ok : PickResult → Result PickResult → PickResult
    from_ok x (ok y) = y
    from_ok x (err e) = x

drop_nil : (n : ℕ) → drop {A = RouteLevel} n [] ≡ []
drop_nil zero = refl
drop_nil (suc n) = refl

suc_plus : (m n : ℕ) → suc m + n ≡ suc (m + n)
suc_plus m n = omega arith

drop-add : (m n : ℕ) (levels : List RouteLevel) → drop (m + n) levels ≡ drop n (drop m levels)
drop-add zero n levels = ap (λ (k : ℕ). drop k levels) (omega arith)
drop-add (suc m) n [] = drop_nil (suc m + n) ∙ sym (drop_nil n)
drop-add (suc m) n (l ∷ levels) =
    ap (λ (k : ℕ). drop k (l ∷ levels)) (suc_plus m n) ∙ drop-add m n levels

module _ (weights : P2CWeights)
    (sample : List DeploymentConfig → DeploymentConfig × DeploymentConfig) (fair : Samples sample)
    (exclude : List Key) (now : ℕ) where
  picked-eligible :
      (deployments : List DeploymentConfig) (st : RoutingState) (d : DeploymentConfig)
      → (pick weights sample deployments exclude now st).0 ≡ ok d
      → Among d deployments × (eligible exclude now st d ≡ true)
  picked-eligible deployments st d h = keep_if-Among (eligible exclude now st) d deployments (
      Chosen-Among weights sample st (probing now st) _ _ d
        (pick-Chosen weights sample deployments exclude now st fair) h)

  -- The result is at a level of the list, of which it is not the first `i`.
  abbrev pub OnLadder : ℕ → List RouteLevel → RoutingState → PickResult → Type 0
  OnLadder index levels st r =
      ((i : ℕ) × (rest : List RouteLevel) × (r.level_index ≡ index + i)
        × (drop i levels ≡ r.level ∷ rest))
      × Among r.deployment r.level.group.deployments
      × (eligible exclude now st r.deployment ≡ true)

  picked_here :
      (index : ℕ) (level : RouteLevel) (levels : List RouteLevel) (st : RoutingState)
      (d : DeploymentConfig)
      → (pick weights sample level.group.deployments exclude now st).0 ≡ ok d
      → (pick_levels weights sample exclude now index (level ∷ levels) st).0
        ≡ ok (record { deployment = d; level = level; level_index = index })
  unfolding pick_levels
  picked_here index level levels st d h = rw (pick_levels, h) refl

  picked_later :
      (index : ℕ) (level : RouteLevel) (levels : List RouteLevel) (st : RoutingState)
      (e : GatewayError)
      → (pick weights sample level.group.deployments exclude now st).0 ≡ err e
      → (pick_levels weights sample exclude now index (level ∷ levels) st).0
        ≡ (pick_levels weights sample exclude now
            (suc index)
            levels
            (pick weights sample level.group.deployments exclude now st).1).0
  unfolding pick_levels
  picked_later index level levels st e h = rw (pick_levels, h) refl

  pick_levels-OnLadder :
      (index : ℕ) (levels : List RouteLevel) (st : RoutingState) (r : PickResult)
      → (pick_levels weights sample exclude now index levels st).0 ≡ ok r
      → OnLadder index levels st r
  unfolding pick_levels
  pick_levels-OnLadder index [] st r h = absurd (cc)
  pick_levels-OnLadder index (level ∷ levels) st r h =
      let deployments = level.group.deployments in
      elim (Result-cases (pick weights sample deployments exclude now st).0) [
        | inl (d, e) ↦
            let (among, good) = picked-eligible deployments st d e in
            subst (OnLadder index (level ∷ levels) st)
              (ok_same_pick _ r (sym (picked_here index level levels st d e) ∙ h))
              ((0, levels, omega arith, refl), among, good)
        | inr (g, e) ↦
            let st' = (pick weights sample deployments exclude now st).1 in
            let ((i, rest, at_index, there), among, good) =
              pick_levels-OnLadder (suc index) levels st' r
                (sym (picked_later index level levels st g e) ∙ h) in
            (
              (suc i, rest, omega (arith, at_index), there),
              among,
              sym (
                    eligible-Alike exclude now st st' r.deployment
                      (pick-Alike weights sample deployments exclude now st))
                  ∙ good,
            )
      ]

  -- The next attempt of a request is at a level of the ladder that is not before the last one's, and
  -- at a deployment of its group that has weight, is not excluded, does not cool down and whose
  -- breaker, refreshed, has room.
  pub pick_next_attempt-OnLadder :
      (level_index : ℕ) (levels : List RouteLevel) (st : RoutingState) (r : PickResult)
      → (pick_next_attempt weights sample exclude now level_index levels st).0 ≡ ok r
      → ((rest : List RouteLevel) × (level_index ≤ r.level_index)
          × (drop r.level_index levels ≡ r.level ∷ rest))
        × Among r.deployment r.level.group.deployments
        × (eligible exclude now st r.deployment ≡ true)
  unfolding pick_next_attempt
  pick_next_attempt-OnLadder level_index levels st r h =
      let ((i, rest, at_index, there), among, good) =
        pick_levels-OnLadder level_index (drop level_index levels) st r h in
      (
        (
          rest,
          omega (arith, at_index),
          ap (λ (n : ℕ). drop n levels) at_index ∙ drop-add level_index i levels ∙ there,
        ),
        among,
        good,
      )

module _ (weights : P2CWeights)
    (sample : List DeploymentConfig → DeploymentConfig × DeploymentConfig) (exclude : List Key)
    (now : ℕ) where
  or_next-Alike :
      (index : ℕ) (level : RouteLevel) (o : Result DeploymentConfig)
      (rest : Result PickResult × RoutingState) (st st' : RoutingState)
      → Alike now st st'
      → Alike now st rest.1
      → Alike now st (or_next index level o rest st').1
  or_next-Alike index level (ok d) rest st st' a b = a
  or_next-Alike index level (err e) rest st st' a b = b

  pick_levels-Alike :
      (index : ℕ) (levels : List RouteLevel) (st : RoutingState)
      → Alike now st (pick_levels weights sample exclude now index levels st).1
  unfolding pick_levels
  pick_levels-Alike index [] st = refl-Alike now st
  pick_levels-Alike index (level ∷ levels) st =
      let o = pick weights sample level.group.deployments exclude now st in
      let once = pick-Alike weights sample level.group.deployments exclude now st in
      or_next-Alike index level o.0 _ st o.1 once
        (trans-Alike now st o.1 _ once (pick_levels-Alike (suc index) levels o.1))

  -- The choice of an attempt only writes breakers back that it has refreshed.
  pub pick_next_attempt-Alike :
      (level_index : ℕ) (levels : List RouteLevel) (st : RoutingState)
      → Alike now st (pick_next_attempt weights sample exclude now level_index levels st).1
  unfolding pick_next_attempt
  pick_next_attempt-Alike level_index levels st =
      pick_levels-Alike level_index (drop level_index levels) st
