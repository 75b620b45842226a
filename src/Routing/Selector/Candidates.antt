-- ===== src/Routing/Selector/Candidates.antt =====
-- The candidates, which refresh breakers as they are found, are a filter of the deployments.
use tide_gate.Prelude.{
  ℕ, ◌≡◌, ◌∙◌, ap, refl, string_eq, pair_eq, Bool, not, ◌&&◌, ◌||◌, List, [], ◌∷◌, arith, ltb,
  keep_if, contains, ◌==◌, Bool-cases, inl, inr,
}
use tide_gate.Prelude.Int.{pos, leb_ℤ}
use tide_gate.Config.{DeploymentConfig}
use tide_gate.Routing.Breaker.{CircuitBreaker, refresh, has_room, can_try}
use tide_gate.Routing.Stats.{
  Key, RoutingState, deployment_key, stats_for, breaker_for, set_breaker, refresh_breaker,
}
use tide_gate.Routing.Stats.Access.{
  stats_for-set_breaker, breaker_for-set_breaker, breaker_for-set_breaker_ne,
}
use tide_gate.Routing.Selector.{
  try_breaker, candidate_allowed, candidates, is_half_open, half_open_among,
}

-- The deployment has weight, is not excluded, does not cool down, and its breaker would let a call
-- through at `now`.
abbrev pub eligible : List Key → ℕ → RoutingState → DeploymentConfig → Bool
eligible exclude now st d =
    let k = deployment_key d in
    not (leb_ℤ d.weight (pos 0) || contains k exclude)
    && not (ltb now (stats_for st k).cooldown_until_s)
    && has_room (refresh (breaker_for st k) now)

-- its breaker probes at `now`
abbrev pub probing : ℕ → RoutingState → DeploymentConfig → Bool
probing now st d = is_half_open (refresh (breaker_for st (deployment_key d)) now).state

pub refresh-refresh : (b : CircuitBreaker) (now : ℕ) → refresh (refresh b now) now ≡ refresh b now
unfolding refresh
refresh-refresh b now = ground arith

-- Two states that nobody can tell apart who refreshes a breaker at `now` first.
abbrev pub Alike : ℕ → RoutingState → RoutingState → Type 0
Alike now st st' =
    (j : Key)
    → (stats_for st' j ≡ stats_for st j)
      × (refresh (breaker_for st' j) now ≡ refresh (breaker_for st j) now)

pub refl-Alike : (now : ℕ) (st : RoutingState) → Alike now st st
refl-Alike now st j = (refl, refl)

pub trans-Alike :
    (now : ℕ) (st st' st'' : RoutingState)
    → Alike now st st'
    → Alike now st' st''
    → Alike now st st''
trans-Alike now st st' st'' a b j = ((b j).0 ∙ (a j).0, (b j).1 ∙ (a j).1)

-- A breaker that is written back refreshed.
refreshed-Alike :
    (now : ℕ) (st : RoutingState) (k : Key)
    → Alike now st (set_breaker st k (refresh (breaker_for st k) now))
refreshed-Alike now st k j = elim (Bool-cases (k == j)) [
  | inl same ↦
      let e = (pair_eq.same_iff k j).0 same in
      rw (← e) (
        stats_for-set_breaker st k _ _,
        ap (λ (b : CircuitBreaker). refresh b now) (breaker_for-set_breaker st k _)
            ∙ refresh-refresh _ now,
      )
  | inr other ↦ (
    stats_for-set_breaker st k _ j,
    ap (λ (b : CircuitBreaker). refresh b now)
        (breaker_for-set_breaker_ne st k _ j (ground (arith, pair_eq.same_iff k j))),
  )
]

refresh_breaker-Alike :
    (k : Key) (now : ℕ) (st : RoutingState)
    → ((refresh_breaker k now st).0 ≡ (refresh (breaker_for st k) now).state)
      × Alike now st (refresh_breaker k now st).1
unfolding refresh_breaker
refresh_breaker-Alike k now st = (refl, refreshed-Alike now st k)

try_breaker-Alike :
    (k : Key) (now : ℕ) (st : RoutingState)
    → ((try_breaker k now st).0 ≡ has_room (refresh (breaker_for st k) now))
      × Alike now st (try_breaker k now st).1
unfolding try_breaker can_try
try_breaker-Alike k now st = (refl, refreshed-Alike now st k)

candidate_allowed-Alike :
    (exclude : List Key) (now : ℕ) (d : DeploymentConfig) (st : RoutingState)
    → ((candidate_allowed exclude now d st).0 ≡ eligible exclude now st d)
      × Alike now st (candidate_allowed exclude now d st).1
unfolding candidate_allowed
candidate_allowed-Alike exclude now d st =
    let k = deployment_key d in
    elim (Bool-cases (leb_ℤ d.weight (pos 0) || contains k exclude)) [
      | inl out ↦ rw (candidate_allowed, out) (refl, refl-Alike now st)
      | inr in_ ↦ elim (Bool-cases (ltb now (stats_for st k).cooldown_until_s)) [
        | inl cools ↦ rw (candidate_allowed, in_, cools) (refl, refl-Alike now st)
        | inr ready ↦
            let st' = (refresh_breaker k now st).1 in
            let fresh = (refresh_breaker-Alike k now st).1 in
            let (room, tried) = try_breaker-Alike k now st' in
            rw (candidate_allowed, in_, ready)
              (room ∙ ap has_room ((fresh k).1), trans-Alike now st st' _ fresh tried)
      ]
    ]

pub eligible-Alike :
    (exclude : List Key) (now : ℕ) (st st' : RoutingState) (d : DeploymentConfig)
    → Alike now st st'
    → eligible exclude now st' d ≡ eligible exclude now st d
eligible-Alike exclude now st st' d a = let (s, b) = a (deployment_key d) in rw (s, b) refl

probing-Alike :
    (now : ℕ) (st st' : RoutingState) (d : DeploymentConfig)
    → Alike now st st'
    → probing now st' d ≡ probing now st d
probing-Alike now st st' d a = rw ((a (deployment_key d)).1) refl

keep_if-same :
    (p q : DeploymentConfig → Bool) (ds : List DeploymentConfig)
    → ((d : DeploymentConfig) → p d ≡ q d)
    → keep_if p ds ≡ keep_if q ds
keep_if-same p q [] h = refl
keep_if-same p q (d ∷ ds) h = rw (h d, keep_if-same p q ds h) refl

-- The list of the candidates, in the order of the deployments, keeps those that are eligible in the
-- state before any breaker was refreshed, and the refreshes change nothing that is seen now.
pub candidates-eq-eligible :
    (exclude : List Key) (now : ℕ) (ds : List DeploymentConfig) (st : RoutingState)
    → ((candidates exclude now ds st).0 ≡ keep_if (eligible exclude now st) ds)
      × Alike now st (candidates exclude now ds st).1
unfolding candidates
candidates-eq-eligible exclude now [] st = (refl, refl-Alike now st)
candidates-eq-eligible exclude now (d ∷ ds) st =
    let (allowed, once) = candidate_allowed-Alike exclude now d st in
    let st' = (candidate_allowed exclude now d st).1 in
    let (rest, all) = candidates-eq-eligible exclude now ds st' in
    (
      rw
          (
            candidates,
            allowed,
            rest,
            keep_if-same (eligible exclude now st') (eligible exclude now st) ds
                (λ e. eligible-Alike exclude now st st' e once),
          )
          refl,
      trans-Alike now st st' _ once all,
    )

pub half_open_among-eq :
    (now : ℕ) (ds : List DeploymentConfig) (st : RoutingState)
    → ((half_open_among now ds st).0 ≡ keep_if (probing now st) ds)
      × Alike now st (half_open_among now ds st).1
unfolding half_open_among
half_open_among-eq now [] st = (refl, refl-Alike now st)
half_open_among-eq now (d ∷ ds) st =
    let (state, once) = refresh_breaker-Alike (deployment_key d) now st in
    let st' = (refresh_breaker (deployment_key d) now st).1 in
    let (rest, all) = half_open_among-eq now ds st' in
    (
      rw
          (
            half_open_among,
            state,
            rest,
            keep_if-same (probing now st') (probing now st) ds
                (λ e. probing-Alike now st st' e once),
          )
          refl,
      trans-Alike now st st' _ once all,
    )

pub keep_probing-Alike :
    (now : ℕ) (st st' : RoutingState) (ds : List DeploymentConfig)
    → Alike now st st'
    → keep_if (probing now st') ds ≡ keep_if (probing now st) ds
keep_probing-Alike now st st' ds a =
    keep_if-same (probing now st') (probing now st) ds (λ d. probing-Alike now st st' d a)
