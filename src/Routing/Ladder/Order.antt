-- ===== src/Routing/Ladder/Order.antt =====
-- The order of the levels: the requested group first, no group twice, every other level degraded.
use tide_gate.Prelude.{
  ◌≡◌, refl, ap, String, string_eq, true, false, Option, none, some, List, [], ◌∷◌, ◌++◌, arith,
  contains, ◌==◌, is_some, Bool-cases, Option-cases, inl, inr,
}
use tide_gate.Prelude.Dict.{lookup}
use tide_gate.Config.{GatewayConfig, TenantConfig, ModelGroupConfig}
use tide_gate.Routing.Ladder.{
  RouteLevel, Ladder, add_level, add_fallbacks, fallback_names, add_smaller, levels, policy_of,
}

-- No name stands twice.
abbrev pub NoRepeat : List String → Type 0
NoRepeat [] = Unit
NoRepeat (x ∷ xs) = (contains x xs ≡ false) × NoRepeat xs

abbrev pub group_names : List RouteLevel → List String
group_names [] = []
group_names (l ∷ ls) = l.model_group_name ∷ group_names ls

-- Every level is a configured group, and is marked as degraded.
abbrev pub Fallbacks : GatewayConfig → List RouteLevel → Type 0
Fallbacks settings [] = Unit
Fallbacks settings (l ∷ ls) =
    (lookup l.model_group_name settings.model_groups ≡ some l.group)
    × (is_some l.degraded ≡ true)
    × Fallbacks settings ls

contains-append :
    (x y : String) (xs : List String)
    → contains x xs ≡ false
    → (y == x) ≡ false
    → contains x (xs ++ y ∷ []) ≡ false
contains-append x y [] h ne = ground arith
contains-append x y (z ∷ xs) h ne = ground (arith, contains-append x y xs)

append-NoRepeat :
    (y : String) (xs : List String) → NoRepeat xs → contains y xs ≡ false → NoRepeat (xs ++ y ∷ [])
append-NoRepeat y [] u h = (refl, tt)
append-NoRepeat y (x ∷ xs) u h = ground (
  arith,
  append-NoRepeat y xs u.1,
  contains-append x y xs,
  string_eq.same_iff x y,
  string_eq.same_iff y x,
)

group_names-append :
    (ls : List RouteLevel) (l : RouteLevel)
    → group_names (ls ++ l ∷ []) ≡ group_names ls ++ l.model_group_name ∷ []
group_names-append [] l = refl
group_names-append (x ∷ ls) l =
    ap (λ (r : List String). x.model_group_name ∷ r) (group_names-append ls l)

append-Fallbacks :
    (settings : GatewayConfig) (ls : List RouteLevel) (l : RouteLevel)
    → Fallbacks settings ls
    → lookup l.model_group_name settings.model_groups ≡ some l.group
    → is_some l.degraded ≡ true
    → Fallbacks settings (ls ++ l ∷ [])
append-Fallbacks settings [] l f h d = (h, d, tt)
append-Fallbacks settings (x ∷ ls) l f h d = (f.0, f.1, append-Fallbacks settings ls l f.2 h d)

module _ (settings : GatewayConfig) (first : RouteLevel) where
  -- the ladder below the level of the requested group
  record IsBelow (l : Ladder) : Type 0 where
    rest : List RouteLevel
    split : l.levels ≡ first ∷ rest
    seen_names : l.seen ≡ group_names l.levels
    no_repeat : NoRepeat l.seen
    fallbacks : Fallbacks settings rest

  add_level-IsBelow :
      (name mark : String) (l : Ladder)
      → IsBelow l
      → IsBelow (add_level settings name (some mark) l)
  unfolding add_level
  add_level-IsBelow name mark l b = elim (Bool-cases (contains name l.seen)) [
    | inl old ↦ rw (add_level, old) b
    | inr new ↦ elim (Option-cases (lookup name settings.model_groups)) [
      | inl unknown ↦ rw (add_level, new, unknown) b
      | inr (group, found) ↦
          rw (add_level, new, found)
            (record {
              rest =
                  b.rest
                  ++ record { model_group_name = name; group = group; degraded = some mark } ∷ [];
              split = rw b.split refl;
              seen_names = rw (group_names-append l.levels _, b.seen_names) refl;
              no_repeat = append-NoRepeat name l.seen b.no_repeat new;
              fallbacks = append-Fallbacks settings b.rest _ b.fallbacks found refl;
            })
    ]
  ]

  add_fallbacks-IsBelow :
      (names : List String) (l : Ladder) → IsBelow l → IsBelow (add_fallbacks settings names l)
  unfolding add_fallbacks
  add_fallbacks-IsBelow [] l b = b
  add_fallbacks-IsBelow (name ∷ names) l b =
      add_fallbacks-IsBelow names (add_level settings name (some "fallback") l)
        (add_level-IsBelow name "fallback" l b)

  add_smaller-IsBelow :
      (name : Option String) (l : Ladder) → IsBelow l → IsBelow (add_smaller settings name l)
  unfolding add_smaller
  add_smaller-IsBelow none l b = b
  add_smaller-IsBelow (some name) l b = add_level-IsBelow name "smaller-model" l b

-- the level of the requested group
abbrev pub requested_level : String → ModelGroupConfig → RouteLevel
requested_level name group = record { model_group_name = name; group = group; degraded = none }

first_level :
    (settings : GatewayConfig) (name : String) (group : ModelGroupConfig)
    → lookup name settings.model_groups ≡ some group
    → add_level settings name none (record { levels = []; seen = [] })
      ≡ record { levels = requested_level name group ∷ []; seen = name ∷ [] }
unfolding add_level
first_level settings name group h = rw (add_level, h) refl

abbrev pub requested_ladder : String → ModelGroupConfig → Ladder
requested_ladder name group = record { levels = requested_level name group ∷ []; seen = name ∷ [] }

-- the ladder that `levels` has built when the requested group is configured
abbrev pub whole_ladder : GatewayConfig → String → TenantConfig → ModelGroupConfig → Ladder
whole_ladder settings requested tenant group =
    let policy = policy_of settings tenant in
    add_smaller settings policy.degradation.smaller_model_group (
      add_fallbacks settings (fallback_names requested policy.fallback_chain)
        (requested_ladder requested group))

whole_ladder-IsBelow :
    (settings : GatewayConfig) (requested : String) (tenant : TenantConfig)
    (group : ModelGroupConfig)
    → IsBelow settings
        (requested_level requested group)
        (whole_ladder settings requested tenant group)
whole_ladder-IsBelow settings requested tenant group =
    let policy = policy_of settings tenant in
    let top = requested_level requested group in
    let start = requested_ladder requested group in
    let names = fallback_names requested policy.fallback_chain in
    add_smaller-IsBelow settings top policy.degradation.smaller_model_group
      (add_fallbacks settings names start)
      (add_fallbacks-IsBelow settings top names start (record {
        rest = [];
        split = refl;
        seen_names = refl;
        no_repeat = (refl, tt);
        fallbacks = tt;
      }))

pub levels-below :
    (settings : GatewayConfig) (requested : String) (tenant : TenantConfig)
    (group : ModelGroupConfig)
    → lookup requested settings.model_groups ≡ some group
    → let l = whole_ladder settings requested tenant group in
      (levels settings requested tenant ≡ l.levels) × (l.seen ≡ group_names l.levels)
unfolding levels
levels-below settings requested tenant group h = (
  rw (levels, first_level settings requested group h) refl,
  (whole_ladder-IsBelow settings requested tenant group).seen_names,
)

-- For a requested model that is configured, the first level is its group, undegraded; every later
-- level is a configured group that is marked as degraded; and no group is tried at two levels.
pub levels-order :
    (settings : GatewayConfig) (requested : String) (tenant : TenantConfig)
    (group : ModelGroupConfig)
    → lookup requested settings.model_groups ≡ some group
    → (rest : List RouteLevel) × (levels settings requested tenant
        ≡ requested_level requested group ∷ rest)
      × Fallbacks settings rest
      × NoRepeat (group_names (levels settings requested tenant))
levels-order settings requested tenant group h =
    let b = whole_ladder-IsBelow settings requested tenant group in
    rw ((levels-below settings requested tenant group h).0)
      (b.rest, b.split, b.fallbacks, rw (← b.seen_names) b.no_repeat)
