-- ===== src/Routing/Ladder/Complete.antt =====
-- Every configured group that the policy names is on the ladder.
use tide_gate.Prelude.{
  ◌≡◌, ◌⊎◌, String, string_eq, true, Option, none, some, List, [], ◌∷◌, ◌++◌, arith, contains, ◌==◌,
  Bool-cases, inl, inr, is_some,
}
use tide_gate.Prelude.Dict.{lookup}
use tide_gate.Config.{GatewayConfig, ModelGroupConfig, TenantConfig}
use tide_gate.Routing.Ladder.{
  Ladder, add_level, add_fallbacks, add_smaller, levels, fallback_names, policy_of,
}
use tide_gate.Routing.Ladder.Order.{group_names, requested_ladder, levels-below}

contains-append_left :
    (x y : String) (xs : List String) → contains x xs ≡ true → contains x (xs ++ y ∷ []) ≡ true
contains-append_left x y [] h = ground arith
contains-append_left x y (z ∷ xs) h = ground (arith, contains-append_left x y xs)

contains-append_last : (x : String) (xs : List String) → contains x (xs ++ x ∷ []) ≡ true
contains-append_last x [] = ground (arith, string_eq.same_iff x x)
contains-append_last x (z ∷ xs) = ground (arith, contains-append_last x xs)

-- A level that is there stays.
pub seen-add_level :
    (settings : GatewayConfig) (name x : String) (mark : Option String) (l : Ladder)
    → contains x l.seen ≡ true
    → contains x (add_level settings name mark l).seen ≡ true
unfolding add_level
seen-add_level settings name x mark l h = ground (arith, contains-append_left x name l.seen)

pub add_level-adds :
    (settings : GatewayConfig) (name : String) (mark : Option String) (l : Ladder)
    → is_some (lookup name settings.model_groups) ≡ true
    → contains name (add_level settings name mark l).seen ≡ true
unfolding add_level
add_level-adds settings name mark l h = ground (arith, contains-append_last name l.seen)

adds_same :
    (settings : GatewayConfig) (name x : String) (mark : Option String) (l : Ladder)
    → name ≡ x
    → is_some (lookup x settings.model_groups) ≡ true
    → contains x (add_level settings name mark l).seen ≡ true
adds_same settings name x mark l e h = rw e (add_level-adds settings x mark l h)

pub seen-add_fallbacks :
    (settings : GatewayConfig) (x : String) (names : List String) (l : Ladder)
    → contains x l.seen ≡ true
    → contains x (add_fallbacks settings names l).seen ≡ true
unfolding add_fallbacks
seen-add_fallbacks settings x [] l h = h
seen-add_fallbacks settings x (name ∷ names) l h =
    seen-add_fallbacks settings x names (add_level settings name (some "fallback") l)
      (seen-add_level settings name x (some "fallback") l h)

pub add_fallbacks-adds :
    (settings : GatewayConfig) (x : String) (names : List String) (l : Ladder)
    → contains x names ≡ true
    → is_some (lookup x settings.model_groups) ≡ true
    → contains x (add_fallbacks settings names l).seen ≡ true
unfolding add_fallbacks
add_fallbacks-adds settings x [] l h k = absurd (cc)
add_fallbacks-adds settings x (name ∷ names) l h k = elim (Bool-cases (name == x)) [
  | inl same ↦
      seen-add_fallbacks settings x names (add_level settings name (some "fallback") l)
        (adds_same settings name x (some "fallback") l ((string_eq.same_iff name x).0 same) k)
  | inr other ↦
      add_fallbacks-adds settings x names (add_level settings name (some "fallback") l)
        (rw other at h) k
]

add_smaller-adds :
    (settings : GatewayConfig) (x : String) (smaller : Option String) (l : Ladder)
    → smaller ≡ some x
    → is_some (lookup x settings.model_groups) ≡ true
    → contains x (add_smaller settings smaller l).seen ≡ true
unfolding add_smaller
add_smaller-adds settings x none l e h = absurd (cc)
add_smaller-adds settings x (some name) l e h =
    adds_same settings name x (some "smaller-model") l (ground arith) h

seen-add_smaller :
    (settings : GatewayConfig) (x : String) (smaller : Option String) (l : Ladder)
    → contains x l.seen ≡ true
    → contains x (add_smaller settings smaller l).seen ≡ true
unfolding add_smaller
seen-add_smaller settings x none l h = h
seen-add_smaller settings x (some name) l h =
    seen-add_level settings name x (some "smaller-model") l h

-- Every configured group that the tenant's fallback chain names behind the requested one (or at all,
-- if the chain does not name that), and the smaller group if it is configured, is on the ladder of a
-- requested group that is configured.
pub levels_complete :
    (settings : GatewayConfig) (requested x : String) (tenant : TenantConfig)
    (group : ModelGroupConfig)
    → lookup requested settings.model_groups ≡ some group
    → is_some (lookup x settings.model_groups) ≡ true
    → (contains x (fallback_names requested (policy_of settings tenant).fallback_chain) ≡ true)
      ⊎ ((policy_of settings tenant).degradation.smaller_model_group ≡ some x)
    → contains x (group_names (levels settings requested tenant)) ≡ true
levels_complete settings requested x tenant group h k named =
    let (same, seen) = levels-below settings requested tenant group h in
    rw (same, ← seen)
      (elim named [
        | inl fallback ↦ seen-add_smaller settings x _ _ (
            add_fallbacks-adds settings x
              (fallback_names requested (policy_of settings tenant).fallback_chain)
              (requested_ladder requested group) fallback k)
        | inr smaller ↦ add_smaller-adds settings x _ _ smaller k
      ])
