-- ===== src/Quota/Scripts/Conservation.antt =====
-- The money of one month: what the budget key holds, what is reserved, and what has been spent.
use tide_gate.Prelude.{
  ℕ, ◌+◌, ◌≡◌, refl, sym, ◌∙◌, ap, String, string_eq, true, none, some, List, [], ◌∷◌, arith,
  get_or, Option-cases, Bool-cases, inl, inr, if◌then◌else◌, ◌==◌,
}
use tide_gate.Prelude.Int.{ℤ, pos, ◌+ℤ◌, ◌-ℤ◌, int_laws}
use tide_gate.Prelude.Dict.{
  Dict, lookup, insert, erase, has_key, Distinct, lookup-insert, lookup-insert_self, erase_absent,
}
use tide_gate.Quota.Scripts.{
  ReservationData, TenantQuota, empty_quota, ReserveArgs, set_if_absent, refilled, reserved,
  check_and_reserve, SettleArgs, forget, refund, refund_month, settle, sweep_one, sweep,
}
use tide_gate.Quota.Scripts.Outcome.{check_and_reserve_cases, rpm_now, tpm_now}
use tide_gate.Quota.Scripts.Sound.{
  IsSound, empty_quota-IsSound, check_and_reserve-IsSound, settle-IsSound, sweep_one-IsSound,
  sweep-IsSound,
}

-- the estimate that a reservation holds from the month `m`
abbrev pub held : String → ReservationData → ℕ
held m d = elim d.month [ none ↦ 0 | some n ↦ if n == m then d.budget_est_micro else 0 ]

abbrev pub outstanding : String → Dict String ReservationData → ℕ
outstanding m [] = 0
outstanding m ((id, d) ∷ r) = held m d + outstanding m r

-- the budget of the month, which is the initial one while no request has touched it
abbrev pub balance : String → ℕ → TenantQuota → ℤ
balance m init q = get_or (lookup m q.budgets) (pos init)

abbrev pub value : String → ℕ → TenantQuota → ℤ
value m init q = balance m init q +ℤ pos (outstanding m q.resv_data)

outstanding-insert_absent :
    (m id : String) (d : ReservationData) (r : Dict String ReservationData)
    → lookup id r ≡ none
    → outstanding m (insert id d r) ≡ held m d + outstanding m r
unfolding lookup insert
outstanding-insert_absent m id d [] h = refl
outstanding-insert_absent m id d ((j, e) ∷ r) h = ground (arith, outstanding-insert_absent m id d r)

outstanding-erase :
    (m id : String) {d : ReservationData} (r : Dict String ReservationData)
    → Distinct r
    → lookup id r ≡ some d
    → outstanding m (erase id r) + held m d ≡ outstanding m r
unfolding lookup erase
outstanding-erase m id {d} [] u h = absurd (cc)
outstanding-erase m id {d} ((j, e) ∷ r) u h =
    ground (arith, outstanding-erase m id {d = d} r u.1, erase_absent id r, string_eq.same_iff j id)

plus_zero : (b : ℤ) → b +ℤ pos 0 ≡ b
plus_zero b = omega int_laws

shift : (b : ℤ) (c o : ℕ) → b -ℤ pos c +ℤ pos (c + o) ≡ b +ℤ pos o
shift b c o = omega int_laws

regroup : (b : ℤ) (x y : ℕ) → b +ℤ pos (x + y) ≡ b +ℤ pos y +ℤ pos x
regroup b x y = omega int_laws

refund_shift :
    (b : ℤ) (e u o o' : ℕ) → o' + e ≡ o → b +ℤ (pos e -ℤ pos u) +ℤ pos o' +ℤ pos u ≡ b +ℤ pos o
refund_shift b e u o o' h = omega int_laws

no_shift : (b : ℤ) (o o' : ℕ) → o' + 0 ≡ o → b +ℤ pos o' +ℤ pos 0 ≡ b +ℤ pos o
no_shift b o o' h = omega int_laws

held_dated :
    (m n : String) (d : ReservationData)
    → d.month ≡ some n
    → held m d ≡ (if n == m then d.budget_est_micro else 0)
held_dated m n d h = rw h refl

refund_month_same : (key current n : String) → key ≡ current → refund_month key current (some n) ≡ n
unfolding refund_month
refund_month_same key current n k = elim (Bool-cases (n == current)) [
  | inl same ↦ rw (refund_month, same) (k ∙ sym ((string_eq.same_iff n current).0 same))
  | inr other ↦ rw (refund_month, other) refl
]

module _ (m : String) (init : ℕ) where
  balance-set_if_absent :
      (n : String) (b : ℕ) (d : Dict String ℤ)
      → (n ≡ m → b ≡ init)
      → get_or (lookup m (set_if_absent n (pos b) d)) (pos init) ≡ get_or (lookup m d) (pos init)
  unfolding set_if_absent
  balance-set_if_absent n b d h =
      ground (arith, lookup-insert n m (pos b) d, string_eq.same_iff n m)

  -- a key that is there reads the same whatever the default is
  get_or_present :
      (k : String) (x y : ℤ) (d : Dict String ℤ)
      → has_key k d ≡ true
      → get_or (lookup k d) x ≡ get_or (lookup k d) y
  get_or_present k x y d h = ground arith

  value-refilled :
      (a : ReserveArgs) (q : TenantQuota)
      → (a.month ≡ m → a.budget_init_micro ≡ init)
      → value m init (refilled a q) ≡ value m init q
  unfolding refilled
  value-refilled a q h =
      ap (λ (b : ℤ). b +ℤ pos (outstanding m q.resv_data))
        (balance-set_if_absent a.month a.budget_init_micro q.budgets h)

  has_key-refilled :
      (a : ReserveArgs) (q : TenantQuota) → has_key a.month (refilled a q).budgets ≡ true
  unfolding refilled set_if_absent
  has_key-refilled a q =
      ground (arith, lookup-insert_self a.month (pos a.budget_init_micro) q.budgets)

  value-reserved :
      (a : ReserveArgs) (r t : ℤ) (q : TenantQuota)
      → has_key a.month q.budgets ≡ true
      → lookup a.request_id q.resv_data ≡ none
      → value m init (reserved a r t (get_or (lookup a.month q.budgets) (pos 0)) q) ≡ value m init q
  unfolding reserved
  value-reserved a r t q here fresh =
      rw
        (
          outstanding-insert_absent m a.request_id _ q.resv_data fresh,
          lookup-insert a.month m _ q.budgets,
          get_or_present a.month (pos 0) (pos init) q.budgets here,
        )
        (elim (Bool-cases (a.month == m)) [
          | inl same ↦ rw same (
              shift (get_or (lookup a.month q.budgets) (pos init)) a.budget_cost_micro
                (outstanding m q.resv_data)
              ∙ ap
                  (λ (k : String).
                    get_or (lookup k q.budgets) (pos init) +ℤ pos (outstanding m q.resv_data))
                  ((string_eq.same_iff a.month m).0 same))
          | inr other ↦ rw other (ap (λ (n : ℕ). balance m init q +ℤ pos n) (omega arith))
        ])

  -- what a settlement of `d` that used `budget` has spent from the month
  abbrev pub charged : ℕ → ReservationData → ℕ
  charged budget d = elim d.month [ none ↦ 0 | some n ↦ if n == m then budget else 0 ]

  value-refund :
      (key current id n : String) (tpm budget : ℕ) (d : ReservationData) (q : TenantQuota)
      → key ≡ current
      → Distinct q.resv_data
      → lookup id q.resv_data ≡ some d
      → d.month ≡ some n
      → has_key n q.budgets ≡ true
      → value m init (forget id (refund key current tpm budget d q)) +ℤ pos (charged budget d)
        ≡ value m init q
  unfolding forget refund
  value-refund key current id n tpm budget d q k u found dated here =
      let less = outstanding-erase m id {d = d} q.resv_data u found in
      rw
        (
          dated,
          refund_month_same key current n k,
          lookup-insert n m _ q.budgets,
          get_or_present n (pos 0) (pos init) q.budgets here,
        )
        (elim (Bool-cases (n == m)) [
          | inl same ↦ rw same (
              refund_shift (get_or (lookup n q.budgets) (pos init)) d.budget_est_micro budget
                (outstanding m q.resv_data) (outstanding m (erase id q.resv_data))
                (omega (arith, less, rw same at (held_dated m n d dated)))
              ∙ ap
                  (λ (k : String).
                    get_or (lookup k q.budgets) (pos init) +ℤ pos (outstanding m q.resv_data))
                  ((string_eq.same_iff n m).0 same))
          | inr other ↦ rw other (
              no_shift (balance m init q) (outstanding m q.resv_data)
                (outstanding m (erase id q.resv_data))
                (omega (arith, less, rw other at (held_dated m n d dated))))
        ])

  -- the spending that a settlement reports for the month
  abbrev pub settled : SettleArgs → TenantQuota → ℕ
  settled a q = elim (lookup a.request_id q.resv_data) [
    | none ↦ 0
    | some d ↦ charged a.actual_budget_micro d
  ]

  settled_absent :
      (a : SettleArgs) (q : TenantQuota) → lookup a.request_id q.resv_data ≡ none → settled a q ≡ 0
  settled_absent a q h = rw (settled, h) refl

  settled_found :
      (a : SettleArgs) (q : TenantQuota) {d : ReservationData}
      → lookup a.request_id q.resv_data ≡ some d
      → settled a q ≡ charged a.actual_budget_micro d
  settled_found a q h = rw (settled, h) refl

  charged_zero : (d : ReservationData) → charged 0 d ≡ 0
  charged_zero d = ground arith

  value-settle :
      (a : SettleArgs) (q : TenantQuota)
      → a.key_month ≡ a.current_month
      → IsSound q
      → value m init (settle a q).1 +ℤ pos (settled a q) ≡ value m init q
  unfolding settle
  value-settle a q k s = elim (Option-cases (lookup a.request_id q.resv_data)) [
    | inl absent ↦ rw (settle, absent, settled_absent a q absent) (plus_zero (value m init q))
    | inr (d, found) ↦
        let (n, dated, here) = s.funded a.request_id d found in
        rw (settle, found, settled_found a q found)
          (value-refund a.key_month a.current_month a.request_id n a.actual_tpm
            a.actual_budget_micro d q k s.distinct found dated here)
  ]

  value-sweep_one :
      (key id : String) (q : TenantQuota)
      → IsSound q
      → value m init (sweep_one key key id q).1 ≡ value m init q
  unfolding sweep_one
  value-sweep_one key id q s = elim (Option-cases (lookup id q.resv_data)) [
    | inl absent ↦ rw (sweep_one, absent) (unfold forget in rw (erase_absent id q.resv_data absent))
    | inr (d, found) ↦
        let (n, dated, here) = s.funded id d found in
        let after : TenantQuota = forget id (refund key key 0 0 d q) in
        rw (sweep_one, found)
          (sym (plus_zero (value m init after))
            ∙ ap (λ (k : ℕ). value m init after +ℤ pos k) (sym (charged_zero d))
            ∙ value-refund key key id n 0 0 d q refl s.distinct found dated here)
  ]

  value-sweep :
      (key : String) (due : List String) (q : TenantQuota)
      → IsSound q
      → value m init (sweep key key due q).1 ≡ value m init q
  unfolding sweep
  value-sweep key [] q s = refl
  value-sweep key (id ∷ rest) q s =
      value-sweep key rest (sweep_one key key id q).1 (sweep_one-IsSound key key id q s)
      ∙ value-sweep_one key id q s

  value-check_and_reserve :
      (a : ReserveArgs) (q : TenantQuota)
      → (a.month ≡ m → a.budget_init_micro ≡ init)
      → lookup a.request_id q.resv_data ≡ none
      → value m init (check_and_reserve a q).1 ≡ value m init q
  unfolding refilled
  value-check_and_reserve a q h fresh = elim (check_and_reserve_cases a q) [
    | inl (passes, e) ↦ rw e (
        value-reserved a (rpm_now a q) (tpm_now a q) (refilled a q) (has_key-refilled a q) fresh
        ∙ value-refilled a q h)
    | inr (refused, e) ↦ rw e (value-refilled a q h)
  ]

  -- The states that a tenant's keys can reach, with what its settlements have spent from the month.
  pub data Reach : TenantQuota → ℕ → Type 0 where
    start : Reach empty_quota 0
    reserves :
        {q : TenantQuota} {spent : ℕ}
        → Reach q spent
        → (a : ReserveArgs) → lookup a.request_id q.resv_data ≡ none
        → (a.month ≡ m → a.budget_init_micro ≡ init)
        → Reach (check_and_reserve a q).1 spent
    settles :
        {q : TenantQuota} {spent : ℕ}
        → Reach q spent
        → (a : SettleArgs) → a.key_month ≡ a.current_month
        → Reach (settle a q).1 (spent + settled a q)
    sweeps :
        {q : TenantQuota} {spent : ℕ}
        → Reach q spent
        → (month : String) (due : List String) → Reach (sweep month month due q).1 spent

  pub Reach-IsSound : {q : TenantQuota} {spent : ℕ} → Reach q spent → IsSound q
  Reach-IsSound start = empty_quota-IsSound
  Reach-IsSound (reserves {q} r a fresh h) = check_and_reserve-IsSound a q (Reach-IsSound r) fresh
  Reach-IsSound (settles {q} r a k) = settle-IsSound a q (Reach-IsSound r)
  Reach-IsSound (sweeps {q} r month due) = sweep-IsSound month month due q (Reach-IsSound r)

  -- Along any sequence of admissions, settlements and sweeps, what the month's budget key holds, what
  -- is reserved from the month and what has been settled against it add up to the initial budget.
  pub conservation :
      {q : TenantQuota} {spent : ℕ}
      → Reach q spent
      → balance m init q +ℤ pos (outstanding m q.resv_data) +ℤ pos spent ≡ pos init
  unfolding lookup
  conservation start = omega int_laws
  conservation (reserves {q} {spent} r a fresh h) =
      ap (λ (v : ℤ). v +ℤ pos spent) (value-check_and_reserve a q h fresh) ∙ conservation r
  conservation (settles {q} {spent} r a k) =
      regroup (value m init (settle a q).1) spent (settled a q)
      ∙ ap (λ (v : ℤ). v +ℤ pos spent) (value-settle a q k (Reach-IsSound r))
      ∙ conservation r
  conservation (sweeps {q} {spent} r month due) =
      ap (λ (v : ℤ). v +ℤ pos spent) (value-sweep month due q (Reach-IsSound r)) ∙ conservation r
