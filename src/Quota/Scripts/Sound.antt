-- ===== src/Quota/Scripts/Sound.antt =====
-- The well-formedness of a tenant's keys, and that the scripts keep it.
use tide_gate.Prelude.{
  ℕ, ◌≡◌, refl, sym, ap, String, string_eq, true, none, some, List, [], ◌∷◌, arith, length,
  Option-cases, inl, inr,
}
use tide_gate.Prelude.Int.{ℤ, pos}
use tide_gate.Prelude.Dict.{
  Dict, lookup, has_key, Distinct, lookup-insert, lookup-erase, lookup-insert_self, insert-Distinct,
  erase-Distinct, erase_absent, length-insert_absent, length-erase, lookup-insert_cases,
  lookup-erase_cases, has_key-insert,
}
use tide_gate.Quota.Scripts.Outcome.{check_and_reserve_cases, rpm_now, tpm_now, budget_now}
use tide_gate.Quota.Scripts.{
  ReservationData, TenantQuota, empty_quota, ReserveArgs, set_if_absent, refilled, reserved,
  check_and_reserve, SettleArgs, forget, refund, settle, sweep_one, sweep,
}

pub record IsSound (q : TenantQuota) : Type 0 where
  -- one reservation to a request
  pub distinct : Distinct q.resv_data
  -- a stream slot to a reservation
  pub counted : q.conc ≡ length q.resv_data
  -- the sweeper's index has the ids of the reservations
  pub indexed : (id : String) → has_key id q.resv_zset ≡ has_key id q.resv_data
  -- the month of a reservation has a budget
  pub funded :
      (id : String) (d : ReservationData)
      → lookup id q.resv_data ≡ some d
      → (m : String) × (d.month ≡ some m) × (has_key m q.budgets ≡ true)

pub empty_quota-IsSound : IsSound empty_quota
unfolding lookup
empty_quota-IsSound = record {
  distinct = tt;
  counted = refl;
  indexed = λ id. refl;
  funded = λ id d h. cc;
}

has_key-set_if_absent :
    (k j : String) (v : ℤ) (m : Dict String ℤ)
    → has_key j m ≡ true
    → has_key j (set_if_absent k v m) ≡ true
unfolding set_if_absent
has_key-set_if_absent k j v m h = ground (arith, has_key-insert k j v m)

refilled-IsSound : (a : ReserveArgs) (q : TenantQuota) → IsSound q → IsSound (refilled a q)
unfolding refilled
refilled-IsSound a q s = record {
  distinct = s.distinct;
  counted = s.counted;
  indexed = s.indexed;
  funded = λ id d h.
      let (m, e, k) = s.funded id d h in
      (m, e, has_key-set_if_absent a.month m (pos a.budget_init_micro) q.budgets k);
}

reserved-IsSound :
    (a : ReserveArgs) (r t b : ℤ) (q : TenantQuota)
    → IsSound q
    → lookup a.request_id q.resv_data ≡ none
    → IsSound (reserved a r t b q)
unfolding reserved
reserved-IsSound a r t b q s fresh = record {
  distinct = insert-Distinct a.request_id _ q.resv_data s.distinct;
  counted = omega (arith, length-insert_absent a.request_id _ q.resv_data fresh, s.counted);
  indexed = λ id. simp lookup-insert (ground (arith, s.indexed id));
  funded = λ id d h. elim (lookup-insert_cases a.request_id id _ d q.resv_data h) [
    | inl (same, new) ↦
        (a.month, sym (ap (λ (x : ReservationData). x.month) new), rw lookup-insert_self)
    | inr old ↦ let (m, e, k) = s.funded id d old in (m, e, has_key-insert a.month m _ q.budgets k)
  ];
}

-- Admission keeps the keys sound, for a request that has no reservation yet.
pub check_and_reserve-IsSound :
    (a : ReserveArgs) (q : TenantQuota)
    → IsSound q
    → lookup a.request_id q.resv_data ≡ none
    → IsSound (check_and_reserve a q).1
unfolding refilled
check_and_reserve-IsSound a q s fresh = elim (check_and_reserve_cases a q) [
  | inl (passes, e) ↦ rw e (
      reserved-IsSound a (rpm_now a q) (tpm_now a q) (budget_now a q) (refilled a q)
        (refilled-IsSound a q s) fresh)
  | inr (refused, e) ↦ rw e (refilled-IsSound a q s)
]

-- A reservation that is there is refunded and forgotten.
pub refund-IsSound :
    (key current id : String) (tpm budget : ℕ) (d : ReservationData) (q : TenantQuota)
    → IsSound q
    → lookup id q.resv_data ≡ some d
    → IsSound (forget id (refund key current tpm budget d q))
unfolding forget refund
refund-IsSound key current id tpm budget d q s found = record {
  distinct = erase-Distinct id q.resv_data s.distinct;
  counted = omega (arith, length-erase id q.resv_data s.distinct found, s.counted);
  indexed = λ j. simp lookup-erase (ground (arith, s.indexed j));
  funded = λ j e h.
      let (ne, old) = lookup-erase_cases id j e q.resv_data h in
      let (m, same, k) = s.funded j e old in (m, same, has_key-insert _ m _ q.budgets k);
}

-- An id of the index with no reservation does not occur in a sound state; forgetting one is harmless.
forget-IsSound :
    (id : String) (q : TenantQuota)
    → IsSound q
    → lookup id q.resv_data ≡ none
    → IsSound (forget id q)
unfolding forget
forget-IsSound id q s absent = record {
  distinct = erase-Distinct id q.resv_data s.distinct;
  counted = rw (erase_absent id q.resv_data absent) s.counted;
  indexed = λ j. simp lookup-erase (ground (arith, s.indexed j));
  funded = λ j e h. s.funded j e (lookup-erase_cases id j e q.resv_data h).1;
}

pub settle-IsSound : (a : SettleArgs) (q : TenantQuota) → IsSound q → IsSound (settle a q).1
unfolding settle
settle-IsSound a q s = elim (Option-cases (lookup a.request_id q.resv_data)) [
  | inl absent ↦ rw (settle, absent) s
  | inr (d, found) ↦
      rw (settle, found)
        (refund-IsSound a.key_month a.current_month a.request_id a.actual_tpm a.actual_budget_micro
          d q s found)
]

pub sweep_one-IsSound :
    (key current id : String) (q : TenantQuota) → IsSound q → IsSound (sweep_one key current id q).1
unfolding sweep_one
sweep_one-IsSound key current id q s = elim (Option-cases (lookup id q.resv_data)) [
  | inl absent ↦ rw (sweep_one, absent) (forget-IsSound id q s absent)
  | inr (d, found) ↦ rw (sweep_one, found) (refund-IsSound key current id 0 0 d q s found)
]

pub sweep-IsSound :
    (key current : String) (due : List String) (q : TenantQuota)
    → IsSound q
    → IsSound (sweep key current due q).1
unfolding sweep
sweep-IsSound key current [] q s = s
sweep-IsSound key current (id ∷ rest) q s =
    sweep-IsSound key current rest (sweep_one key current id q).1
      (sweep_one-IsSound key current id q s)
