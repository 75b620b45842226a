-- ===== src/Quota/Scripts.antt =====
-- lua/check_and_reserve.lua, lua/settle.lua and lua/sweep.lua over the keys of one tenant
-- (quota/keys.py). Redis runs a script as one step. A token bucket counts in units of a 60000th of a
-- token, so that a rate per minute times milliseconds is whole; Lua has floats there. The expiry of a
-- budget key, forty days after its last use, is not modelled.
pub mod Outcome
pub mod Sound
pub mod Conservation
pub mod Release
pub mod Rate
pub mod Admission
pub mod Leak
mod Tests
use tide_gate.Prelude.{
  ℕ, ◌+◌, ◌-◌, ◌*◌, ◌/◌, ◌≡◌, String, string_eq, Bool, true, false, Option, none, some, List, [],
  ◌∷◌, ltb, leb, if◌then◌else◌, get_or, ceil_div, ◌==◌,
}
use tide_gate.Prelude.Int.{ℤ, pos, ◌+ℤ◌, ◌-ℤ◌, ltb_ℤ, min_ℤ, pos_part}
use tide_gate.Prelude.Dict.{Dict, lookup, insert, erase, has_key}

-- the units of one token
abbrev pub unit : ℕ
unit = 60_000

-- A hash `tokens`, `ts_ms`, `cap`; a field that is not there is `none`.
pub record BucketHash : Type 0 where
  pub tokens : Option ℤ
  pub ts_ms : Option ℕ
  pub cap : Option ℕ

-- The JSON value of a reservation.
pub record ReservationData : Type 0 where
  pub tpm_est : ℕ
  pub budget_est_micro : ℕ
  pub month : Option String

-- The keys of one tenant. A counter that is not there reads 0; `budgets` is by month.
pub record TenantQuota : Type 0 where
  pub rpm : BucketHash
  pub tpm : BucketHash
  pub conc : ℕ
  pub budgets : Dict String ℤ
  pub resv_zset : Dict String ℕ
  pub resv_data : Dict String ReservationData

abbrev pub no_bucket : BucketHash
no_bucket = record { tokens = none; ts_ms = none; cap = none }

abbrev pub empty_quota : TenantQuota
empty_quota = record {
  rpm = no_bucket;
  tpm = no_bucket;
  conc = 0;
  budgets = [];
  resv_zset = [];
  resv_data = [];
}

-- The arguments of check_and_reserve.lua; rates are per minute.
pub record ReserveArgs : Type 0 where
  pub now_ms : ℕ
  pub request_id : String
  pub resv_deadline_ms : ℕ
  pub rpm_rate : ℕ
  pub rpm_cap : ℕ
  pub tpm_rate : ℕ
  pub tpm_cap : ℕ
  pub tpm_cost : ℕ
  pub conc_cap : ℕ
  pub budget_cost_micro : ℕ
  pub budget_init_micro : ℕ
  pub month : String

pub data Dim : Type 0 where
  rpm_dim tpm_dim concurrency_dim budget_dim : Dim

pub data Reply : Type 0 where
  admitted : Reply
  rejected : Dim → ℕ → Reply

-- the tokens of a bucket that holds both fields
abbrev pub refill_tokens : ℕ → ℕ → ℕ → Option ℤ → Option ℕ → ℤ
refill_tokens now rate cap (some tokens) (some ts) =
    min_ℤ (pos (cap * unit)) (tokens +ℤ pos ((now - ts) * rate))
refill_tokens now rate cap (some tokens) none = pos (cap * unit)
refill_tokens now rate cap none _ = pos (cap * unit)

unfoldable pub refill_bucket : ℕ → ℕ → ℕ → BucketHash → ℤ
refill_bucket now rate cap b = refill_tokens now rate cap b.tokens b.ts_ms

abbrev pub bucket_of : ℤ → ℕ → ℕ → BucketHash
bucket_of tokens now cap = record {
  tokens = some tokens;
  ts_ms = some now;
  cap = some (cap * unit);
}

-- `math.ceil(shortage / rate * 1000)`, with the rate per second
unfoldable pub retry_after_ms : ℤ → ℕ → ℕ
retry_after_ms shortage rate = if leb rate 0 then 1000 else ceil_div (pos_part shortage) rate

-- SETNX
unfoldable pub set_if_absent : String → ℤ → Dict String ℤ → Dict String ℤ
set_if_absent k v d = if has_key k d then d else insert k v d

-- the state after the refills, which every reply leaves behind
unfoldable pub refilled : ReserveArgs → TenantQuota → TenantQuota
refilled a q = record q {
  rpm = bucket_of (refill_bucket a.now_ms a.rpm_rate a.rpm_cap q.rpm) a.now_ms a.rpm_cap;
  tpm = bucket_of (refill_bucket a.now_ms a.tpm_rate a.tpm_cap q.tpm) a.now_ms a.tpm_cap;
  budgets = set_if_absent a.month (pos a.budget_init_micro) q.budgets;
}

-- the writes of an admitted request, on the refilled state
unfoldable pub reserved : ReserveArgs → ℤ → ℤ → ℤ → TenantQuota → TenantQuota
reserved a rpm_tokens tpm_tokens budget q = record q {
  rpm = record q.rpm { tokens = some (rpm_tokens -ℤ pos unit) };
  tpm = record q.tpm { tokens = some (tpm_tokens -ℤ pos (a.tpm_cost * unit)) };
  conc = q.conc + 1;
  budgets = insert a.month (budget -ℤ pos a.budget_cost_micro) q.budgets;
  resv_zset = insert a.request_id a.resv_deadline_ms q.resv_zset;
  resv_data =
      insert a.request_id
        (record {
          tpm_est = a.tpm_cost;
          budget_est_micro = a.budget_cost_micro;
          month = some a.month;
        })
        q.resv_data;
}

unfoldable pub check_and_reserve : ReserveArgs → TenantQuota → Reply × TenantQuota
check_and_reserve a q =
    let rpm_tokens = refill_bucket a.now_ms a.rpm_rate a.rpm_cap q.rpm in
    let tpm_tokens = refill_bucket a.now_ms a.tpm_rate a.tpm_cap q.tpm in
    let q' = refilled a q in
    let budget = get_or (lookup a.month q'.budgets) (pos 0) in
    if ltb_ℤ rpm_tokens (pos unit)
    then (rejected rpm_dim (retry_after_ms (pos unit -ℤ rpm_tokens) a.rpm_rate), q')
    else if ltb_ℤ tpm_tokens (pos (a.tpm_cost * unit))
    then (rejected tpm_dim (retry_after_ms (pos (a.tpm_cost * unit) -ℤ tpm_tokens) a.tpm_rate), q')
    else if leb a.conc_cap q.conc
    then (rejected concurrency_dim 1000, q')
    else if ltb_ℤ budget (pos a.budget_cost_micro)
    then (rejected budget_dim 1000, q')
    else (admitted, reserved a rpm_tokens tpm_tokens budget q')

-- The arguments of settle.lua; `key_month` is the month that KEYS[3], the budget key, ends with.
pub record SettleArgs : Type 0 where
  pub key_month : String
  pub request_id : String
  pub actual_tpm : ℕ
  pub actual_budget_micro : ℕ
  pub current_month : String

-- the month of the budget key that a refund goes to
unfoldable pub refund_month : String → String → Option String → String
refund_month key_month current_month month =
    let reservation_month : String = get_or month current_month in
    if reservation_month == current_month then key_month else reservation_month

-- `tokens + back`, and no more than the cap if there is one
unfoldable pub give_back : ℤ → BucketHash → BucketHash
give_back back b =
    let next : ℤ = get_or b.tokens (pos 0) +ℤ back in
    let cap : ℕ = get_or b.cap 0 in
    record b { tokens = some (if ltb 0 cap then min_ℤ (pos cap) next else next) }

-- ZREM and HDEL
unfoldable pub forget : String → TenantQuota → TenantQuota
forget request_id q = record q {
  resv_zset = erase request_id q.resv_zset;
  resv_data = erase request_id q.resv_data;
}

-- the refunds of one reservation, of which `tpm` and `budget` have been used
unfoldable pub refund : String → String → ℕ → ℕ → ReservationData → TenantQuota → TenantQuota
unfolding refund_month give_back
refund key_month current_month tpm budget d q =
    let month : String = refund_month key_month current_month d.month in
    record q {
      tpm = give_back (pos (d.tpm_est * unit) -ℤ pos (tpm * unit)) q.tpm;
      budgets =
          insert month
            (get_or (lookup month q.budgets) (pos 0) +ℤ (pos d.budget_est_micro -ℤ pos budget))
            q.budgets;
      conc = q.conc - 1;
    }

-- the number of reservations that it settled
unfoldable pub settle : SettleArgs → TenantQuota → ℕ × TenantQuota
settle a q = elim (lookup a.request_id q.resv_data) [
  | none ↦ (0, q)
  | some d ↦ (
    1,
    forget a.request_id (refund a.key_month a.current_month a.actual_tpm a.actual_budget_micro d q),
  )
]

-- one round of the loop of sweep.lua
unfoldable pub sweep_one : String → String → String → TenantQuota → ℕ × TenantQuota
sweep_one key_month current_month request_id q = elim (lookup request_id q.resv_data) [
  | none ↦ (0, forget request_id q)
  | some d ↦ (1, forget request_id (refund key_month current_month 0 0 d q))
]

-- `request_ids` is what ZRANGEBYSCORE returned: up to `limit` ids whose deadline has passed.
unfoldable pub sweep : String → String → List String → TenantQuota → ℕ × TenantQuota
sweep key_month current_month [] q = (0, q)
sweep key_month current_month (request_id ∷ rest) q =
    let (n, q') = sweep_one key_month current_month request_id q in
    let (count, q'') = sweep key_month current_month rest q' in (n + count, q'')
