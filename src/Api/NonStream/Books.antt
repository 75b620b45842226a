-- ===== src/Api/NonStream/Books.antt =====
-- An attempt that returns a response books the request once, and leaves the flights alone if it has none.
use tide_gate.Quota.Service.{ReserveOutcome, holds, plan_missing}
use tide_gate.Prelude.{Option-cases, inl, inr, ℕ, ◌≡◌, ◌∙◌, ap, refl, String, Bool, Option, none}
use tide_gate.Settlement.Batcher.{LedgerBatcher, enqueue}
use tide_gate.Api.Ledger.Record.{route_header}
use tide_gate.Api.Gateway.{
  Context, Exit, Try, enqueue_ledger, ChatResult, enqueue_attempt_record, settle_held, App,
  resolve_led, returns, reserve_quota, raises, after_result, settlement_of, gateway, other,
}
use tide_gate.Api.Ledger.Record.{LedgerRecord, ledger_record}
use tide_gate.Cache.SingleFlight.{Flight, SingleFlight}
use tide_gate.Api.Attempts.{PickResult}
use tide_gate.Api.NonStream.{
  on_response, Local, note_failure, store_result, outcome_of, store_raises,
}
use tide_gate.Core.{UnifiedResponse}
use tide_gate.Api.Ledger.{QuotaSettlement}
use tide_gate.Api.Gateway.Frame.{resolve_led-frame}
use tide_gate.Api.NonStream.Rules.{Held, Rules}
use tide_gate.Api.NonStream.Frame.{store_result-ledger, store_result-frame}

-- the record bills the request for the response
abbrev pub Bills : String → ChatResult → LedgerRecord → Type 0
Bills request_id r entry =
    (entry.request_id ≡ request_id)
    × (entry.usage ≡ r.response.usage)
    × (entry.route_path ≡ r.route_header)
    × (entry.cache_status ≡ r.cache_header)
    × (entry.degraded ≡ r.degraded)

-- The ledger before, and one record of the request if there is a response, be it that its storing has
-- raised.
abbrev pub Booked : String → LedgerBatcher LedgerRecord → Exit ChatResult → App → Type 0
Booked request_id before (returns r) a =
    (entry : LedgerRecord) × Bills request_id r entry × (a.ledger ≡ enqueue entry before)
Booked request_id before (raises (after_result e)) a =
    (entry : LedgerRecord) × (entry.request_id ≡ request_id) × (a.ledger ≡ enqueue entry before)
Booked request_id before (raises (gateway e)) a = a.ledger ≡ before
Booked request_id before (raises (other e)) a = a.ledger ≡ before

module _ (c : Context) (cache_header : String) (flight : Option Flight) (store_cache : Bool) where
  entry_of : Try → PickResult → UnifiedResponse → LedgerRecord
  entry_of t picked response =
      ledger_record c.unified response.usage (route_header picked.deployment) cache_header
        picked.level.degraded (outcome_of picked.level.degraded) c.settings

  response-Booked :
      (before : LedgerBatcher LedgerRecord) (t : Try) (picked : PickResult) (seq : ℕ)
      (response : UnifiedResponse) (p : QuotaSettlement) (a : App)
      → a.ledger ≡ before
      → let (e, a') = on_response c cache_header flight store_cache t picked seq response p a in
        Booked c.unified.request_id before e a'
  unfolding on_response enqueue_ledger enqueue_attempt_record settle_held entry_of ledger_record
  response-Booked before t picked seq response p a h =
      let stored = store_result-ledger c cache_header flight store_cache picked response _ in
      let billed = ap (enqueue (entry_of t picked response)) h in
      elim (Option-cases (store_raises c cache_header flight store_cache t)) [
        | inr (exc, raised_) ↦
            rw (on_response, raised_) (entry_of t picked response, refl, stored ∙ billed)
        | inl fine ↦
            rw (on_response, fine)
              (
                entry_of t picked response,
                (refl, refl, refl, refl, refl),
                ap (λ (x : App). x.ledger) (resolve_led-frame flight response _) ∙ stored ∙ billed,
              )
      ]

  settlement-Booked :
      (before : LedgerBatcher LedgerRecord) (l : Local) (o : ReserveOutcome) (a : App)
      → a.ledger ≡ before
      → Held (λ l a. a.ledger ≡ before) (Booked c.unified.request_id before) l (settlement_of o, a)
  settlement-Booked before l (holds r) a h = h
  settlement-Booked before l (ReserveOutcome.raises e) a h = h
  settlement-Booked before l plan_missing a h = h

  pub rules-Booked :
      (before : LedgerBatcher LedgerRecord)
      → Rules c cache_header flight store_cache
          (λ l a. a.ledger ≡ before)
          (λ k l p a. a.ledger ≡ before)
          (Booked c.unified.request_id before)
          (λ t. Unit)
  unfolding note_failure settle_held enqueue_attempt_record reserve_quota
  rules-Booked before = record {
    picks = λ l a now st h same. h;
    notes = λ l a e h. h;
    chooses = λ l a x i h. h;
    reserves = λ t l a d g e h. settlement-Booked before l _ _ h;
    refuses = λ d now l p a e h refused. h;
    starts = λ d now l p a h ok_. h;
    replies = λ t picked seq response l p a g h. response-Booked before t picked seq response p a h;
    fails = λ t picked seq exc l p a g h. (h, h);
    crashes = λ t k exc l p a g e h. h;
  }

module _ (c : Context) (cache_header : String) (store_cache : Bool) where
  store_result-flights :
      (picked : PickResult) (v : UnifiedResponse) (a : App)
      → (store_result c cache_header none store_cache picked v a).flights ≡ a.flights
  store_result-flights picked v a =
      ap (λ (x : App). x.flights) (store_result-frame c cache_header none store_cache picked v a)

  on_response-flights :
      (t : Try) (picked : PickResult) (seq : ℕ) (response : UnifiedResponse) (p : QuotaSettlement)
      (a : App)
      → (on_response c cache_header none store_cache t picked seq response p a).1.flights
        ≡ a.flights
  unfolding on_response enqueue_ledger enqueue_attempt_record settle_held resolve_led
  on_response-flights t picked seq response p a =
      elim (Option-cases (store_raises c cache_header none store_cache t)) [
        | inl fine ↦ rw (on_response, fine) (store_result-flights picked response _)
        | inr (exc, raised_) ↦ rw (on_response, raised_) (store_result-flights picked response _)
      ]

  Held-flights :
      (before : SingleFlight) (l : Local) (o : Exit QuotaSettlement) (a : App)
      → a.flights ≡ before
      → Held (λ l a. a.flights ≡ before) (λ e a. a.flights ≡ before) l (o, a)
  Held-flights before l (returns p) a h = h
  Held-flights before l (raises e) a h = h

  pub rules-flights :
      (before : SingleFlight)
      → Rules c cache_header none store_cache
          (λ l a. a.flights ≡ before)
          (λ k l p a. a.flights ≡ before)
          (λ e a. a.flights ≡ before)
          (λ t. Unit)
  unfolding on_response enqueue_ledger resolve_led note_failure settle_held enqueue_attempt_record
      reserve_quota
  rules-flights before = record {
    picks = λ l a now st h same. h;
    notes = λ l a e h. h;
    chooses = λ l a x i h. h;
    reserves = λ t l a d g e h. Held-flights before l _ _ h;
    refuses = λ d now l p a e h refused. h;
    starts = λ d now l p a h ok_. h;
    replies = λ t picked seq response l p a g h. on_response-flights t picked seq response p a ∙ h;
    fails = λ t picked seq exc l p a g h. (h, h);
    crashes = λ t k exc l p a g e h. h;
  }
