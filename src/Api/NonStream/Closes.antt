-- ===== src/Api/NonStream/Closes.antt =====
-- A response that an attempt returns has been given to the flight that the request leads.
use tide_gate.Prelude.{
  Option-cases, ap, ◌∙◌, ℕ, ◌≡◌, refl, String, Bool, true, some, count_eq, string_eq, Bool-cases,
  inl, inr,
}
use tide_gate.Prelude.Dict.{has_key, lookup-insert_self}
use tide_gate.Cache.SingleFlight.{
  Flight, set_outcome, Outcome, reject, resolve, SingleFlight, exception, result,
}
use tide_gate.Api.Gateway.{
  reject_led, resolve_led, Context, App, Exit, ChatResult, Try, returns, raises, after_result,
  settlement_of, enqueue_ledger, gateway, enqueue_attempt_record, settle_held, other, reserve_quota,
}
use tide_gate.Api.NonStream.{Local, on_response, store_result, note_failure, store_raises}
use tide_gate.Api.NonStream.Rules.{Rules, Held}
use tide_gate.Quota.Service.{ReserveOutcome, holds, plan_missing}
use tide_gate.Api.NonStream.Frame.{store_result-frame}
use tide_gate.Core.{UnifiedResponse}
use tide_gate.Api.Ledger.{QuotaSettlement}
use tide_gate.Api.Attempts.{PickResult}

-- the future of the flight is done
abbrev pub IsDone : Flight → App → Type 0
IsDone f a = has_key f.future a.flights.outcomes ≡ true

set_outcome-IsDone :
    (future : ℕ) (o : Outcome) (s : SingleFlight)
    → has_key future (set_outcome future o s).outcomes ≡ true
unfolding set_outcome
set_outcome-IsDone future o s = elim (Bool-cases (has_key future s.outcomes)) [
  | inl done ↦ rw (set_outcome, done) done
  | inr pending ↦ rw (set_outcome, pending) (rw (lookup-insert_self future o s.outcomes) refl)
]

pub reject_led-IsDone :
    (f : Flight) (exc : String) (a : App) → f.leader ≡ true → IsDone f (reject_led (some f) exc a)
unfolding reject_led reject
reject_led-IsDone f exc a leads =
    rw (reject_led, leads) (set_outcome-IsDone f.future (exception exc) a.flights)

pub resolve_led-IsDone :
    (f : Flight) (v : UnifiedResponse) (a : App)
    → f.leader ≡ true
    → IsDone f (resolve_led (some f) v a)
unfolding resolve_led resolve
resolve_led-IsDone f v a leads =
    rw (resolve_led, leads) (set_outcome-IsDone f.future (result v) a.flights)

-- Whoever returns has set the outcome; and if the storing has raised, the flights are as they were.
abbrev pub ReturnsDone : Flight → SingleFlight → Exit ChatResult → App → Type 0
ReturnsDone f before (returns r) a = IsDone f a
ReturnsDone f before (raises (after_result e)) a = a.flights ≡ before
ReturnsDone f before (raises (gateway e)) a = Unit
ReturnsDone f before (raises (other e)) a = Unit

settlement-ReturnsDone :
    (f : Flight) (before : SingleFlight) (l : Local) (o : ReserveOutcome) (a : App)
    → a.flights ≡ before
    → Held (λ l a. a.flights ≡ before) (ReturnsDone f before) l (settlement_of o, a)
settlement-ReturnsDone f before l (holds r) a h = h
settlement-ReturnsDone f before l (ReserveOutcome.raises e) a h = tt
settlement-ReturnsDone f before l plan_missing a h = tt

module _ (c : Context) (cache_header : String) (f : Flight) (leads : f.leader ≡ true)
    (store_cache : Bool) (before : SingleFlight) where
  store_result-flights :
      (picked : PickResult) (v : UnifiedResponse) (a : App)
      → (store_result c cache_header (some f) store_cache picked v a).flights ≡ a.flights
  store_result-flights picked v a =
      ap (λ (x : App). x.flights)
        (store_result-frame c cache_header (some f) store_cache picked v a)

  on_response-IsDone :
      (t : Try) (picked : PickResult) (seq : ℕ) (response : UnifiedResponse) (p : QuotaSettlement)
      (a : App)
      → a.flights ≡ before
      → let (e, a') = on_response c cache_header (some f) store_cache t picked seq response p a in
        ReturnsDone f before e a'
  unfolding on_response enqueue_ledger enqueue_attempt_record settle_held
  on_response-IsDone t picked seq response p a same =
      elim (Option-cases (store_raises c cache_header (some f) store_cache t)) [
        | inl fine ↦ rw (on_response, fine) (resolve_led-IsDone f response _ leads)
        | inr (exc, raised_) ↦
            rw (on_response, raised_) (store_result-flights picked response _ ∙ same)
      ]

  pub rules-ReturnsDone :
      Rules c cache_header
        (some f)
        store_cache
        (λ l a. a.flights ≡ before)
        (λ k l p a. a.flights ≡ before)
        (ReturnsDone f before)
        (λ t. Unit)
  unfolding note_failure settle_held enqueue_attempt_record reserve_quota
  rules-ReturnsDone = record {
    picks = λ l a now st h same. h;
    notes = λ l a e h. h;
    chooses = λ l a x i h. h;
    reserves = λ t l a d g e h. settlement-ReturnsDone f before l _ _ h;
    refuses = λ d now l p a e h refused. h;
    starts = λ d now l p a h ok_. h;
    replies = λ t picked seq response l p a g h. on_response-IsDone t picked seq response p a h;
    fails = λ t picked seq exc l p a g h. (h, tt);
    crashes = λ t k exc l p a g e h. tt;
  }
