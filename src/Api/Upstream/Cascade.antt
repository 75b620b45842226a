-- ===== src/Api/Upstream/Cascade.antt =====
-- What a cascade does to the ledger and to the flight that it leads.
use tide_gate.Prelude.{
  ◌≡◌, ◌∙◌, ◌⊎◌, ap, refl, String, true, false, none, some, List, inl, inr, count_eq, string_eq,
  Bool-cases,
}
use tide_gate.Prelude.Dict.{lookup}
use mathlib.Core.Path.{subst}
use tide_gate.Api.Gateway.{Context, App, Exit, ChatResult, Raised, raises, returns, reject_led}
use tide_gate.Config.{PolicyConfig}
use tide_gate.Routing.Ladder.{RouteLevel}
use tide_gate.Api.Ledger.{QuotaSettlement}
use tide_gate.Api.Upstream.{Run, call_draft, call_cascade, after_draft, call_upstream}
use tide_gate.Cache.SingleFlight.{Flight, SingleFlight}
use tide_gate.Routing.Cascade.{force_logprobs, cascade_decision, draft_accepted}
use tide_gate.Api.Upstream.Books.{call_upstream-flights}
use tide_gate.Api.NonStream.Closes.{IsDone, reject_led-IsDone}
use tide_gate.Api.Upstream.Ends.{call_upstream-Done, release_led-Done, Unstored, Done}

module _ (c : Context) (policy : PolicyConfig) (cache_header : String) (levels : List RouteLevel)
    (p : QuotaSettlement) (drafting run : Run) where
  abbrev pub drafted : App → Exit ChatResult × App
  unfolding call_draft
  drafted a =
      call_draft c (cascade_decision c.unified policy c.settings).draft_group cache_header p
        drafting a

  drafted-flights : (a : App) → (drafted a).1.flights ≡ a.flights
  unfolding call_draft
  drafted-flights a =
      call_upstream-flights (record c { unified = force_logprobs c.unified }) cache_header false _
        (some p) drafting a

  -- what a draft that raises leaves
  abbrev pub Stuck : Flight → App → Type 0
  Stuck f a =
      (e : Raised) × ((drafted a).0 ≡ raises e)
      × ((call_cascade c policy cache_header (some f) levels p drafting run a).0 ≡ raises e)
      × ((call_cascade c policy cache_header (some f) levels p drafting run a).1.flights
          ≡ a.flights)

  -- the flight's key is free, and its followers have an outcome
  abbrev pub Ended : Flight → App → Type 0
  Ended f a = (lookup f.key a.flights.futures ≡ none) × IsDone f a

  -- the answer that follows the draft could not be stored: the key is free, but no outcome is set
  abbrev pub Unanswered : Flight → SingleFlight → Exit ChatResult × App → Type 0
  Unanswered f before o =
      Unstored o.0
      × (lookup f.key o.1.flights.futures ≡ none)
      × (o.1.flights.outcomes ≡ before.outcomes)

  -- `Done`, told as what has ended well and what has not
  Done-Ended :
      (f : Flight) (before : SingleFlight) (o : Exit ChatResult × App)
      → Done f before o.0 o.1
      → Ended f o.1 ⊎ Unanswered f before o
  Done-Ended f before o (free, inl done) = inl (free, done)
  Done-Ended f before o (free, inr (unstored, same)) = inr (unstored, free, same)

  after_draft-Ended :
      (f : Flight) (e : Exit ChatResult) (b : App)
      → f.leader ≡ true
      → ((x : Raised) × (e ≡ raises x))
        ⊎ (Ended f (after_draft c policy.cascade cache_header (some f) levels run (e, b)).1
            ⊎ Unanswered f b.flights
                (after_draft c policy.cascade cache_header (some f) levels run (e, b)))
  unfolding after_draft
  after_draft-Ended f (raises x) b leads = inl (x, refl)
  after_draft-Ended f (returns draft) b leads =
      inr (elim (Bool-cases (draft_accepted draft.response policy.cascade)) [
        | inl good ↦
            rw (after_draft, good)
              (inl (
                release_led-Done f (reject_led (some f) "cascade draft accepted" b) leads
                  (reject_led-IsDone f "cascade draft accepted" b leads)))
        | inr poor ↦
            rw (after_draft, poor)
              (Done-Ended f b.flights (call_upstream c cache_header (some f) true levels none run b)
                (call_upstream-Done c f leads cache_header true levels none run b))
      ])

  -- When the cascade of a request that leads a flight is over, one of three things holds: the flight's
  -- key is free and its followers have an outcome; or an exception of the storing of the answer is
  -- raised, the key is free, and no outcome has been set; or the draft has raised an error, which is
  -- raised again, and the flights are as they were, so that the key stays taken by a flight without an
  -- outcome.
  pub call_cascade-Ended :
      (f : Flight) (a : App)
      → f.leader ≡ true
      → let o = call_cascade c policy cache_header (some f) levels p drafting run a in
        (Ended f o.1 ⊎ Unanswered f a.flights o) ⊎ Stuck f a
  unfolding call_cascade after_draft
  call_cascade-Ended f a leads =
      elim (Bool-cases (cascade_decision c.unified policy c.settings).enabled) [
        | inr off ↦ inl (
            rw (call_cascade, off)
              (Done-Ended f a.flights
                (call_upstream c cache_header (some f) true levels (some p) run a)
                (call_upstream-Done c f leads cache_header true levels (some p) run a)))
        | inl on ↦ elim (after_draft-Ended f (drafted a).0 (drafted a).1 leads) [
          | inr ended ↦ inl (
              subst
                (λ (before : SingleFlight).
                  Ended f (call_cascade c policy cache_header (some f) levels p drafting run a).1
                  ⊎ Unanswered f before
                      (call_cascade c policy cache_header (some f) levels p drafting run a))
                (drafted-flights a) (rw (call_cascade, on) ended))
          | inl (x, raised) ↦ inr (
            x,
            raised,
            rw (call_cascade, on)
                (ap
                  (λ (e : Exit ChatResult).
                    (after_draft c policy.cascade cache_header (some f) levels run
                      (e, (drafted a).1)).0)
                  raised),
            rw (call_cascade, on)
                (ap
                    (λ (e : Exit ChatResult).
                      (after_draft c policy.cascade cache_header (some f) levels run
                        (e, (drafted a).1)).1.flights)
                    raised
                  ∙ drafted-flights a),
          )
        ]
      ]
