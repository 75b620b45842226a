-- ===== src/Api/Streaming/Closes.antt =====
-- A stream ends the flight that it leads, however it ends.
use tide_gate.Prelude.{
  false, ℕ, zero, suc, ◌≡◌, ◌∙◌, sym, refl, Bool, true, Option, none, some, List, inl, inr,
  Bool-cases, string_eq, count_eq, ◌==◌,
}
use mathlib.Core.Path.{subst}
use tide_gate.Prelude.Dict.{lookup, has_key}
use tide_gate.Cache.Service.{CacheHit}
use tide_gate.Api.Gateway.{Context, flush_ledger, App, remember}
use tide_gate.Cache.SingleFlight.{Flight, SingleFlight}
use tide_gate.Api.Streaming.{
  whole, stream_loop, after_stream, end_stream, flush_late, finalize, stream_with_retries,
  StreamRun, StreamEnd, first_stream_local, rejection, Final, cut_settling, cut_flushing,
}
use tide_gate.Routing.Ladder.{RouteLevel}
use tide_gate.Api.Hedged.{
  StreamTry, StreamStep, StreamLocal, continues, settle_kept, refund_kept, breaks, returned, raised,
}
use tide_gate.Core.{Usage}
use tide_gate.Api.Attempts.{PickResult}
use tide_gate.Api.Ledger.{QuotaSettlement}
use tide_gate.Api.Stream.Closes.{
  ReturnedDone, and_stream-Done, stream_attempts-Done, start_stream-Done, settle_kept-flights,
}
use tide_gate.Api.NonStream.Closes.{IsDone, reject_led-IsDone}
use tide_gate.Routing.Stats.{Key}
use tide_gate.Api.Stream.{stream_attempts, start_stream}
use tide_gate.Api.Upstream.{stale_cache}
use tide_gate.Api.Upstream.Ends.{release_led-Done}

-- the followers have an outcome, and the key is free if the `finally` is run to its end
abbrev pub IsClosed : StreamRun → Flight → App → Type 0
IsClosed run f a = (run.final ≡ whole → lookup f.key a.flights.futures ≡ none) × IsDone f a

module _ (c : Context) (include_usage : Bool) (f : Flight) (leads : f.leader ≡ true) where
  stream_loop-Done :
      (levels : List RouteLevel) (tries : ℕ → StreamTry) (n : ℕ) (picked : PickResult)
      (p : QuotaSettlement) (l : StreamLocal) (a : App)
      → ReturnedDone f (stream_loop c include_usage (some f) levels tries n picked p l a)
  unfolding stream_loop
  stream_loop-Done levels tries zero picked p l a = tt
  stream_loop-Done levels tries (suc left) picked p l a =
      and_stream-Done c include_usage f leads
        (λ l' a'. stream_attempts c include_usage (some f) levels tries left 1 l' a')
        (λ l' a'. stream_attempts-Done c include_usage f leads levels tries left 1 l' a')
        (start_stream c include_usage (some f) levels (tries 0) picked 1 (left == 0) l p a)
        (start_stream-Done c include_usage f leads levels (tries 0) picked 1 (left == 0) l p a)

  after_stream-Done :
      (run : StreamRun) (found : Option CacheHit) (l : StreamLocal) (a : App)
      → IsDone f (after_stream c include_usage (some f) run found l a).app
  unfolding after_stream
  after_stream-Done run none l a = reject_led-IsDone f _ a leads
  after_stream-Done run (some hit) l a =
      let o = refund_kept run.settling l a in
      reject_led-IsDone f "leader served stale cache" (remember c hit.semcache_entry_id o.1) leads

  end_stream-Done :
      (run : StreamRun) (s : StreamStep)
      → ReturnedDone f s
      → IsDone f (end_stream c include_usage (some f) run s).app
  unfolding end_stream
  end_stream-Done run (continues l a) h = after_stream-Done run (stale_cache c run.stale) l a
  end_stream-Done run (breaks l a) h = after_stream-Done run (stale_cache c run.stale) l a
  end_stream-Done run (returned l a) h = h
  end_stream-Done run (raised e l a) h = reject_led-IsDone f (rejection e) a leads

  flush_late-flights :
      (usage : Option Usage) (l : StreamLocal) (a : App)
      → l.accounting.usage ≡ usage
      → (flush_late c include_usage (some f) l a).flights ≡ a.flights
  unfolding flush_late flush_ledger
  flush_late-flights none l a e = rw (flush_late, e) refl
  flush_late-flights (some usage) l a e = elim (Bool-cases l.ledger_written) [
    | inl written ↦ rw (flush_late, e, written) refl
    | inr missing ↦ rw (flush_late, e, missing) refl
  ]

  finalize-Done :
      (run : StreamRun) (e : StreamEnd) (final : Final)
      → run.final ≡ final
      → IsDone f e.app
      → IsClosed run f (finalize c include_usage (some f) run e).app
  unfolding finalize
  finalize-Done run e whole is h =
      let u = e.local.accounting.usage in
      let n = e.local.accounting.delta_count in
      let o = settle_kept run.settling u n e.local e.app in
      let (free, done) = release_led-Done f (flush_late c include_usage (some f) o.0 o.1) leads (
        subst (λ (s : SingleFlight). has_key f.future s.outcomes ≡ true)
          (sym (
            flush_late-flights o.0.accounting.usage o.0 o.1 refl
            ∙ settle_kept-flights run.settling u n e.local e.app))
          h) in
      rw (is) (λ uncut. free, done)
  finalize-Done run e (cut_settling true) is h =
      let u = e.local.accounting.usage in
      let n = e.local.accounting.delta_count in
      rw (is) (
        λ uncut. absurd (cc),
        subst (λ (s : SingleFlight). has_key f.future s.outcomes ≡ true)
            (sym (settle_kept-flights run.settling u n e.local e.app)) h,
      )
  finalize-Done run e (cut_settling false) is h = rw (is) (λ uncut. absurd (cc), h)
  finalize-Done run e (cut_flushing true) is h =
      let u = e.local.accounting.usage in
      let n = e.local.accounting.delta_count in
      let o = settle_kept run.settling u n e.local e.app in
      rw (is) (
        λ uncut. absurd (cc),
        subst (λ (s : SingleFlight). has_key f.future s.outcomes ≡ true)
            (sym (
              flush_late-flights o.0.accounting.usage o.0 o.1 refl
              ∙ settle_kept-flights run.settling u n e.local e.app))
            h,
      )
  finalize-Done run e (cut_flushing false) is h =
      let u = e.local.accounting.usage in
      let n = e.local.accounting.delta_count in
      rw (is) (
        λ uncut. absurd (cc),
        subst (λ (s : SingleFlight). has_key f.future s.outcomes ≡ true)
            (sym (settle_kept-flights run.settling u n e.local e.app)) h,
      )

  -- However a stream that leads a flight ends, be it that the client goes away, the provider crashes,
  -- the store fails or every attempt fails, its followers have an outcome; and the flight's key is free
  -- after it, unless a cancellation breaks the `finally` off while it settles the quota or flushes the
  -- ledger, before it comes to `cache.release`.
  pub stream_with_retries-Done :
      (levels : List RouteLevel) (picked : PickResult) (p : QuotaSettlement) (exclude : List Key)
      (run : StreamRun) (a : App)
      → IsClosed run f
          (stream_with_retries c include_usage (some f) levels picked p exclude run a).app
  unfolding stream_with_retries
  stream_with_retries-Done levels picked p exclude run a =
      let l = first_stream_local c include_usage (some f) exclude picked.level_index p in
      let n = c.settings.routing.max_attempts_before_first_byte in
      finalize-Done run
        (end_stream c include_usage (some f) run
          (stream_loop c include_usage (some f) levels run.tries n picked p l a))
        run.final refl
        (end_stream-Done run (stream_loop c include_usage (some f) levels run.tries n picked p l a)
          (stream_loop-Done levels run.tries n picked p l a))
