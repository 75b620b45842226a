-- ===== src/Api/Streaming/Settles.antt =====
-- A stream settles what its request has reserved, however it ends.
use tide_gate.Prelude.{
  false, count_eq, ◌==◌, ℕ, zero, suc, ◌≡◌, ◌∙◌, sym, ap, refl, String, Bool, Option, none, some,
  List, string_eq, inl, inr, Bool-cases, ◌==◌, true,
}
use tide_gate.Prelude.Dict.{lookup}
use tide_gate.Api.Streaming.{
  whole, StreamRun, stream_loop, after_stream, end_stream, flush_late, finalize,
  stream_with_retries, StreamEnd, first_stream_local, Final, rejection, cut_settling, cut_flushing,
}
use tide_gate.Cache.Service.{CacheHit}
use tide_gate.Api.Gateway.{Context, remember, flush_ledger, App}
use tide_gate.Api.Stream.Owes.{
  StreamArrives, and_stream-AllSteps, stream_attempts-Kept, start_stream-Kept,
}
use tide_gate.Cache.SingleFlight.{Flight}
use tide_gate.Api.NonStream.Owes.{Arrives, NothingHeld, Owes}
use tide_gate.Routing.Ladder.{RouteLevel}
use tide_gate.Api.Hedged.{
  StreamStep, StreamTry, StreamLocal, continues, settle_kept, breaks, returned, refund_kept, raised,
}
use tide_gate.Api.Stream.Keeps.{AllSteps, KeptAt, Kept, refund_kept-Ends, settle_kept-Ends}
use tide_gate.Core.{Usage}
use tide_gate.Api.Attempts.{PickResult}
use tide_gate.Api.Ledger.{QuotaSettlement}
use tide_gate.Api.Upstream.{stale_cache}
use tide_gate.Routing.Stats.{Key}
use mathlib.Core.Path.{subst}
use tide_gate.Api.Gateway.Frame.{reject_led-frame, release_led-frame}
use tide_gate.Quota.Scripts.{TenantQuota}
use tide_gate.Api.Stream.{start_stream}

-- the settlement in the `finally` is carried out, be it that it is then broken off
abbrev pub Settles : Final → Type 0
Settles whole = Unit
Settles (cut_settling ran) = ran ≡ true
Settles (cut_flushing ran) = Unit

-- the settle script's calls arrive
abbrev pub RunArrives : StreamRun → Type 0
RunArrives run = ((j : ℕ) → StreamArrives (run.tries j)) × Arrives run.settling × Settles run.final

module _ (c : Context) (include_usage : Bool) (flight : Option Flight) (request_id : String) where
  stream_loop-Kept :
      (levels : List RouteLevel) (tries : ℕ → StreamTry) (n : ℕ) (picked : PickResult)
      (p : QuotaSettlement) (l : StreamLocal) (a : App)
      → ((j : ℕ) → StreamArrives (tries j))
      → l.held ≡ some p
      → Kept request_id (some p) a.keys
      → AllSteps
          (KeptAt request_id)
          (stream_loop c include_usage flight levels tries n picked p l a)
  unfolding stream_loop
  stream_loop-Kept levels tries zero picked p l a up e h =
      subst (λ (held : Option QuotaSettlement). Kept request_id held a.keys) (sym e) h
  stream_loop-Kept levels tries (suc left) picked p l a up e h =
      and_stream-AllSteps c include_usage flight request_id (KeptAt request_id) _
        (start_stream c include_usage flight levels (tries 0) picked 1 (left == 0) l p a)
        (λ l' a' h'.
          stream_attempts-Kept c include_usage flight request_id levels tries left 1 l' a' up h')
        (start_stream-Kept c include_usage flight request_id levels (tries 0) picked 1 (left == 0) l
          p a (up 0) h)

  after_stream-Kept :
      (run : StreamRun) (found : Option CacheHit) (l : StreamLocal) (a : App)
      → Arrives run.settling
      → KeptAt request_id l a
      → let e = after_stream c include_usage flight run found l a in KeptAt request_id e.local e.app
  unfolding after_stream remember
  after_stream-Kept run none l a up h =
      subst (Kept request_id l.held) (sym (ap (λ (x : App). x.keys) (reject_led-frame flight _ a)))
        h
  after_stream-Kept run (some hit) l a up h =
      let o = refund_kept run.settling l a in
      subst (Kept request_id o.0.held)
        (sym (
          ap (λ (x : App). x.keys)
            (reject_led-frame flight "leader served stale cache"
              (remember c hit.semcache_entry_id o.1))))
        ((refund_kept-Ends request_id run.settling up l a h).0)

  end_stream-Kept :
      (run : StreamRun) (s : StreamStep)
      → Arrives run.settling
      → AllSteps (KeptAt request_id) s
      → let e = end_stream c include_usage flight run s in KeptAt request_id e.local e.app
  unfolding end_stream
  end_stream-Kept run (continues l a) up h =
      after_stream-Kept run (stale_cache c run.stale) l a up h
  end_stream-Kept run (breaks l a) up h = after_stream-Kept run (stale_cache c run.stale) l a up h
  end_stream-Kept run (returned l a) up h = h
  end_stream-Kept run (raised e l a) up h =
      subst (Kept request_id l.held)
        (sym (ap (λ (x : App). x.keys) (reject_led-frame flight (rejection e) a))) h

  flush_late-keys :
      (usage : Option Usage) (l : StreamLocal) (a : App)
      → l.accounting.usage ≡ usage
      → (flush_late c include_usage flight l a).keys ≡ a.keys
  unfolding flush_late flush_ledger
  flush_late-keys none l a e = rw (flush_late, e) refl
  flush_late-keys (some usage) l a e = elim (Bool-cases l.ledger_written) [
    | inl written ↦ rw (flush_late, e, written) refl
    | inr missing ↦ rw (flush_late, e, missing) refl
  ]

  finalize-NothingHeld :
      (run : StreamRun) (e : StreamEnd) (final : Final)
      → run.final ≡ final
      → Arrives run.settling
      → Settles final
      → KeptAt request_id e.local e.app
      → NothingHeld request_id (finalize c include_usage flight run e).app
  unfolding finalize
  finalize-NothingHeld run e whole is up last h =
      let u = e.local.accounting.usage in
      let n = e.local.accounting.delta_count in
      let o = settle_kept run.settling u n e.local e.app in
      rw (is) (
        subst (λ (q : TenantQuota). lookup request_id q.resv_data ≡ none)
          (sym (
            ap (λ (x : App). x.keys) (release_led-frame flight _)
            ∙ flush_late-keys o.0.accounting.usage o.0 o.1 refl))
          ((settle_kept-Ends request_id run.settling up u n e.local e.app h).1))
  finalize-NothingHeld run e (cut_settling ran) is up last h =
      let u = e.local.accounting.usage in
      let n = e.local.accounting.delta_count in
      rw (is, last) ((settle_kept-Ends request_id run.settling up u n e.local e.app h).1)
  finalize-NothingHeld run e (cut_flushing true) is up last h =
      let u = e.local.accounting.usage in
      let n = e.local.accounting.delta_count in
      let o = settle_kept run.settling u n e.local e.app in
      rw (is) (
        subst (λ (q : TenantQuota). lookup request_id q.resv_data ≡ none)
          (sym (flush_late-keys o.0.accounting.usage o.0 o.1 refl))
          ((settle_kept-Ends request_id run.settling up u n e.local e.app h).1))
  finalize-NothingHeld run e (cut_flushing false) is up last h =
      let u = e.local.accounting.usage in
      let n = e.local.accounting.delta_count in
      rw (is) ((settle_kept-Ends request_id run.settling up u n e.local e.app h).1)

  -- However a stream ends that begins with an open settlement of its request's reservation in
  -- Redis, be it that the client goes away, the provider crashes or every attempt fails, if the
  -- calls of the settle script arrive, then the request has no reservation left in Redis. A
  -- cancellation that strikes the `finally` while it settles is taken to come after the call.
  pub stream_with_retries-NothingHeld :
      (levels : List RouteLevel) (picked : PickResult) (p : QuotaSettlement) (exclude : List Key)
      (run : StreamRun) (a : App)
      → RunArrives run
      → Owes request_id (some p) a
      → NothingHeld request_id
          (stream_with_retries c include_usage flight levels picked p exclude run a).app
  unfolding stream_with_retries
  stream_with_retries-NothingHeld levels picked p exclude run a (up, settled, last)
        (open_, mine, there) =
      let l = first_stream_local c include_usage flight exclude picked.level_index p in
      let n = c.settings.routing.max_attempts_before_first_byte in
      let s = stream_loop c include_usage flight levels run.tries n picked p l a in
      finalize-NothingHeld run (end_stream c include_usage flight run s) run.final refl settled last
        (end_stream-Kept run s settled (
          stream_loop-Kept levels run.tries n picked p l a up refl
            (mine, there, λ done. absurd (cc))))
