-- ===== src/Api/Streaming.antt =====
-- api/routes.py: the whole of a stream (`_stream_with_retries`), with its stale answer, its error and what
-- is done in the end however it came to it; and the branch of `chat_completions` for streams.
pub mod Closes
pub mod Settles
mod Tests
use tide_gate.Prelude.{
  string_eq, ℕ, zero, suc, ◌+◌, String, Bool, true, false, Option, none, some, List, [], ◌∷◌, ◌++◌,
  ◌==◌, count_eq, not, if◌then◌else◌,
}
use tide_gate.Api.Hedged.{
  StreamTry, StreamLocal, refund_kept, StreamStep, settle_kept, continues, breaks, returned, raised,
}
use tide_gate.Cache.Service.{CacheHit}
use tide_gate.Api.Gateway.{
  Raised, Context, App, Settling, flush_ledger, release_led, remember, refund_held, Exit,
  resolve_led, raises, reserve_quota, reject_led, returns, gateway, exception_text, other,
  after_result,
}
use tide_gate.Api.Sse.{Event, stream_cached_response, no_accounting, error_events}
use tide_gate.Quota.Service.{Moment, Link}
use tide_gate.Cache.SingleFlight.{Flight, acquire}
use tide_gate.Core.{UnifiedResponse, ok, err}
use tide_gate.Routing.Ladder.{RouteLevel}
use tide_gate.Routing.Stats.{Key, deployment_key}
use tide_gate.Api.Stream.{stream_attempts, stream_degraded, start_stream, and_stream}
use tide_gate.Api.Attempts.{PickResult, pick_next_attempt}
use tide_gate.Quota.Estimator.{Estimate}
use tide_gate.Api.Ledger.{QuotaSettlement}
use tide_gate.Api.Upstream.{cache_route, stale_cache, error_or_none_available}
use tide_gate.Prelude.Text.{codes}
use tide_gate.Api.Handler.{cache_bypassed}

-- How the `finally` of a stream is run: to its end, or broken off by a cancellation while the quota is
-- settled or the ledger is flushed, which may have been carried out by then.
pub data Final : Type 0 where
  whole : Final
  cut_settling : Bool → Final
  cut_flushing : Bool → Final

-- What the outside does in one stream.
pub record StreamRun : Type 0 where
  pub tries : ℕ → StreamTry
  pub stale : Option CacheHit
  pub settling : Settling
  pub final : Final

-- `except asyncio.CancelledError`
abbrev pub is_cancelled : Raised → Bool
is_cancelled (gateway e) = false
is_cancelled (after_result e) = false
is_cancelled (other e) = e == "CancelledError"

abbrev pub rejection : Raised → String
rejection e = if is_cancelled e then "client disconnected" else exception_text e

-- What is left of a stream: the exception that it raises, if any, and its variables, with its events.
pub record StreamEnd : Type 0 where
  pub raises_with : Option Raised
  pub local : StreamLocal
  pub app : App

module _ (c : Context) (include_usage : Bool) (flight : Option Flight) where
  -- what follows the loop: a stale answer, or the last error, in the stream
  unfoldable pub after_stream : StreamRun → Option CacheHit → StreamLocal → App → StreamEnd
  unfolding refund_kept cache_route
  after_stream run none l a = record {
    raises_with = none;
    local = record l { events = l.events ++ error_events };
    app = reject_led flight ((error_or_none_available l.last_error).message) a;
  }
  after_stream run (some hit) l a =
      let (l', a') = refund_kept run.settling l a in
      record {
        raises_with = none;
        local = record l' {
          outcome = "degraded";
          route = cache_route;
          events =
              l'.events
              ++ stream_cached_response include_usage c.settings.cache.replay_chunk_chars
                  hit.response;
        };
        app = reject_led flight "leader served stale cache" (remember c hit.semcache_entry_id a');
      }

  -- the body of the `try`, with its `except`s
  unfoldable pub end_stream : StreamRun → StreamStep → StreamEnd
  unfolding after_stream
  end_stream run (continues l a) = after_stream run (stale_cache c run.stale) l a
  end_stream run (breaks l a) = after_stream run (stale_cache c run.stale) l a
  end_stream run (returned l a) = record { raises_with = none; local = l; app = a }
  end_stream run (raised e l a) = record {
    raises_with = some e;
    local = record l { outcome = if is_cancelled e then "client_disconnect" else l.outcome };
    app = reject_led flight (rejection e) a;
  }

  -- `if accounting.usage is not None and not ledger_written`
  unfoldable pub flush_late : StreamLocal → App → App
  flush_late l a = elim l.accounting.usage [
    | none ↦ a
    | some usage ↦
        if l.ledger_written
        then a
        else flush_ledger c usage l.route "miss" (stream_degraded l.outcome) l.outcome a
  ]

  -- the `finally`
  unfoldable pub finalize : StreamRun → StreamEnd → StreamEnd
  unfolding settle_kept flush_late
  finalize run e =
      let (l, a) =
        settle_kept run.settling e.local.accounting.usage e.local.accounting.delta_count e.local
          e.app in
      elim run.final [
        | whole ↦ record {
          raises_with = e.raises_with;
          local = l;
          app = release_led flight (flush_late l a);
        }
        | cut_settling ran ↦ record {
          raises_with = some (other "CancelledError");
          local = if ran then l else e.local;
          app = if ran then a else e.app;
        }
        | cut_flushing ran ↦ record {
          raises_with = some (other "CancelledError");
          local = l;
          app = if ran then flush_late l a else a;
        }
      ]

  abbrev pub first_stream_local : List Key → ℕ → QuotaSettlement → StreamLocal
  first_stream_local exclude level_index p = record {
    held = some p;
    attempted = exclude;
    last_error = none;
    level_index = level_index;
    accounting = no_accounting;
    outcome = "error";
    route = codes "none";
    ledger_written = false;
    events = [];
  }

  -- the loop, whose first attempt has been picked before
  unfoldable pub stream_loop :
      List RouteLevel
      → (ℕ → StreamTry)
      → ℕ
      → PickResult
      → QuotaSettlement
      → StreamLocal
      → App
      → StreamStep
  unfolding stream_attempts start_stream
  stream_loop levels tries zero picked p l a = breaks l a
  stream_loop levels tries (suc left) picked p l a =
      and_stream c include_usage flight
        (λ l' a'. stream_attempts c include_usage flight levels tries left 1 l' a')
        (start_stream c include_usage flight levels (tries 0) picked 1 (left == 0) l p a)

  -- `_stream_with_retries`, with the attempt and the settlement that it is called with
  unfoldable pub stream_with_retries :
      List RouteLevel → PickResult → QuotaSettlement → List Key → StreamRun → App → StreamEnd
  unfolding stream_loop end_stream finalize
  stream_with_retries levels picked p exclude run a = finalize run (
      end_stream run (
        stream_loop levels run.tries c.settings.routing.max_attempts_before_first_byte picked p
          (first_stream_local exclude picked.level_index p) a))

-- What the client gets: a stream of events, which may break off, or an error before it begins.
pub data StreamReply : Type 0 where
  streams : List Event → Option Raised → StreamReply
  refuses_with : Raised → StreamReply

abbrev pub streamed : StreamEnd → StreamReply × App
streamed e = (streams e.local.events e.raises_with, e.app)

-- What the outside does with a request for a stream.
pub record StreamOutside : Type 0 where
  pub picked_at : ℕ
  pub moment : Moment
  pub reserving : Link
  pub estimated : Estimate
  pub found : Option CacheHit
  pub found_again : Option CacheHit
  pub shared : Option UnifiedResponse
  pub settling : Settling
  pub run : StreamRun

module _ (c : Context) (include_usage : Bool) (o : StreamOutside) where
  unfoldable pub replay_events : UnifiedResponse → List Event
  replay_events response =
      stream_cached_response include_usage c.settings.cache.replay_chunk_chars response

  -- the answer from the cache
  unfoldable pub stream_hit : CacheHit → QuotaSettlement → App → StreamReply × App
  unfolding replay_events
  stream_hit hit p a = (
    streams (replay_events hit.response) none,
    remember c hit.semcache_entry_id (refund_held o.settling p a),
  )

  unfoldable pub stream_upstream :
      Option Flight → List RouteLevel → PickResult → QuotaSettlement → App → StreamReply × App
  unfolding stream_with_retries
  stream_upstream flight levels picked p a = streamed (
      stream_with_retries c include_usage flight levels picked p
        (deployment_key picked.deployment ∷ []) o.run a)

  unfoldable pub stream_lead :
      Flight → List RouteLevel → PickResult → QuotaSettlement → App → StreamReply × App
  unfolding stream_hit stream_upstream
  stream_lead flight levels picked p a = elim o.found_again [
    | some hit ↦
        let (r, a') = stream_hit hit p a in
        (r, release_led (some flight) (resolve_led (some flight) hit.response a'))
    | none ↦ stream_upstream (some flight) levels picked p a
  ]

  unfoldable pub stream_follow :
      Flight → List RouteLevel → PickResult → QuotaSettlement → App → StreamReply × App
  unfolding replay_events stream_upstream
  stream_follow flight levels picked p a = elim o.shared [
    | some response ↦ (streams (replay_events response) none, refund_held o.settling p a)
    | none ↦ stream_upstream (some flight) levels picked p a
  ]

  unfoldable pub stream_miss :
      String → List RouteLevel → PickResult → QuotaSettlement → App → StreamReply × App
  unfolding stream_lead stream_follow
  stream_miss flight_key levels picked p a =
      let (flight, flights) = acquire flight_key a.flights in
      let a' : App = record a { flights = flights } in
      if flight.leader
      then stream_lead flight levels picked p a'
      else stream_follow flight levels picked p a'

  unfoldable pub stream_reserved :
      String → List RouteLevel → PickResult → Exit QuotaSettlement × App → StreamReply × App
  unfolding stream_upstream stream_hit stream_miss
  stream_reserved flight_key levels picked (raises e, a) = (refuses_with e, a)
  stream_reserved flight_key levels picked (returns p, a) =
      if cache_bypassed c then stream_upstream none levels picked p a else elim o.found [
        | some hit ↦ stream_hit hit p a
        | none ↦ stream_miss flight_key levels picked p a
      ]

  -- the branch of `chat_completions` for streams, for a tenant whose policy is there
  unfoldable pub chat_stream : String → List RouteLevel → App → StreamReply × App
  unfolding stream_reserved
  chat_stream flight_key levels a =
      let (picked, routing) =
        pick_next_attempt c.weights c.sample [] o.picked_at 0 levels a.routing in
      let a' : App = record a { routing = routing } in
      elim picked [
        | ok r ↦
            stream_reserved flight_key levels r
              (reserve_quota c o.moment o.reserving o.estimated r.deployment a')
        | err exc ↦ (refuses_with (gateway exc), a')
      ]
