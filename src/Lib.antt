-- ===== src/Lib.antt =====
-- TideGate is a gateway between clients and the providers of language models. A request passes the
-- authentication, reserves quota, may be answered from the cache or share the flight of an equal
-- request, and is else routed down a ladder of model groups; on each group a deployment is selected by
-- its load, its breaker and its price, and the attempt's outcome is recorded. In the end the quota is
-- settled by what was used.
--
-- The parts, the files that model them, and the code:
--   Prelude, with Tests, Lists, Equality, Int, Dict, Text: the helpers that all parts share. A dict is
--     an association list in insertion order, a text is the list of its code points where it is
--     searched or cut.
--   Core: src/tidegate/core/ (errors.py, models.py, deadline.py). A call that raises a GatewayError
--     returns `err`.
--   Config: src/tidegate/config/models.py; Config.Samples is a configuration for the examples.
--   Routing: src/tidegate/routing/. Breaker is breaker.py, one function to a method; Stats is stats.py;
--     Selector is selector.py, with `random.sample` as an argument; Ladder is ladder.py; Hedge is
--     hedge.py; Cascade is cascade.py.
--   Quota: Quota.Scripts is lua/check_and_reserve.lua, lua/settle.lua and lua/sweep.lua, over the
--     record of one tenant's keys (src/tidegate/quota/keys.py); Quota.Service is
--     src/tidegate/quota/service.py, with its settlement in Quota.Service.Settlement; Quota.Estimator
--     is estimator.py, with the tokenizer as an argument; Quota.Local is local_fallback.py.
--   Cache: src/tidegate/cache/. Gates is gates.py; SingleFlight is singleflight.py; Replay is
--     replay.py; Keys is keys.py and normalize.py, with the hash as an argument; Levels is l1.py and l2.py;
--     Ranking and Entries are the choice among semantic candidates and the memory of request entries in
--     service.py, and Service the lookup and the storing there. The handlers of Api take what a lookup
--     finds as an argument.
--   Api: src/tidegate/api/. In middleware.py, AuthCache is `_AuthCache`, and Auth is `AuthMiddleware`, which
--     keeps the tenants' fingerprints and resets the cache when the configuration has a new version.
--     Ledger is the costs, the attempt records and `_QuotaSettlement` of src/tidegate/api/routes.py, and
--     Attempts is the choice of the next attempt there and what its error does to the routing state.
--     Ledger.Record is the usage ledger. Gateway is the state that the handlers share, with the small
--     operations on it; NonStream is the loop of the attempts in `_call_non_stream_upstream`, Upstream the
--     rest of it with `_call_non_stream_with_cascade`, and Handler `_call_non_stream_with_retries`. Sse is
--     sse.py with the rendering of a delta; Hedged is `_render_stream_with_hedge` and the race in it,
--     Stream the loop of the attempts in `_stream_with_retries`, and Streaming the rest of it with the
--     branch of `chat_completions` for streams. Samples is an app and a request for the examples.
--   Settlement: src/tidegate/settlement/. Batcher is batcher.py and attempt_batcher.py, which differ in
--     their records only.
--
-- Under each part the child modules hold the proofs, named for what they prove, and Tests holds runs
-- and one example of each theorem.
--
-- Numbers: the source has floats for times, prices, scores, rates and averages. Here times are whole
-- microseconds (milliseconds in the scripts), prices are millionths of a dollar for a thousand tokens, scores, averages and ratios are millionths, token
-- buckets count in a unit in which a refill is whole, and `ceil` and a division of floats round where
-- the definition says so. Rounding errors of floats are not modelled, but a request's temperature and
-- `top_p` are exact doubles, in units of 2^-1074. Clocks are arguments.
-- Fuel: only Cache.Replay.chunks runs on fuel, the length of the content, which its theorem shows to
-- be enough; every other loop is structural. The loops of the attempts recurse on the number of the
-- attempts that are left, as `range` does.
-- Calls of Redis in Quota.Service may be delivered, fail before or fail after the script ran, which is
-- an argument; a script itself is one step.
-- What the outside does to a request (the clock, the provider's answers, the cache's answers, the calls of
-- Redis) is a function of the attempt's number; the steps of a request between its awaits are run in
-- order, and other requests come in through the state that it starts from. The provider's call and the
-- storing of a reply may raise anything, a cancellation included, and the `finally` of a stream may be
-- broken off by one; cancellations at other awaits are left out.
--
-- Not modelled: logging, metrics and tracing (src/tidegate/obs/); the provider clients and their
-- HTTP (src/tidegate/providers/); the embedding processes, the Redis index and its answers on the
-- wire, and the compression of cached values; the parsing of a request and the JSON and headers of
-- an answer, the tasks and timers of the event stream, the error responses and the admin handlers
-- of src/tidegate/api/; loading, storing and watching the configuration; the aggregation of
-- statistics between instances (routing/reporter.py); write errors of the ledger that are
-- not caught there; the start of the process (app.py).
pub mod Prelude
pub mod Core
pub mod Config
pub mod Routing
pub mod Api
pub mod Cache
pub mod Quota
pub mod Settlement
