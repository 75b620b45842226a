-- ===== src/Api/Hedged.antt =====
-- api/routes.py: the attempts of a request that is streamed (`_stream_with_retries`), with the hedge that
-- may race an attempt (`_render_stream_with_hedge`, `_first_delta_with_optional_hedge`). What the
-- stream yields is kept in the order of its events.
use tide_gate.Prelude.{
  string_eq, ℕ, String, Bool, Option, none, some, List, ◌∷◌, ◌==◌, count_eq, not, if◌then◌else◌,
}
use tide_gate.Core.{GatewayError, Usage, ok, err}
use tide_gate.Api.Sse.{Item, StreamAccounting, Event}
use tide_gate.Quota.Service.{Moment, Link}
use tide_gate.Api.Ledger.{
  QuotaSettlement, refund_once_with, settle_once_with, estimated_platform_attempt_record,
}
use tide_gate.Api.Gateway.{
  App, Raised, Settling, Context, enqueue_attempt_record, next_attempt_seq, gateway, other,
}
use tide_gate.Config.{DeploymentConfig, HedgingConfig}
use tide_gate.Routing.Stats.{Key, deployment_key}
use tide_gate.Routing.Ladder.{RouteLevel}
use tide_gate.Quota.Estimator.{Estimate}
use tide_gate.Api.Attempts.{pick_next_attempt}
use tide_gate.Routing.Hedge.{allow_hedge, record_request}
use tide_gate.Prelude.Dict.{lookup}

-- How an upstream stream ends: by itself, with an error, when a poll finds the client gone, or with
-- another exception, such as a cancellation, which is `CancelledError` and comes also when the server
-- finds the client gone (`DisconnectAwareStreamingResponse`).
pub data Ending : Type 0 where
  completes : Ending
  fails : GatewayError → Ending
  disconnects : Ending
  crashes : String → Ending

pub record Feed : Type 0 where
  pub items : List Item
  pub ending : Ending

-- How the race of a hedge comes out: the first delta comes before the delay, or one of the two wins, or
-- the winner's task raises, before or after the hedge has started.
pub data Race : Type 0 where
  in_time : Race
  primary_wins : Race
  hedge_wins : Feed → Race
  race_fails : Bool → GatewayError → Race
  race_crashes : Bool → String → Race

-- What the outside does in one attempt of a stream.
pub record StreamTry : Type 0 where
  pub picked_at : ℕ
  pub moment : Moment
  pub reserving : Link
  pub estimated : Estimate
  pub started_at : ℕ
  pub hedge_picked_at : ℕ
  pub race : Race
  pub feed : Feed
  pub ended_at : ℕ
  pub storing : Option String
  pub settling : Settling

-- the variables of the loop, and what has been yielded
pub record StreamLocal : Type 0 where
  pub held : Option QuotaSettlement
  pub attempted : List Key
  pub last_error : Option GatewayError
  pub level_index : ℕ
  pub accounting : StreamAccounting
  pub outcome : String
  pub route : List ℕ
  pub ledger_written : Bool
  pub events : List Event

pub data StreamStep : Type 0 where
  continues : StreamLocal → App → StreamStep
  breaks : StreamLocal → App → StreamStep
  returned : StreamLocal → App → StreamStep
  raised : Raised → StreamLocal → App → StreamStep

-- The winner of an attempt: what it sends, its deployment, its number and its kind.
pub record Winner : Type 0 where
  pub feed : Feed
  pub deployment : DeploymentConfig
  pub seq : ℕ
  pub kind : String

-- what the race leaves: a winner, or an exception
pub data Raced : Type 0 where
  won : Winner → Raced
  lost : Raised → Raced

abbrev pub attempt_kind : ℕ → String
attempt_kind attempt_count = if attempt_count == 1 then "primary" else "retry"

-- `settle_once` and `refund_full` of a settlement that stays
unfoldable pub settle_kept : Settling → Option Usage → ℕ → StreamLocal → App → StreamLocal × App
settle_kept w usage forwarded l a = elim l.held [
  | none ↦ (l, a)
  | some p ↦
      let (p', s, q) =
        settle_once_with w.first w.second w.learn usage forwarded (p, a.quota, a.keys) in
      (record l { held = some p' }, record a { quota = s; keys = q })
]

unfoldable pub refund_kept : Settling → StreamLocal → App → StreamLocal × App
refund_kept w l a = elim l.held [
  | none ↦ (l, a)
  | some p ↦
      let (p', s, q) = refund_once_with w.first w.second w.learn (p, a.quota, a.keys) in
      (record l { held = some p' }, record a { quota = s; keys = q })
]

module _ (c : Context) where
  -- the loser of a race, which the platform pays for
  unfoldable pub note_loser : ℕ → DeploymentConfig → ℕ → String → App → App
  note_loser prompt_tokens d seq kind a =
      enqueue_attempt_record
        (estimated_platform_attempt_record c.unified prompt_tokens seq kind "hedge_loser" d
          "estimated" "hedge_loser" none)
        a

  -- what a race of the primary's attempt against the hedge `d` comes to
  unfoldable pub run_race :
      Race → Feed → ℕ → DeploymentConfig → ℕ → String → DeploymentConfig → App → Raced × App
  unfolding note_loser next_attempt_seq
  run_race race feed prompt_tokens primary seq kind d a =
      let (hedge_seq, a') = next_attempt_seq a in
      let alone = won (record { feed = feed; deployment = primary; seq = seq; kind = kind }) in
      elim race [
        | in_time ↦ (alone, a)
        | primary_wins ↦ (alone, note_loser prompt_tokens d hedge_seq "hedge" a')
        | hedge_wins other_feed ↦ (
          won (record { feed = other_feed; deployment = d; seq = hedge_seq; kind = "hedge" }),
          note_loser prompt_tokens primary seq kind a',
        )
        | race_fails hedged exc ↦ (lost (gateway exc), if hedged then a' else a)
        | race_crashes hedged exc ↦ (lost (other exc), if hedged then a' else a)
      ]

  -- from the allowance of the budget on: a hedge is picked, if there is another deployment
  unfoldable pub pick_hedge :
      List RouteLevel → StreamTry → List Key → ℕ → DeploymentConfig → ℕ → String → App → Raced × App
  unfolding run_race
  pick_hedge levels t attempted prompt_tokens primary seq kind a =
      let (picked, routing) =
        pick_next_attempt c.weights c.sample (deployment_key primary ∷ attempted) t.hedge_picked_at
          0 levels a.routing in
      let a' = record a { routing = routing } in
      elim picked [
        | ok r ↦ run_race t.race t.feed prompt_tokens primary seq kind r.deployment a'
        | err exc ↦
            (won (record { feed = t.feed; deployment = primary; seq = seq; kind = kind }), a')
      ]

  -- the tests of the policy and of the budget, for a policy that is there
  unfoldable pub hedge_under :
      HedgingConfig
      → List RouteLevel
      → StreamTry
      → List Key
      → ℕ
      → DeploymentConfig
      → ℕ
      → String
      → App
      → Raced × App
  unfolding pick_hedge
  hedge_under hedging levels t attempted prompt_tokens primary seq kind a =
      let alone = won (record { feed = t.feed; deployment = primary; seq = seq; kind = kind }) in
      let (allowed, budget) = allow_hedge hedging t.started_at a.hedge_budget in
      let a' = record a { hedge_budget = budget } in
      if not hedging.enabled
      then (alone, a)
      else if not allowed
      then (alone, a')
      else pick_hedge levels t attempted prompt_tokens primary seq kind a'

  -- `_render_stream_with_hedge`, up to the stream that it returns
  unfoldable pub render_with_hedge :
      List RouteLevel → StreamTry → List Key → ℕ → DeploymentConfig → ℕ → String → App → Raced × App
  unfolding hedge_under
  render_with_hedge levels t attempted prompt_tokens primary seq kind a =
      elim (lookup c.tenant.policy c.settings.policies) [
        | none ↦ (lost (other "KeyError"), a)
        | some policy ↦
            hedge_under policy.hedging levels t attempted prompt_tokens primary seq kind
              (record a { hedge_budget = record_request t.started_at a.hedge_budget })
      ]
