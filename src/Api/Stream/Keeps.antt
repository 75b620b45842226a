-- ===== src/Api/Stream/Keeps.antt =====
-- A stream holds one settlement from its first attempt to its end.
use tide_gate.Prelude.{
  ℕ, ◌≡◌, refl, String, Bool, true, false, Option, none, some, List, string_eq, inl, inr,
  Bool-cases, Option-cases, ◌∷◌, not, if◌then◌else◌,
}
use tide_gate.Prelude.Dict.{lookup}
use tide_gate.Quota.Service.{QuotaService}
use tide_gate.Api.Hedged.{
  in_time, primary_wins, hedge_wins, race_fails, race_crashes, StreamLocal, StreamStep, settle_kept,
  continues, breaks, returned, raised, refund_kept, run_race, pick_hedge, hedge_under,
  render_with_hedge, note_loser, StreamTry, Race, Feed, hedge_wins, race_fails, race_crashes, Raced,
}
use tide_gate.Api.Ledger.{QuotaSettlement, settle_once_with, refund_once_with, final_usage}
use tide_gate.Api.Gateway.{Settling, App, Context, next_attempt_seq, enqueue_attempt_record}
use tide_gate.Quota.Scripts.{TenantQuota}
use tide_gate.Api.NonStream.Owes.{Arrives, NothingHeld, settle_reservation-arrives}
use tide_gate.Core.{Usage, Result-cases}
use tide_gate.Quota.Service.Settlement.{refund_full, zero_usage}
use tide_gate.Routing.Ladder.{RouteLevel}
use tide_gate.Config.{HedgingConfig, DeploymentConfig}
use tide_gate.Routing.Stats.{Key, deployment_key}
use tide_gate.Routing.Hedge.{allow_hedge}
use tide_gate.Api.Attempts.{pick_next_attempt}

-- The settlement is the request's and in Redis, and if it is settled the request holds nothing there.
abbrev pub Kept : String → Option QuotaSettlement → TenantQuota → Type 0
Kept request_id none q = ⊥
Kept request_id (some p) q =
    (p.reservation.request_id ≡ request_id)
    × (p.reservation.redis_reserved ≡ true)
    × (p.settled ≡ true → lookup request_id q.resv_data ≡ none)

abbrev pub KeptAt : String → StreamLocal → App → Type 0
KeptAt request_id l a = Kept request_id l.held a.keys

-- `P` holds of a step, however it goes on.
abbrev pub AllSteps : (StreamLocal → App → Type 0) → StreamStep → Type 0
AllSteps P (continues l a) = P l a
AllSteps P (breaks l a) = P l a
AllSteps P (returned l a) = P l a
AllSteps P (raised e l a) = P l a

-- A settlement, or a second one, leaves nothing held.
abbrev pub Emptied : String → QuotaSettlement × QuotaService × TenantQuota → Type 0
Emptied request_id (p, s, q) = Kept request_id (some p) q × (lookup request_id q.resv_data ≡ none)

module _ (request_id : String) (w : Settling) (up : Arrives w) where
  settle_once_with-Emptied :
      (usage : Option Usage) (forwarded : ℕ) (p : QuotaSettlement) (s : QuotaService)
      (q : TenantQuota)
      → Kept request_id (some p) q
      → Emptied request_id (settle_once_with w.first w.second w.learn usage forwarded (p, s, q))
  unfolding settle_once_with
  settle_once_with-Emptied usage forwarded p s q (mine, there, done) = elim (Bool-cases p.settled) [
    | inl settled ↦ rw (settle_once_with, settled) ((mine, there, λ h. done settled), done settled)
    | inr open_ ↦
        let nothing =
          settle_reservation-arrives w.second w.learn p.reservation (final_usage usage p.captured)
            forwarded s q there in
        rw (settle_once_with, open_, up)
          ((mine, there, λ h. rw (← mine) nothing), rw (← mine) nothing)
  ]

  refund_once_with-Emptied :
      (p : QuotaSettlement) (s : QuotaService) (q : TenantQuota)
      → Kept request_id (some p) q
      → Emptied request_id (refund_once_with w.first w.second w.learn (p, s, q))
  unfolding refund_once_with refund_full
  refund_once_with-Emptied p s q (mine, there, done) = elim (Bool-cases p.settled) [
    | inl settled ↦ rw (refund_once_with, settled) ((mine, there, λ h. done settled), done settled)
    | inr open_ ↦
        let nothing =
          settle_reservation-arrives w.second w.learn p.reservation (some zero_usage) 0 s q there in
        rw (refund_once_with, open_, up)
          ((mine, there, λ h. rw (← mine) nothing), rw (← mine) nothing)
  ]

  -- the same of a stream's settlement
  abbrev pub Ends : StreamLocal × App → Type 0
  Ends (l, a) = KeptAt request_id l a × NothingHeld request_id a

  pub Kept-some :
      (held : Option QuotaSettlement) (q : TenantQuota)
      → Kept request_id held q
      → (p : QuotaSettlement) × (held ≡ some p) × Kept request_id (some p) q
  Kept-some none q h = absurd h
  Kept-some (some p) q h = (p, refl, h)

  pub settle_kept-Ends :
      (usage : Option Usage) (forwarded : ℕ) (l : StreamLocal) (a : App)
      → KeptAt request_id l a
      → Ends (settle_kept w usage forwarded l a)
  unfolding settle_kept
  settle_kept-Ends usage forwarded l a h =
      let (p, is, kept) = Kept-some l.held a.keys h in
      rw (settle_kept, is) (settle_once_with-Emptied usage forwarded p a.quota a.keys kept)

  pub refund_kept-Ends :
      (l : StreamLocal) (a : App) → KeptAt request_id l a → Ends (refund_kept w l a)
  unfolding refund_kept
  refund_kept-Ends l a h =
      let (p, is, kept) = Kept-some l.held a.keys h in
      rw (refund_kept, is) (refund_once_with-Emptied p a.quota a.keys kept)

if-keys :
    (b : Bool) (x y : Raced × App) (q : TenantQuota)
    → x.1.keys ≡ q
    → y.1.keys ≡ q
    → (if b then x else y).1.keys ≡ q
if-keys true x y q h k = h
if-keys false x y q h k = k

-- what the race does with the tenant's keys: nothing
module _ (c : Context) where
  run_race-keys :
      (race : Race) (feed : Feed) (n : ℕ) (primary : DeploymentConfig) (seq : ℕ) (kind : String)
      (d : DeploymentConfig) (a : App)
      → (run_race c race feed n primary seq kind d a).1.keys ≡ a.keys
  unfolding run_race note_loser next_attempt_seq enqueue_attempt_record
  run_race-keys in_time feed n primary seq kind d a = refl
  run_race-keys primary_wins feed n primary seq kind d a = refl
  run_race-keys (hedge_wins other_feed) feed n primary seq kind d a = refl
  run_race-keys (race_fails true exc) feed n primary seq kind d a = refl
  run_race-keys (race_fails false exc) feed n primary seq kind d a = refl
  run_race-keys (race_crashes true exc) feed n primary seq kind d a = refl
  run_race-keys (race_crashes false exc) feed n primary seq kind d a = refl

  pick_hedge-keys :
      (levels : List RouteLevel) (t : StreamTry) (attempted : List Key) (n : ℕ)
      (primary : DeploymentConfig) (seq : ℕ) (kind : String) (a : App)
      → (pick_hedge c levels t attempted n primary seq kind a).1.keys ≡ a.keys
  unfolding pick_hedge
  pick_hedge-keys levels t attempted n primary seq kind a =
      elim (Result-cases
        (pick_next_attempt c.weights c.sample (deployment_key primary ∷ attempted) t.hedge_picked_at
          0 levels a.routing).0) [
            | inl (r, ok_) ↦
                rw (pick_hedge, ok_) (run_race-keys t.race t.feed n primary seq kind r.deployment _)
            | inr (e, none_) ↦ rw (pick_hedge, none_) refl
          ]

  hedge_under-keys :
      (hedging : HedgingConfig) (levels : List RouteLevel) (t : StreamTry) (attempted : List Key)
      (n : ℕ) (primary : DeploymentConfig) (seq : ℕ) (kind : String) (a : App)
      → (hedge_under c hedging levels t attempted n primary seq kind a).1.keys ≡ a.keys
  unfolding hedge_under
  hedge_under-keys hedging levels t attempted n primary seq kind a =
      if-keys (not hedging.enabled) _ _ a.keys refl (
        if-keys (not (allow_hedge hedging t.started_at a.hedge_budget).0) _ _ a.keys refl
          (pick_hedge-keys levels t attempted n primary seq kind _))

  pub render_with_hedge-keys :
      (levels : List RouteLevel) (t : StreamTry) (attempted : List Key) (n : ℕ)
      (primary : DeploymentConfig) (seq : ℕ) (kind : String) (a : App)
      → (render_with_hedge c levels t attempted n primary seq kind a).1.keys ≡ a.keys
  unfolding render_with_hedge
  render_with_hedge-keys levels t attempted n primary seq kind a =
      elim (Option-cases (lookup c.tenant.policy c.settings.policies)) [
        | inl missing ↦ rw (render_with_hedge, missing) refl
        | inr (policy, found) ↦
            rw (render_with_hedge, found)
              (hedge_under-keys policy.hedging levels t attempted n primary seq kind _)
      ]
