-- ===== src/Api/Gateway/Frame.antt =====
-- What the steps of a flight's leader leave as it was: everything but the flights.
use tide_gate.Prelude.{◌≡◌, refl, String, Option, none, some, Bool-cases, inl, inr}
use tide_gate.Api.Gateway.{resolve_led, reject_led, release_led, App}
use tide_gate.Cache.SingleFlight.{Flight}
use tide_gate.Core.{UnifiedResponse}

pub resolve_led-frame :
    (flight : Option Flight) (v : UnifiedResponse) (a : App)
    → resolve_led flight v a ≡ record a { flights = (resolve_led flight v a).flights }
unfolding resolve_led
resolve_led-frame none v a = refl
resolve_led-frame (some f) v a = elim (Bool-cases f.leader) [
  | inl leads ↦ rw (resolve_led, leads) refl
  | inr follows ↦ rw (resolve_led, follows) refl
]

pub reject_led-frame :
    (flight : Option Flight) (exc : String) (a : App)
    → reject_led flight exc a ≡ record a { flights = (reject_led flight exc a).flights }
unfolding reject_led
reject_led-frame none exc a = refl
reject_led-frame (some f) exc a = elim (Bool-cases f.leader) [
  | inl leads ↦ rw (reject_led, leads) refl
  | inr follows ↦ rw (reject_led, follows) refl
]

pub release_led-frame :
    (flight : Option Flight) (a : App)
    → release_led flight a ≡ record a { flights = (release_led flight a).flights }
unfolding release_led
release_led-frame none a = refl
release_led-frame (some f) a = elim (Bool-cases f.leader) [
  | inl leads ↦ rw (release_led, leads) refl
  | inr follows ↦ rw (release_led, follows) refl
]
