-- ===== src/Api/NonStream/Frame.antt =====
-- What the store of a response leaves as it was: everything but the list of what is stored.
use tide_gate.Prelude.{◌≡◌, refl, String, Bool, Option, Bool-cases, inl, inr, ap}
use tide_gate.Api.Gateway.{Context, App}
use tide_gate.Cache.SingleFlight.{Flight}
use tide_gate.Api.Attempts.{PickResult}
use tide_gate.Core.{UnifiedResponse}
use tide_gate.Api.NonStream.{store_result}

module _ (c : Context) (cache_header : String) (flight : Option Flight) (store_cache : Bool)
    (picked : PickResult) (v : UnifiedResponse) (a : App) where
  pub store_result-frame :
      store_result c cache_header flight store_cache picked v a
      ≡ record a { stored = (store_result c cache_header flight store_cache picked v a).stored }
  unfolding store_result
  store_result-frame = elim (Bool-cases store_cache) [
    | inl stores ↦ rw (store_result, stores) refl
    | inr skips ↦ rw (store_result, skips) refl
  ]

  pub store_result-routing :
      (store_result c cache_header flight store_cache picked v a).routing ≡ a.routing
  store_result-routing = ap (λ (x : App). x.routing) store_result-frame

  pub store_result-keys : (store_result c cache_header flight store_cache picked v a).keys ≡ a.keys
  store_result-keys = ap (λ (x : App). x.keys) store_result-frame

  pub store_result-ledger :
      (store_result c cache_header flight store_cache picked v a).ledger ≡ a.ledger
  store_result-ledger = ap (λ (x : App). x.ledger) store_result-frame
