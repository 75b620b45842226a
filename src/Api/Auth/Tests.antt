-- ===== src/Api/Auth/Tests.antt =====
-- A key that is revoked while it is in the cache.
use tide_gate.Prelude.{ℕ, arith, ◌≡◌, refl, string_eq, count_eq, [], ◌∷◌}
use tide_gate.Prelude.Dict.{lookup, insert, erase}
use tide_gate.Core.{ok, err}
use tide_gate.Config.{GatewayConfig}
use tide_gate.Config.Samples.{sample_settings, sample_tenant}
use tide_gate.Api.AuthCache.{get, put, invalidate_tenant}
use tide_gate.Api.Auth.{AuthMiddleware, authenticate, invalid_api_key, new_auth_middleware}
use tide_gate.Api.Auth.Sound.{Request, serve, Right, authenticate-Right}

abbrev revoked : GatewayConfig
revoked = record sample_settings { tenants = [] }

abbrev first : Request
first = record { config = sample_settings; version = 1; now = 5; key_hash = "0a" }

abbrev second : Request
second = record { config = revoked; version = 2; now = 6; key_hash = "0a" }

abbrev start : AuthMiddleware
start = new_auth_middleware sample_settings 1

cached_then_refused :
    ((serve first start).0 ≡ ok sample_tenant)
    × ((serve first (serve first start).1).0 ≡ ok sample_tenant)
    × ((serve second (serve first start).1).0 ≡ err invalid_api_key)
unfolding authenticate get put invalidate_tenant lookup insert erase
cached_then_refused = (refl, refl, refl)

authenticate-Right_example : Right (first ∷ first ∷ second ∷ []) start
authenticate-Right_example =
    authenticate-Right sample_settings 1 (first ∷ first ∷ second ∷ []) (tt, tt)
      ((tt, tt), λ e. refl, ((tt, tt), λ e. refl, (tt, λ e. absurd (one_two e), tt)))
  where
    one_two : ◌≡◌ {A = ℕ} 1 2 → ⊥
    one_two e = omega arith
