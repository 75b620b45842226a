-- ===== src/Api/Ledger/Record.antt =====
-- api/routes.py: the record of a request in the ledger. A route is a text, the list of its code points:
-- it is written from a deployment, cut at its first slash, and looked up in the configuration.
pub mod Priced
use tide_gate.Prelude.{
  ℕ, String, Bool, true, false, ◌&&◌, Option, none, some, List, [], ◌∷◌, ◌++◌, if◌then◌else◌, ◌==◌,
  count_eq, contains, is_some, get_or, ◌||◌,
}
use tide_gate.Prelude.Dict.{Dict}
use tide_gate.Prelude.Text.{codes, codes_eq}
use tide_gate.Core.{UnifiedRequest, Usage}
use tide_gate.Config.{DeploymentConfig, GatewayConfig, ModelGroupConfig}
use tide_gate.Api.Ledger.{usage_cost_microusd}

pub record LedgerRecord : Type 0 where
  pub request_id : String
  pub tenant_id : String
  pub model : String
  pub provider : List ℕ
  pub upstream_model : List ℕ
  pub usage : Usage
  pub cost_microusd : ℕ
  pub cache_status : String
  pub route_path : List ℕ
  pub degraded : Option String
  pub outcome : String

abbrev pub slash : ℕ
slash = 47

-- `_route_header`
unfoldable pub route_header : DeploymentConfig → List ℕ
route_header d = codes d.provider ++ (slash ∷ codes d.upstream_model)

-- `text.split("/", maxsplit=1)` of a text that has a slash
unfoldable pub split_at_slash : List ℕ → List ℕ × List ℕ
split_at_slash [] = ([], [])
split_at_slash (c ∷ cs) =
    let (before, after) = split_at_slash cs in if c == slash then ([], cs) else (c ∷ before, after)

-- `_route_parts`
unfoldable pub route_parts : List ℕ → List ℕ × List ℕ
unfolding split_at_slash
route_parts header = if contains slash header then split_at_slash header else (header, header)

-- the loop of `_deployment_for_route` over one group
unfoldable pub route_in_group : List ℕ → List ℕ → List DeploymentConfig → Option DeploymentConfig
route_in_group provider upstream_model [] = none
route_in_group provider upstream_model (d ∷ ds) =
    let rest = route_in_group provider upstream_model ds in
    if (codes d.provider == provider) && (codes d.upstream_model == upstream_model)
    then some d
    else rest

abbrev pub or_else : Option DeploymentConfig → Option DeploymentConfig → Option DeploymentConfig
or_else (some d) later = some d
or_else none later = later

-- the loop over the groups
unfoldable pub route_in_groups :
    List ℕ → List ℕ → Dict String ModelGroupConfig → Option DeploymentConfig
unfolding route_in_group
route_in_groups provider upstream_model [] = none
route_in_groups provider upstream_model ((name, group) ∷ groups) =
    or_else (route_in_group provider upstream_model group.deployments)
      (route_in_groups provider upstream_model groups)

-- `_deployment_for_route`
unfoldable pub deployment_for_route : GatewayConfig → List ℕ → List ℕ → Option DeploymentConfig
unfolding route_in_groups
deployment_for_route settings provider upstream_model =
    route_in_groups provider upstream_model settings.model_groups

-- what a usage costs on a deployment that may be missing
unfoldable pub cost_on : Usage → Option DeploymentConfig → ℕ
cost_on usage none = 0
cost_on usage (some d) = usage_cost_microusd usage d

-- `_ledger_record`
unfoldable pub ledger_record :
    UnifiedRequest → Usage → List ℕ → String → Option String → String → GatewayConfig → LedgerRecord
unfolding route_parts deployment_for_route cost_on
ledger_record unified usage route cache_header degraded outcome settings =
    let (provider, upstream_model) = route_parts route in
    record {
      request_id = unified.request_id;
      tenant_id = unified.tenant_id;
      model = unified.model;
      provider = provider;
      upstream_model = upstream_model;
      usage = usage;
      cost_microusd = cost_on usage (deployment_for_route settings provider upstream_model);
      cache_status = cache_header;
      route_path = route;
      degraded = degraded;
      outcome = outcome;
    }
