-- ===== src/Routing/Ladder/Tests.antt =====
-- The ladder of the sample tenant, and each theorem at it.
use tide_gate.Prelude.{◌≡◌, refl, string_eq, List, [], ◌∷◌}
use tide_gate.Prelude.Dict.{lookup}
use tide_gate.Config.Samples.{sample_settings, sample_tenant, chat_large}
use tide_gate.Routing.Ladder.{RouteLevel, levels}
use tide_gate.Routing.Ladder.Order.{requested_level, Fallbacks, NoRepeat, group_names, levels-order}

-- an unknown group is passed over, and the smaller model is on the ladder already
levels_run :
    group_names (levels sample_settings "chat-large" sample_tenant)
    ≡ "chat-large" ∷ "chat-small" ∷ []
unfolding levels lookup
levels_run = refl

levels-order_example :
    (rest : List RouteLevel) × (levels sample_settings "chat-large" sample_tenant
      ≡ requested_level "chat-large" chat_large ∷ rest)
    × Fallbacks sample_settings rest
    × NoRepeat (group_names (levels sample_settings "chat-large" sample_tenant))
unfolding lookup
levels-order_example = levels-order sample_settings "chat-large" sample_tenant chat_large refl
