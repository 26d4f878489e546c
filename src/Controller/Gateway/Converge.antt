-- ===== src/Controller/Gateway/Converge.antt =====
-- What `ensureAllowedRoutes` and `ensureGatewayConfiguration` put right stays right.
use gateway_orchestrator.Prelude.{◌≡◌, String, Bool, false, some, List, [], ◌∷◌}
use gateway_orchestrator.Prelude.Dict
use gateway_orchestrator.Prelude.Dict.{Dict}
use gateway_orchestrator.Api.Cluster.{Listener}
use gateway_orchestrator.Pool.Defs.{visibility_key, waf_key, config_key, config_name, from_all}
use gateway_orchestrator.Controller.Gateway.{correct}

-- A listener takes routes from all namespaces.
abbrev pub AllowsAll : Listener → Type 0
AllowsAll l = l.allowed_routes ≡ some from_all

-- What the loop keeps of a listener.
abbrev pub SameBut : Listener → Listener → Type 0
SameBut l l' = l' ≡ record l { allowed_routes = l'.allowed_routes }

abbrev pub AllSameBut : List Listener → List Listener → Type 0
AllSameBut [] [] = Unit
AllSameBut (l ∷ ls) (k ∷ ks) = SameBut l k × AllSameBut ls ks
AllSameBut _ _ = ⊥

module _ (gateway visibility waf_arn : String) (annotations : Dict String) where
  abbrev once : Dict String × Bool
  once = correct config_key (config_name gateway) (annotations, false)

  abbrev twice : Dict String × Bool
  twice = correct visibility_key visibility once

  abbrev thrice : Dict String × Bool
  thrice = correct waf_key waf_arn twice
