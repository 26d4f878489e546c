-- ===== src/Controller/LoadBalancer/Spec.antt =====
-- The spec that `ensureLoadBalancerConfiguration` builds from a gateway's certificates.
use mathlib.Core.List.{Perm, append-nil}
use gateway_orchestrator.Prelude.{◌≡◌, refl, ap, String, none, some, List, [], ◌∷◌, ◌++◌, take}
use gateway_orchestrator.Go.Int.{ℤ}
use gateway_orchestrator.Go.Sort.{sort_strings}
use gateway_orchestrator.Go.Sort.Laws.{
  sort_strings_of_perm, sort_strings-perm, sort_strings-Sorted, Sorted,
}
use gateway_orchestrator.Api.Cluster.{LbSpec, ListenerConfig}
use gateway_orchestrator.Pool.{Pool}
use gateway_orchestrator.Controller.LoadBalancer.{https_listener, build_spec}

-- The certificates of a listener, the default one first.
abbrev pub listener_certificates : ListenerConfig → List String
listener_certificates l =
    elim l.default_certificate [ none ↦ [] | some c ↦ c ∷ [] ]
    ++ elim l.certificates [ none ↦ [] | some cs ↦ cs ]

abbrev pub served_by : List ListenerConfig → List String
served_by [] = []
served_by (l ∷ listeners) = listener_certificates l ++ served_by listeners

-- All certificates of the load balancer.
abbrev pub served : LbSpec → List String
served spec = served_by spec.listener_configurations

-- The default certificates of the load balancer.
abbrev pub defaults_of : List ListenerConfig → List String
defaults_of [] = []
defaults_of (l ∷ listeners) =
    elim l.default_certificate [ none ↦ [] | some c ↦ c ∷ [] ] ++ defaults_of listeners

served-https_listener :
    (port : ℤ) (arns : List String) (http : ListenerConfig)
    → listener_certificates http ≡ []
    → served_by (https_listener port arns ++ http ∷ []) ≡ arns
unfolding https_listener
served-https_listener port [] http h = rw h
served-https_listener port (a ∷ []) http h = rw h
served-https_listener port (a ∷ b ∷ l) http h = rw h (ap (λ t. a ∷ b ∷ t) (append-nil l))

defaults-https_listener :
    (port : ℤ) (arns : List String) (http : ListenerConfig)
    → http.default_certificate ≡ none
    → defaults_of (https_listener port arns ++ http ∷ []) ≡ take 1 arns
unfolding https_listener
defaults-https_listener port [] http h = rw h
defaults-https_listener port (a ∷ []) http h = rw h
defaults-https_listener port (a ∷ b ∷ l) http h = rw h

module _ (pool : Pool) (visibility waf_arn : String) where
  served-build_spec :
      (arns : List String) → served (build_spec pool arns visibility waf_arn) ≡ sort_strings arns
  unfolding build_spec
  served-build_spec arns = served-https_listener _ (sort_strings arns) _ refl

  defaults-build_spec :
      (arns : List String)
      → defaults_of (build_spec pool arns visibility waf_arn).listener_configurations
        ≡ take 1 (sort_strings arns)
  unfolding build_spec
  defaults-build_spec arns = defaults-https_listener _ (sort_strings arns) _ refl

  -- The load balancer serves exactly the gateway's certificates, as often as they are given, in
  -- ascending order; its one default certificate, where there is a certificate, is the first.
  pub build_spec_serves :
      (arns : List String)
      → let spec = build_spec pool arns visibility waf_arn in
        Perm (served spec) arns
        × Sorted (served spec)
        × (defaults_of spec.listener_configurations ≡ take 1 (served spec))
  build_spec_serves arns =
      rw (served-build_spec arns, defaults-build_spec arns)
        (sort_strings-perm arns, sort_strings-Sorted arns, refl)

  -- The order of the certificates does not change the spec.
  pub build_spec_of_perm :
      {arns arns' : List String}
      → Perm arns arns'
      → build_spec pool arns visibility waf_arn ≡ build_spec pool arns' visibility waf_arn
  unfolding build_spec
  build_spec_of_perm p = rw (sort_strings_of_perm p)
