-- ===== src/Api/Grant.antt =====
-- api/v1alpha1/hostnamegrant_types.go: a record for a policy engine, which no handler reads.
use gateway_orchestrator.Prelude.{String, Option, List}

pub record HostnameGrant : Type 0 where
  pub namespace : String
  pub hostnames : List String
  pub granted_at : Option String
