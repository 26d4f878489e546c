-- ===== src/Api/Claim.antt =====
-- api/v1alpha1/domainclaim_types.go
use gateway_orchestrator.Prelude.{String, Option}

pub record OwnerRef : Type 0 where
  pub namespace : String
  pub name : String
  pub uid : String

pub record DomainClaimSpec : Type 0 where
  pub zone_id : String
  pub hostname : String
  pub owner_ref : OwnerRef

-- A claim is cluster-scoped: its name alone identifies it.
pub record DomainClaim : Type 0 where
  pub name : String
  pub spec : DomainClaimSpec
  pub claimed_at : Option String
