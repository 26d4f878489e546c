-- ===== src/Controller/Claim.antt =====
-- internal/controller/domainclaim.go: a hostname is claimed by the first request that asks.
pub mod Ownership
pub mod Release
pub mod Moves
pub mod Contest
pub mod Names
use gateway_orchestrator.Prelude.{
  String, ◌<>◌, Bool, true, false, ◌&&◌, Option, none, some, Exec, Result, ok, err, ◌>>=◌, ◌>>◌,
  pure, raise, gets, attempt, ◌==◌, if◌then◌else◌,
}
use gateway_orchestrator.Go.Strings.{to_lower, replace_all}
use gateway_orchestrator.Api.Meta.{Error, wrap, NamespacedName}
use gateway_orchestrator.Api.Request.{Request}
use gateway_orchestrator.Api.Claim.{DomainClaim}
use gateway_orchestrator.Services.{Services, Library}
use gateway_orchestrator.Controller.Types.{Reconciler}

-- `generateClaimName`
unfoldable pub generate_claim_name : String → String → String
generate_claim_name zone_id hostname =
    to_lower zone_id <> "-" <> to_lower (replace_all b'*' "wildcard" hostname)

abbrev pub claim_name : Request → String
claim_name ghr = generate_claim_name ghr.spec.zone_id ghr.spec.hostname

abbrev pub claim_key : Request → NamespacedName
claim_key ghr = record { namespace = ""; name = claim_name ghr }

-- The test that both functions make of a claim's owner.
abbrev pub is_owner : Request → DomainClaim → Bool
is_owner ghr claim =
    (claim.spec.owner_ref.namespace == ghr.meta.namespace)
    && ((claim.spec.owner_ref.name == ghr.meta.name) && (claim.spec.owner_ref.uid == ghr.meta.uid))

-- The claim that `ensureDomainClaim` creates.
abbrev pub new_claim : Request → String → DomainClaim
new_claim ghr now = record {
  name = claim_name ghr;
  spec = record {
    zone_id = ghr.spec.zone_id;
    hostname = ghr.spec.hostname;
    owner_ref = record { namespace = ghr.meta.namespace; name = ghr.meta.name; uid = ghr.meta.uid };
  };
  claimed_at = some now;
}

module _ {W : Type 0} (r : Reconciler W) where
  open r use {library as lib, services as sv}

  -- The second half of `ensureDomainClaim`: the claim was not there.
  unfoldable pub create_domain_claim : Request → Exec W Error Bool
  create_domain_claim ghr = do
    now ← gets sv.now
    created ← attempt (sv.claims.create (new_claim ghr now))
    elim created [
      | ok _ ↦ pure true
      | err e ↦
          if lib.is_already_exists e
          then pure false
          else raise (wrap "failed to create domain claim" e)
    ]

  -- `ensureDomainClaim`
  unfoldable pub ensure_domain_claim : Request → Exec W Error Bool
  unfolding create_domain_claim
  ensure_domain_claim ghr = do
    found ← attempt (sv.claims.get (claim_key ghr))
    elim found [
      | ok claim ↦ pure (is_owner ghr claim)
      | err e ↦
          if lib.is_not_found e
          then create_domain_claim ghr
          else raise (wrap "failed to get domain claim" e)
    ]

  -- `client.IgnoreNotFound(err)`
  unfoldable pub ignoring_not_found : Exec W Error (Unit {0}) → Exec W Error (Unit {0})
  ignoring_not_found m = do
    result ← attempt m
    elim result [
      | ok _ ↦ pure tt
      | err e ↦ elim (lib.ignore_not_found e) [ none ↦ pure tt | some e' ↦ raise e' ]
    ]

  -- `deleteDomainClaim`
  unfoldable pub delete_domain_claim : Request → Exec W Error (Unit {0})
  unfolding ignoring_not_found
  delete_domain_claim ghr = do
    found ← attempt (sv.claims.get (claim_key ghr))
    elim found [
      | err e ↦ if lib.is_not_found e then pure tt else raise e
      | ok claim ↦
          if is_owner ghr claim then ignoring_not_found (sv.claims.delete claim) else pure tt
    ]
