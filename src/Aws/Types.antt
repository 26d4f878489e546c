-- ===== src/Aws/Types.antt =====
-- internal/aws/acm.go and internal/aws/route53.go: the data and the two interfaces. The contexts,
-- which carry a timeout, are left out: a call that times out is one that fails.
use gateway_orchestrator.Prelude.{ℕ, String, Bool, Option, List, Exec}
use gateway_orchestrator.Prelude.Dict.{Dict}
use gateway_orchestrator.Api.Meta.{Error}

pub record CertificateDetails : Type 0 where
  pub arn : String
  pub domain : String
  pub status : String
  pub in_use_by : List String

pub record ValidationRecord : Type 0 where
  pub name : String
  pub type : String
  pub value : String

pub record AliasTarget : Type 0 where
  pub dns_name : String
  pub hosted_zone_id : String
  pub evaluate_target_health : Bool

pub record DnsRecord : Type 0 where
  pub name : String
  pub type : String
  pub alias_target : Option AliasTarget
  pub value : String
  pub ttl : ℕ

pub record AcmClient (W : Type 0) : Type 0 where
  pub request_certificate : String → Dict String → Exec W Error String
  pub describe_certificate : String → Exec W Error CertificateDetails
  pub delete_certificate : String → Exec W Error (Unit {0})
  pub get_validation_records : String → Exec W Error (List ValidationRecord)

pub record Route53Client (W : Type 0) : Type 0 where
  pub create_or_update_record : String → DnsRecord → Exec W Error (Unit {0})
  pub delete_record : String → DnsRecord → Exec W Error (Unit {0})
  pub get_record : String → String → String → Exec W Error (Option DnsRecord)
