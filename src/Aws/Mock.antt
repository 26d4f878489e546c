-- ===== src/Aws/Mock.antt =====
-- internal/aws/mock.go: the clients of the test suite, over maps.
use gateway_orchestrator.Prelude.{String, ◌<>◌, Option, none, some, List, [], ◌∷◌, Exec, ok, err}
use gateway_orchestrator.Prelude.Dict.{Dict, lookup, insert, erase}
use gateway_orchestrator.Api.Meta.{Error, errorf}
use gateway_orchestrator.Aws.Types.{
  CertificateDetails, ValidationRecord, DnsRecord, AcmClient, Route53Client,
}

pub record MockAcmClient : Type 0 where
  pub certificates : Dict CertificateDetails
  pub validation_records : Dict (List ValidationRecord)
  pub in_use_by : Dict (List String)

-- `NewMockACMClient`
abbrev pub new_mock_acm_client : MockAcmClient
new_mock_acm_client = record { certificates = []; validation_records = []; in_use_by = [] }

abbrev pub mock_arn : String → String
mock_arn domain = "arn:aws:acm:us-east-1:123456789012:certificate/" <> domain

unfoldable pub request_certificate : String → Dict String → Exec MockAcmClient Error String
request_certificate domain tags m =
    let arn = mock_arn domain in
    (
      ok arn,
      record m {
        certificates =
            insert arn
              (record { arn = arn; domain = domain; status = "PENDING_VALIDATION"; in_use_by = [] })
              m.certificates;
        validation_records =
            insert arn
              (record {
                name = "_acm-validation." <> domain;
                type = "CNAME";
                value = "_validation-value.acm-validations.aws.";
              }
                ∷ [])
              m.validation_records;
      },
    )

abbrev uses : MockAcmClient → String → List String
uses m arn = elim (lookup arn m.in_use_by) [ none ↦ [] | some l ↦ l ]

-- The details are shared: what `InUseBy` is set to here stays in the map.
unfoldable pub describe_certificate : String → Exec MockAcmClient Error CertificateDetails
describe_certificate arn m = elim (lookup arn m.certificates) [
  | none ↦ (err (errorf ("certificate not found: " <> arn)), m)
  | some cert ↦
      let found = record cert { in_use_by = uses m arn } in
      (ok found, record m { certificates = insert arn found m.certificates })
]

-- `SetCertificateInUse`
unfoldable pub set_certificate_in_use : String → List String → MockAcmClient → MockAcmClient
set_certificate_in_use arn resources m = record m { in_use_by = insert arn resources m.in_use_by }

-- `ClearCertificateInUse`
unfoldable pub clear_certificate_in_use : String → MockAcmClient → MockAcmClient
clear_certificate_in_use arn m = record m { in_use_by = erase arn m.in_use_by }

unfoldable pub delete_certificate : String → Exec MockAcmClient Error (Unit {0})
delete_certificate arn m = (
  ok tt,
  record m {
    certificates = erase arn m.certificates;
    validation_records = erase arn m.validation_records;
  },
)

unfoldable pub get_validation_records : String → Exec MockAcmClient Error (List ValidationRecord)
get_validation_records arn m = elim (lookup arn m.validation_records) [
  | none ↦ (err (errorf ("certificate not found: " <> arn)), m)
  | some records ↦ (ok records, m)
]

unfoldable pub mock_acm : AcmClient MockAcmClient
unfolding request_certificate describe_certificate delete_certificate get_validation_records
mock_acm = record {
  request_certificate = request_certificate;
  describe_certificate = describe_certificate;
  delete_certificate = delete_certificate;
  get_validation_records = get_validation_records;
}

-- `MockRoute53Client`, its records under zoneId:name:type.
abbrev pub MockRoute53Client : Type 0
MockRoute53Client = Dict DnsRecord

abbrev pub record_key : String → String → String → String
record_key zone_id name type = zone_id <> ":" <> name <> ":" <> type

unfoldable pub create_or_update_record :
    String → DnsRecord → Exec MockRoute53Client Error (Unit {0})
create_or_update_record zone_id r m = (ok tt, insert (record_key zone_id r.name r.type) r m)

unfoldable pub delete_record : String → DnsRecord → Exec MockRoute53Client Error (Unit {0})
delete_record zone_id r m = (ok tt, erase (record_key zone_id r.name r.type) m)

unfoldable pub get_record :
    String → String → String → Exec MockRoute53Client Error (Option DnsRecord)
get_record zone_id name type m = elim (lookup (record_key zone_id name type) m) [
  | none ↦ (err (errorf "record not found"), m)
  | some r ↦ (ok (some r), m)
]

unfoldable pub mock_route53 : Route53Client MockRoute53Client
unfolding create_or_update_record delete_record get_record
mock_route53 = record {
  create_or_update_record = create_or_update_record;
  delete_record = delete_record;
  get_record = get_record;
}
