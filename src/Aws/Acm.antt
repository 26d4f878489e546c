-- ===== src/Aws/Acm.antt =====
-- internal/aws/acm_sdk.go: the requests that it builds for ACM and what it reads back. The SDK's
-- calls are a parameter. The tags are passed on in the order of the map's list.
use gateway_orchestrator.Prelude.{String, Option, none, some, List, [], ◌∷◌, Exec, ok, err}
use gateway_orchestrator.Prelude.Dict.{Dict}
use gateway_orchestrator.Api.Meta.{Error, wrap}
use gateway_orchestrator.Aws.Types.{CertificateDetails, ValidationRecord, AcmClient}
use gateway_orchestrator.Aws.Route53.{to_text}

pub record RequestCertificateInput : Type 0 where
  pub domain_name : String
  pub validation_method : String
  pub tags : List (String × String)

-- `types.ResourceRecord` of a validation option.
pub record SdkResourceRecord : Type 0 where
  pub name : Option String
  pub type : String
  pub value : Option String

-- `types.CertificateDetail`; a validation option may have no record yet.
pub record CertificateDetail : Type 0 where
  pub domain_name : Option String
  pub status : String
  pub in_use_by : List String
  pub domain_validation_options : List (Option SdkResourceRecord)

pub record AcmApi (W : Type 0) : Type 0 where
  pub request_certificate : RequestCertificateInput → Exec W Error String
  pub describe_certificate : String → Exec W Error CertificateDetail
  pub delete_certificate : String → Exec W Error (Unit {0})

unfoldable pub validation_records_of : List (Option SdkResourceRecord) → List ValidationRecord
validation_records_of [] = []
validation_records_of (none ∷ options) = validation_records_of options
validation_records_of (some r ∷ options) =
    record { name = to_text r.name; type = r.type; value = to_text r.value }
    ∷ validation_records_of options

module _ {W : Type 0} (api : AcmApi W) where
  unfoldable pub request_certificate : String → Dict String → Exec W Error String
  request_certificate hostname tags w =
      let (result, w') =
        api.request_certificate
          (record { domain_name = hostname; validation_method = "DNS"; tags = tags }) w in
      elim result [
        | ok arn ↦ (ok arn, w')
        | err e ↦ (err (wrap "failed to request certificate" e), w')
      ]

  unfoldable pub describe_certificate : String → Exec W Error CertificateDetails
  describe_certificate arn w =
      let (result, w') = api.describe_certificate arn w in
      elim result [
        | ok d ↦ (
          ok (record {
            arn = arn;
            domain = to_text d.domain_name;
            status = d.status;
            in_use_by = d.in_use_by;
          }),
          w',
        )
        | err e ↦ (err (wrap "failed to describe certificate" e), w')
      ]

  unfoldable pub delete_certificate : String → Exec W Error (Unit {0})
  delete_certificate arn w =
      let (result, w') = api.delete_certificate arn w in
      elim result [ ok _ ↦ (ok tt, w') | err e ↦ (err (wrap "failed to delete certificate" e), w') ]

  unfoldable pub get_validation_records : String → Exec W Error (List ValidationRecord)
  unfolding validation_records_of
  get_validation_records arn w =
      let (result, w') = api.describe_certificate arn w in
      elim result [
        | ok d ↦ (ok (validation_records_of d.domain_validation_options), w')
        | err e ↦ (err (wrap "failed to describe certificate" e), w')
      ]

  -- `NewSDKACMClient`
  unfoldable pub sdk_acm : AcmClient W
  unfolding request_certificate describe_certificate delete_certificate get_validation_records
  sdk_acm = record {
    request_certificate = request_certificate;
    describe_certificate = describe_certificate;
    delete_certificate = delete_certificate;
    get_validation_records = get_validation_records;
  }
