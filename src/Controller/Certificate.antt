-- ===== src/Controller/Certificate.antt =====
-- internal/controller/certificate.go: the ACM certificate and its DNS validation records.
use gateway_orchestrator.Prelude.{
  String, ◌<>◌, Bool, true, false, ◌||◌, List, [], ◌∷◌, none, Exec, Result, ok, err, ◌>>=◌, ◌>>◌,
  pure, raise, map_err, ltb, length, ◌==◌, if◌then◌else◌,
}
use gateway_orchestrator.Prelude.Dict.{Dict}
use gateway_orchestrator.Go.Strings.{replace_all}
use gateway_orchestrator.Api.Meta.{Error, errorf, wrap, not_ready}
use gateway_orchestrator.Api.Request.{Request}
use gateway_orchestrator.Aws.Types.{ValidationRecord, DnsRecord}
use gateway_orchestrator.Controller.Types.{Reconciler}

-- `sanitizeTagValue`
unfoldable pub sanitize_tag_value : String → String
sanitize_tag_value s = replace_all b'*' "wildcard" s

-- The tags of a certificate.
abbrev pub certificate_tags : Request → Dict String
certificate_tags ghr =
    ("managed-by", "gateway-orchestrator")
    ∷ ("hostname", sanitize_tag_value ghr.spec.hostname)
    ∷ ("namespace", ghr.meta.namespace)
    ∷ ("environment", ghr.spec.environment)
    ∷ []

-- The Route53 record of a validation record, also where it is deleted.
abbrev pub validation_dns_record : ValidationRecord → DnsRecord
validation_dns_record v = record {
  name = v.name;
  type = v.type;
  alias_target = none;
  value = v.value;
  ttl = 300;
}

-- The switch of `checkCertificateStatus`.
unfoldable pub judge_status : String → Result Error Bool
judge_status status =
    if status == "ISSUED"
    then ok true
    else if status == "PENDING_VALIDATION"
    then ok false
    else if (status == "FAILED") || ((status == "VALIDATION_TIMED_OUT") || (status == "REVOKED"))
    then err (errorf ("certificate in failed state: " <> status))
    else ok false

module _ {W : Type 0} (r : Reconciler W) where
  open r use {services as sv}

  -- `requestCertificate`
  unfoldable pub request_certificate : Request → Exec W Error String
  request_certificate ghr =
      map_err (wrap "failed to request certificate")
        (sv.acm.request_certificate ghr.spec.hostname (certificate_tags ghr))

  -- The loop of `ensureValidationRecords`: it stops at the first record that fails.
  unfoldable pub create_records : String → List ValidationRecord → Exec W Error (Unit {0})
  create_records zone_id [] = pure tt
  create_records zone_id (v ∷ records) = do
    map_err (wrap "failed to create validation record")
        (sv.route53.create_or_update_record zone_id (validation_dns_record v))
    create_records zone_id records

  -- `ensureValidationRecords`
  unfoldable pub ensure_validation_records : Request → Exec W Error (Unit {0})
  unfolding create_records
  ensure_validation_records ghr =
      if ghr.status.certificate_arn == "" then raise (errorf "certificate ARN not set") else do
        records ←
            map_err (wrap "failed to get validation records")
              (sv.acm.get_validation_records ghr.status.certificate_arn)
        if ltb 0 (length records) then create_records ghr.spec.zone_id records else raise not_ready

  -- `checkCertificateStatus`
  unfoldable pub check_certificate_status : Request → Exec W Error Bool
  unfolding judge_status
  check_certificate_status ghr =
      if ghr.status.certificate_arn == "" then raise (errorf "certificate ARN not set") else do
        details ←
            map_err (wrap "failed to describe certificate")
              (sv.acm.describe_certificate ghr.status.certificate_arn)
        (λ w. (judge_status details.status, w))

  -- `isCertificateInUse` (gatewayhostnamerequest_controller.go)
  unfoldable pub is_certificate_in_use : String → Exec W Error Bool
  is_certificate_in_use arn = do
    details ← sv.acm.describe_certificate arn
    pure (ltb 0 (length details.in_use_by))
