-- ===== src/Aws/Route53.antt =====
-- internal/aws/route53_sdk.go: the requests that it builds for Route53 and what it reads back.
-- The SDK's two calls are a parameter.
use gateway_orchestrator.Prelude.{
  ℕ, String, Bool, ◌&&◌, Option, none, some, List, [], ◌∷◌, Exec, ok, err, ◌==◌, if◌then◌else◌,
}
use gateway_orchestrator.Api.Meta.{Error, wrap, error_text}
use gateway_orchestrator.Go.Strings.{trim_prefix, trim_suffix, contains_text}
use gateway_orchestrator.Aws.Types.{DnsRecord, Route53Client}

pub data ChangeAction : Type 0 where
  upsert delete : ChangeAction

-- `types.AliasTarget`; a pointer is an option.
pub record SdkAliasTarget : Type 0 where
  pub dns_name : Option String
  pub hosted_zone_id : Option String
  pub evaluate_target_health : Bool

-- `types.ResourceRecordSet`
pub record ResourceRecordSet : Type 0 where
  pub name : Option String
  pub type : String
  pub ttl : Option ℕ
  pub resource_records : List (Option String)
  pub alias_target : Option SdkAliasTarget

-- `ChangeResourceRecordSets` with one change, and `ListResourceRecordSets` with `MaxItems` 1.
pub record Route53Api (W : Type 0) : Type 0 where
  pub change_resource_record_sets :
      String → ChangeAction → ResourceRecordSet → Exec W Error (Unit {0})
  pub list_resource_record_sets : String → String → String → Exec W Error (List ResourceRecordSet)

-- `aws.ToString` and `aws.ToInt64`: nil reads as the zero value.
abbrev pub to_text : Option String → String
to_text none = ""
to_text (some s) = s

abbrev pub to_int64 : Option ℕ → ℕ
to_int64 none = 0
to_int64 (some n) = n

-- `normalizeZoneId`
unfoldable pub normalize_zone_id : String → String
normalize_zone_id zone_id = trim_prefix zone_id "/hostedzone/"

-- The record set of a change: an alias has neither a TTL nor values.
unfoldable pub record_set : DnsRecord → ResourceRecordSet
record_set r = elim r.alias_target [
  | some t ↦ record {
    name = some r.name;
    type = r.type;
    ttl = none;
    resource_records = [];
    alias_target = some (record {
      dns_name = some t.dns_name;
      hosted_zone_id = some t.hosted_zone_id;
      evaluate_target_health = t.evaluate_target_health;
    });
  }
  | none ↦ record {
    name = some r.name;
    type = r.type;
    ttl = some r.ttl;
    resource_records = some r.value ∷ [];
    alias_target = none;
  }
]

-- The `DNSRecord` of a listed set.
unfoldable pub read_record : ResourceRecordSet → DnsRecord
read_record rrs = elim rrs.alias_target [
  | some t ↦ record {
    name = to_text rrs.name;
    type = rrs.type;
    alias_target = some (record {
      dns_name = to_text t.dns_name;
      hosted_zone_id = to_text t.hosted_zone_id;
      evaluate_target_health = t.evaluate_target_health;
    });
    value = "";
    ttl = to_int64 rrs.ttl;
  }
  | none ↦ record {
    name = to_text rrs.name;
    type = rrs.type;
    alias_target = none;
    value = elim rrs.resource_records [ [] ↦ "" | v ∷ _ ↦ to_text v ];
    ttl = to_int64 rrs.ttl;
  }
]

-- The loop of `GetRecord`: the first set of the wanted name, a final dot aside, and type.
unfoldable pub find_record : String → String → List ResourceRecordSet → Option DnsRecord
unfolding read_record
find_record name type [] = none
find_record name type (rrs ∷ sets) =
    let rest = find_record name type sets in
    if (trim_suffix (to_text rrs.name) "." == trim_suffix name ".") && (rrs.type == type)
    then some (read_record rrs)
    else rest

module _ {W : Type 0} (api : Route53Api W) where
  unfoldable pub create_or_update_record : String → DnsRecord → Exec W Error (Unit {0})
  unfolding record_set normalize_zone_id
  create_or_update_record zone_id r w =
      let (result, w') =
        api.change_resource_record_sets (normalize_zone_id zone_id) upsert (record_set r) w in
      elim result [
        | ok _ ↦ (ok tt, w')
        | err e ↦ (err (wrap "failed to create/update record" e), w')
      ]

  -- A record that is not there counts as deleted.
  unfoldable pub delete_record : String → DnsRecord → Exec W Error (Unit {0})
  unfolding record_set normalize_zone_id
  delete_record zone_id r w =
      let (result, w') =
        api.change_resource_record_sets (normalize_zone_id zone_id) delete (record_set r) w in
      elim result [
        | ok _ ↦ (ok tt, w')
        | err e ↦
            if contains_text (error_text e) "it was not found"
            then (ok tt, w')
            else (err (wrap "failed to delete record" e), w')
      ]

  unfoldable pub get_record : String → String → String → Exec W Error (Option DnsRecord)
  unfolding find_record normalize_zone_id
  get_record zone_id name type w =
      let (result, w') = api.list_resource_record_sets (normalize_zone_id zone_id) name type w in
      elim result [
        | ok sets ↦ (ok (find_record name type sets), w')
        | err e ↦ (err (wrap "failed to list records" e), w')
      ]

  -- `NewSDKRoute53Client`
  unfoldable pub sdk_route53 : Route53Client W
  unfolding create_or_update_record delete_record get_record
  sdk_route53 = record {
    create_or_update_record = create_or_update_record;
    delete_record = delete_record;
    get_record = get_record;
  }
