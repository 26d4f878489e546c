-- ===== src/Pool/Defs.antt =====
-- The definitions of internal/gateway/pool.go.
use gateway_orchestrator.Prelude.{
  ℕ, String, ◌<>◌, Bool, true, false, ◌&&◌, Option, none, some, List, [], ◌∷◌, Exec, Result, ok,
  err, ◌>>=◌, ◌>>◌, pure, lift, map_err, ltb, ◌==◌, if◌then◌else◌,
}
use gateway_orchestrator.Prelude.Dict.{Dict, lookup, get}
use gateway_orchestrator.Go.Int.{ℤ, pos, negsuc, ltb_nat, is_zero, int_succ}
use gateway_orchestrator.Go.Format.{format_two, scan_int, scan_gateway_index}
use gateway_orchestrator.Api.Meta.{Error, wrap, LabelSelector}
use gateway_orchestrator.Api.Cluster.{Gateway, Address, AllowedRoutes}
use gateway_orchestrator.Services.{Services, Library}

-- `MaxCertificatesPerGateway` and `MaxRulesPerGateway`
abbrev pub max_certificates_per_gateway : ℕ
max_certificates_per_gateway = 20

abbrev pub max_rules_per_gateway : ℕ
max_rules_per_gateway = 100

-- The pool's settings; its client is the section's `sv` below.
pub record Pool : Type 0 where
  pub namespace : String
  pub gateway_class : String
  pub http_port : ℤ
  pub https_port : ℤ

-- `NewPool`: a port of 0 stands for the default.
unfoldable pub new_pool : String → String → ℤ → ℤ → Pool
new_pool namespace gateway_class http_port https_port = record {
  namespace = namespace;
  gateway_class = gateway_class;
  http_port = if is_zero http_port then pos 80 else http_port;
  https_port = if is_zero https_port then pos 443 else https_port;
}

pub record GatewayInfo : Type 0 where
  pub name : String
  pub namespace : String
  pub certificate_count : ℤ
  pub rule_count : ℤ
  pub load_balancer_dns : String
  pub load_balancer_zone : String

abbrev pub visibility_key : String
visibility_key = "gateway.opendi.com/visibility"

abbrev pub waf_key : String
waf_key = "gateway.opendi.com/waf-arn"

abbrev pub certificate_count_key : String
certificate_count_key = "gateway.opendi.com/certificate-count"

abbrev pub rule_count_key : String
rule_count_key = "gateway.opendi.com/rule-count"

abbrev pub config_key : String
config_key = "gateway.k8s.aws/loadbalancer-configuration"

-- A count that is absent or cannot be read stays 0.
unfoldable pub count_annotation : String → Dict String → ℤ
count_annotation key annotations = elim (lookup key annotations) [
  | none ↦ pos 0
  | some text ↦ elim (scan_int text) [ none ↦ pos 0 | some n ↦ n ]
]

abbrev pub is_hostname : Address → Bool
is_hostname a = elim a.type [ none ↦ false | some t ↦ t == "Hostname" ]

-- The loop over the addresses has no break: the last host name stays.
unfoldable pub last_hostname : String → List Address → String
last_hostname found [] = found
last_hostname found (a ∷ addresses) =
    last_hostname (if is_hostname a then a.value else found) addresses

-- `getGatewayInfo`
unfoldable pub get_gateway_info : Gateway → GatewayInfo
unfolding count_annotation last_hostname
get_gateway_info gw = record {
  name = gw.name;
  namespace = gw.namespace;
  certificate_count = count_annotation certificate_count_key gw.annotations;
  rule_count = count_annotation rule_count_key gw.annotations;
  load_balancer_dns = last_hostname "" gw.addresses;
  load_balancer_zone = "";
}

-- The capacity test of `SelectGateway`.
abbrev pub has_capacity : GatewayInfo → Bool
has_capacity info =
    ltb_nat info.certificate_count max_certificates_per_gateway
    && ltb_nat info.rule_count max_rules_per_gateway

-- What the loop of `SelectGateway` asks of a gateway before it looks at its capacity.
unfoldable pub is_eligible : Pool → String → String → Option (Dict String → Bool) → Gateway → Bool
is_eligible p visibility waf_arn selector gw =
    (gw.gateway_class_name == p.gateway_class)
    && ((get visibility_key gw.annotations == visibility)
        && ((waf_arn == get waf_key gw.annotations)
            && elim selector [ none ↦ true | some matches ↦ matches gw.labels ]))

-- The loop of `SelectGateway`.
unfoldable pub first_fit :
    Pool → String → String → Option (Dict String → Bool) → List Gateway → Option GatewayInfo
unfolding is_eligible get_gateway_info
first_fit p visibility waf_arn selector [] = none
first_fit p visibility waf_arn selector (gw ∷ items) =
    let rest = first_fit p visibility waf_arn selector items in
    if is_eligible p visibility waf_arn selector gw
    then (let info = get_gateway_info gw in if has_capacity info then some info else rest)
    else rest

-- One round of the loop of `GetNextGatewayIndex`: an index that is not above the maximum, a
-- negative one also, leaves it, and so does a name that is not read.
unfoldable pub larger : ℕ → Option ℤ → ℕ
larger m none = m
larger m (some (pos n)) = if ltb m n then n else m
larger m (some (negsuc n)) = m

unfoldable pub max_index : ℕ → List Gateway → ℕ
unfolding larger
max_index m [] = m
max_index m (gw ∷ items) = max_index (larger m (scan_gateway_index gw.name)) items

abbrev pub gateway_name : ℤ → String
gateway_name index = "gw-" <> format_two index

abbrev pub config_name : String → String
config_name gateway = gateway <> "-config"

abbrev pub from_all : AllowedRoutes
from_all = record { namespaces = some (record { from = some "All" }) }

-- The object that `CreateGateway` sends.
unfoldable pub new_gateway : Pool → String → String → ℤ → Gateway
new_gateway p visibility waf_arn index =
    let name = gateway_name index in
    record {
      namespace = p.namespace;
      name = name;
      resource_version = "";
      annotations =
          (visibility_key, visibility)
          ∷ (certificate_count_key, "0")
          ∷ (rule_count_key, "0")
          ∷ (config_key, config_name name)
          ∷ (waf_key, waf_arn)
          ∷ [];
      labels = [];
      gateway_class_name = p.gateway_class;
      parameters_ref = some (record {
        group = "gateway.k8s.aws";
        kind = "LoadBalancerConfiguration";
        name = config_name name;
      });
      listeners =
          record {
            name = "https";
            protocol = "HTTPS";
            port = p.https_port;
            allowed_routes = some from_all;
            tls = some (record {
              mode = some "Terminate";
              options = ("gateway.opendi.com/acm-managed", "true") ∷ [];
            });
          }
          ∷ record {
            name = "http";
            protocol = "HTTP";
            port = p.http_port;
            allowed_routes = some from_all;
            tls = none;
          }
          ∷ [];
      addresses = [];
    }

module _ {W : Type 0} (lib : Library) (sv : Services W) (p : Pool) where
  -- `metav1.LabelSelectorAsSelector`, where a selector is given.
  unfoldable pub compile : Option LabelSelector → Result Error (Option (Dict String → Bool))
  compile none = ok none
  compile (some s) = elim (lib.label_selector_as_selector s) [
    | ok matches ↦ ok (some matches)
    | err e ↦ err (wrap "invalid gateway selector" e)
  ]

  -- `SelectGateway`
  unfoldable pub select_gateway :
      String → String → Option LabelSelector → Exec W Error (Option GatewayInfo)
  unfolding compile first_fit
  select_gateway visibility waf_arn selector = do
    items ← map_err (wrap "failed to list gateways") (sv.list_gateways p.namespace)
    matches ← lift (compile selector)
    pure (first_fit p visibility waf_arn matches items)

  -- `CreateGateway`
  unfoldable pub create_gateway : String → String → ℤ → Exec W Error GatewayInfo
  unfolding new_gateway
  create_gateway visibility waf_arn index = do
    map_err (wrap ("failed to create gateway " <> gateway_name index))
        (sv.gateways.create (new_gateway p visibility waf_arn index))
    pure (record {
      name = gateway_name index;
      namespace = p.namespace;
      certificate_count = pos 0;
      rule_count = pos 0;
      load_balancer_dns = "";
      load_balancer_zone = "";
    })

  -- `GetNextGatewayIndex`
  unfoldable pub get_next_gateway_index : Exec W Error ℤ
  unfolding max_index
  get_next_gateway_index = do
    items ← map_err (wrap "failed to list gateways") (sv.list_gateways p.namespace)
    pure (int_succ (max_index 0 items))
