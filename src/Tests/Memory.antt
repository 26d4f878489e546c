-- ===== src/Tests/Memory.antt =====
-- A world in memory: an API server that keeps lists of objects, and the mock clients of AWS.
use gateway_orchestrator.Prelude.{
  String, ◌<>◌, true, false, not, Option, none, some, List, [], ◌∷◌, Exec, ok, err, ◌==◌,
  if◌then◌else◌, any,
}
use gateway_orchestrator.Prelude.Dict.{get}
use gateway_orchestrator.Api.Meta.{Error, external, error_text, NamespacedName}
use gateway_orchestrator.Api.Request.{Request}
use gateway_orchestrator.Api.Claim.{DomainClaim}
use gateway_orchestrator.Api.Cluster.{Gateway, Namespace, LbConfig}
use gateway_orchestrator.Aws.Mock.{
  MockAcmClient, new_mock_acm_client, mock_acm, MockRoute53Client, mock_route53,
}
use gateway_orchestrator.Services.{Objects, Services, Library}

abbrev pub not_found : Error
not_found = external "not found"

abbrev pub already_exists : Error
already_exists = external "already exists"

module _ {O : Type 0} (name_of : O → String) where
  unfoldable pub named : String → List O → Option O
  named n [] = none
  named n (o ∷ objects) = if name_of o == n then some o else named n objects

  unfoldable pub without : String → List O → List O
  without n [] = []
  without n (o ∷ objects) =
      let rest = without n objects in if name_of o == n then rest else o ∷ rest

pub record World : Type 0 where
  pub requests : List Request
  pub claims : List DomainClaim
  pub gateways : List Gateway
  pub configs : List LbConfig
  pub namespaces : List Namespace
  pub acm : MockAcmClient
  pub route53 : MockRoute53Client

module _ {O : Type 0} (name_of : O → String) (name_of_key : NamespacedName → String)
    (read : World → List O) (write : List O → World → World) where
  abbrev get_object : NamespacedName → Exec World Error O
  get_object k w = elim (named name_of (name_of_key k) (read w)) [
    | none ↦ (err not_found, w)
    | some o ↦ (ok o, w)
  ]

  abbrev create_object : O → Exec World Error (Unit {0})
  create_object o w = elim (named name_of (name_of o) (read w)) [
    | none ↦ (ok tt, write (o ∷ read w) w)
    | some _ ↦ (err already_exists, w)
  ]

  abbrev update_object : O → Exec World Error O
  update_object o w = elim (named name_of (name_of o) (read w)) [
    | none ↦ (err not_found, w)
    | some _ ↦ (ok o, write (o ∷ without name_of (name_of o) (read w)) w)
  ]

  abbrev delete_object : O → Exec World Error (Unit {0})
  delete_object o w = elim (named name_of (name_of o) (read w)) [
    | none ↦ (err not_found, w)
    | some _ ↦ (ok tt, write (without name_of (name_of o) (read w)) w)
  ]

  abbrev pub objects_in : Objects World O
  objects_in = record {
    get = get_object;
    create = create_object;
    update = update_object;
    delete = delete_object;
  }

abbrev pub lib : Library
lib = record {
  is_not_found = λ e. error_text e == "not found";
  is_already_exists = λ e. error_text e == "already exists";
  ignore_not_found = λ e. if error_text e == "not found" then none else some e;
  set_status_condition = λ cs c. c ∷ without (λ d. d.type) c.type cs;
  remove_status_condition = λ cs t. without (λ d. d.type) t cs;
  find_status_condition = λ cs t. named (λ d. d.type) t cs;
  is_status_condition_true =
      λ cs t. elim (named (λ d. d.type) t cs) [ none ↦ false | some c ↦ c.status == "True" ];
  contains_finalizer = λ fs f. elim (named (λ x. x) f fs) [ none ↦ false | some _ ↦ true ];
  add_finalizer = λ fs f. f ∷ without (λ x. x) f fs;
  remove_finalizer = λ fs f. without (λ x. x) f fs;
  label_selector_as_selector =
      λ s. ok (λ labels. not (any (λ (k, v). not (get k labels == v)) s.match_labels));
  sum256 = λ s. 1 ∷ 2 ∷ 3 ∷ 4 ∷ 5 ∷ 6 ∷ 7 ∷ 8 ∷ 9 ∷ [];
}

abbrev in_namespace : NamespacedName → String
in_namespace k = k.namespace <> "/" <> k.name

abbrev pub server : Services World
server = record {
  requests =
      objects_in (λ g. g.meta.namespace <> "/" <> g.meta.name) in_namespace (λ w. w.requests)
        (λ l w. record w { requests = l });
  update_status =
      (objects_in (λ (g : Request). g.meta.namespace <> "/" <> g.meta.name) in_namespace
        (λ w. w.requests) (λ l w. record w { requests = l })).update;
  list_requests = λ w. (ok w.requests, w);
  claims = objects_in (λ c. c.name) (λ k. k.name) (λ w. w.claims) (λ l w. record w { claims = l });
  gateways =
      objects_in (λ g. g.namespace <> "/" <> g.name) in_namespace (λ w. w.gateways)
        (λ l w. record w { gateways = l });
  list_gateways = λ n w. (ok w.gateways, w);
  configs =
      objects_in (λ g. g.namespace <> "/" <> g.name) in_namespace (λ w. w.configs)
        (λ l w. record w { configs = l });
  namespaces =
      objects_in (λ g. g.name) (λ k. k.name) (λ w. w.namespaces)
        (λ l w. record w { namespaces = l });
  event = λ g t reason message w. w;
  now = λ w. "2025-01-01T00:00:00Z";
  acm = record {
    request_certificate =
        λ d t w. let (x, m) = mock_acm.request_certificate d t w.acm in (x, record w { acm = m });
    describe_certificate =
        λ a w. let (x, m) = mock_acm.describe_certificate a w.acm in (x, record w { acm = m });
    delete_certificate =
        λ a w. let (x, m) = mock_acm.delete_certificate a w.acm in (x, record w { acm = m });
    get_validation_records =
        λ a w. let (x, m) = mock_acm.get_validation_records a w.acm in (x, record w { acm = m });
  };
  route53 = record {
    create_or_update_record = λ z d w.
        let (x, m) = mock_route53.create_or_update_record z d w.route53 in
        (x, record w { route53 = m });
    delete_record = λ z d w.
        let (x, m) = mock_route53.delete_record z d w.route53 in (x, record w { route53 = m });
    get_record = λ z n t w.
        let (x, m) = mock_route53.get_record z n t w.route53 in (x, record w { route53 = m });
  };
}

abbrev pub empty_world : World
empty_world = record {
  requests = [];
  claims = [];
  gateways = [];
  configs = [];
  namespaces = [];
  acm = new_mock_acm_client;
  route53 = [];
}
