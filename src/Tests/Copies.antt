-- ===== src/Tests/Copies.antt =====
-- A memory with a request in it, and the request's deep copy.
use gateway_orchestrator.Prelude.{
  refl, String, ℕ, Option, none, some, List, [], ◌∷◌, eqb, if◌then◌else◌,
}
use gateway_orchestrator.Api.Meta.{ObjectMeta, Condition, LabelSelector}
use gateway_orchestrator.Api.Claim.{OwnerRef, DomainClaimSpec}
use gateway_orchestrator.Api.DeepCopy.Heap.{Heap}
use gateway_orchestrator.Api.DeepCopy.Pointers.{plain}
use gateway_orchestrator.Api.DeepCopy.Behind.{behind}
use gateway_orchestrator.Api.DeepCopy.Types.{
  ClaimStatus, ClaimStruct, SpecStruct, StatusStruct, RequestStruct, GrantSpec, GrantStatus,
  GrantStruct, ListStruct, MetaTypes, Cells,
}
use gateway_orchestrator.Api.DeepCopy.Objects.{Object, hostname_request}

data Cell : Type 0 where
  time_cell : String → Cell
  selector_cell : LabelSelector → Cell
  conditions_cell : List Condition → Cell
  strings_cell : List String → Cell
  owner_ref_cell : OwnerRef → Cell
  claim_spec_cell : DomainClaimSpec → Cell
  claim_status_cell : ClaimStatus ℕ → Cell
  claim_cell : ClaimStruct ObjectMeta ℕ → Cell
  claims_cell : List (ClaimStruct ObjectMeta ℕ) → Cell
  request_spec_cell : SpecStruct ℕ → Cell
  request_status_cell : StatusStruct ℕ → Cell
  request_cell : RequestStruct ObjectMeta ℕ ℕ → Cell
  requests_cell : List (RequestStruct ObjectMeta ℕ ℕ) → Cell
  grant_spec_cell : GrantSpec ℕ → Cell
  grant_status_cell : GrantStatus ℕ → Cell
  grant_cell : GrantStruct ObjectMeta ℕ ℕ → Cell
  grants_cell : List (GrantStruct ObjectMeta ℕ ℕ) → Cell
  list_cell : ListStruct String ℕ → Cell

-- `*metav1.Time` is a pointer to a text; the other types of apimachinery hold no pointers here.
abbrev meta_types : MetaTypes Cell
meta_types = record {
  object_meta = plain ObjectMeta;
  list_meta = plain String;
  label_selector = plain LabelSelector;
  condition = plain Condition;
  time = behind (plain String) (record {
    box = time_cell;
    unbox = λ c. elim c [ time_cell x ↦ some x | _ ↦ none ];
    unbox_box = λ x. refl;
  });
}

abbrev cells : Cells meta_types
cells = record {
  selector = record {
    box = selector_cell;
    unbox = λ c. elim c [ selector_cell x ↦ some x | _ ↦ none ];
    unbox_box = λ x. refl;
  };
  conditions = record {
    box = conditions_cell;
    unbox = λ c. elim c [ conditions_cell x ↦ some x | _ ↦ none ];
    unbox_box = λ x. refl;
  };
  strings = record {
    box = strings_cell;
    unbox = λ c. elim c [ strings_cell x ↦ some x | _ ↦ none ];
    unbox_box = λ x. refl;
  };
  owner_ref = record {
    box = owner_ref_cell;
    unbox = λ c. elim c [ owner_ref_cell x ↦ some x | _ ↦ none ];
    unbox_box = λ x. refl;
  };
  claim_spec = record {
    box = claim_spec_cell;
    unbox = λ c. elim c [ claim_spec_cell x ↦ some x | _ ↦ none ];
    unbox_box = λ x. refl;
  };
  claim_status = record {
    box = claim_status_cell;
    unbox = λ c. elim c [ claim_status_cell x ↦ some x | _ ↦ none ];
    unbox_box = λ x. refl;
  };
  claim = record {
    box = claim_cell;
    unbox = λ c. elim c [ claim_cell x ↦ some x | _ ↦ none ];
    unbox_box = λ x. refl;
  };
  claims = record {
    box = claims_cell;
    unbox = λ c. elim c [ claims_cell x ↦ some x | _ ↦ none ];
    unbox_box = λ x. refl;
  };
  request_spec = record {
    box = request_spec_cell;
    unbox = λ c. elim c [ request_spec_cell x ↦ some x | _ ↦ none ];
    unbox_box = λ x. refl;
  };
  request_status = record {
    box = request_status_cell;
    unbox = λ c. elim c [ request_status_cell x ↦ some x | _ ↦ none ];
    unbox_box = λ x. refl;
  };
  request = record {
    box = request_cell;
    unbox = λ c. elim c [ request_cell x ↦ some x | _ ↦ none ];
    unbox_box = λ x. refl;
  };
  requests = record {
    box = requests_cell;
    unbox = λ c. elim c [ requests_cell x ↦ some x | _ ↦ none ];
    unbox_box = λ x. refl;
  };
  grant_spec = record {
    box = grant_spec_cell;
    unbox = λ c. elim c [ grant_spec_cell x ↦ some x | _ ↦ none ];
    unbox_box = λ x. refl;
  };
  grant_status = record {
    box = grant_status_cell;
    unbox = λ c. elim c [ grant_status_cell x ↦ some x | _ ↦ none ];
    unbox_box = λ x. refl;
  };
  grant = record {
    box = grant_cell;
    unbox = λ c. elim c [ grant_cell x ↦ some x | _ ↦ none ];
    unbox_box = λ x. refl;
  };
  grants = record {
    box = grants_cell;
    unbox = λ c. elim c [ grants_cell x ↦ some x | _ ↦ none ];
    unbox_box = λ x. refl;
  };
  item_list = record {
    box = list_cell;
    unbox = λ c. elim c [ list_cell x ↦ some x | _ ↦ none ];
    unbox_box = λ x. refl;
  };
}

abbrev meta : ObjectMeta
meta = record {
  namespace = "shop";
  name = "web";
  uid = "u-1";
  generation = 1;
  resource_version = "1";
  deletion_timestamp = none;
  finalizers = [];
}

abbrev edge : LabelSelector
edge = record { match_labels = ("zone", "edge") ∷ []; match_expressions = [] }

abbrev claimed : Condition
claimed = record {
  type = "Claimed";
  status = "True";
  observed_generation = 1;
  reason = "Claimed";
  message = "";
}

-- A request over what stands for its selector and its conditions.
abbrev a_request : {S C : Type 0} → S → C → RequestStruct ObjectMeta S C
a_request s c = record {
  type_meta = record {
    kind = "GatewayHostnameRequest";
    api_version = "gateway.opendi.com/v1alpha1";
  };
  object_meta = meta;
  spec = record {
    zone_id = "Z1";
    hostname = "shop.example.com";
    environment = "prod";
    visibility = "";
    gateway_class = "alb";
    gateway_selector = some s;
    waf_arn = "";
  };
  status = record {
    observed_generation = 1;
    observed_spec_hash = "";
    assigned_gateway = "";
    assigned_gateway_namespace = "";
    assigned_load_balancer = "";
    certificate_arn = "";
    conditions = some c;
  };
}

-- The selector at 0, the conditions at 1 and the request at 2.
abbrev cell_at : ℕ → Option Cell
cell_at p =
    if eqb p 0
    then some (selector_cell edge)
    else if eqb p 1
    then some (conditions_cell (claimed ∷ []))
    else if eqb p 2
    then some (request_cell (a_request 0 1))
    else none

abbrev memory : Heap Cell
memory = record { next = 3; cell = cell_at }

abbrev the_request : Object
the_request = record { kind = hostname_request; address = some 2 }
