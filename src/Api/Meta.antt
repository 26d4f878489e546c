-- ===== src/Api/Meta.antt =====
-- Object metadata, conditions and label selectors, as far as the program touches them, and Go's
-- `error` values.
use Prim.Native.String.{String, ◌++◌}
use gateway_orchestrator.Prelude.{ℕ, Bool, true, false, Option, List}
use gateway_orchestrator.Prelude.Dict.{Dict}

-- `external` is an error that a called library returns; `errorf` and `wrap` are `fmt.Errorf`, the
-- second with `: %w` at its end; `not_ready` is `ErrValidationRecordsNotReady` (certificate.go).
pub data Error : Type 0 where
  external : String → Error
  errorf : String → Error
  wrap : String → Error → Error
  not_ready : Error

-- `err.Error()`
unfoldable pub error_text : Error → String
error_text (external m) = m
error_text (errorf m) = m
error_text (wrap m e) = m ++ ": " ++ error_text e
error_text not_ready = "validation records not ready"

-- `errors.Is(err, ErrValidationRecordsNotReady)`
unfoldable pub is_not_ready : Error → Bool
is_not_ready (external m) = false
is_not_ready (errorf m) = false
is_not_ready (wrap m e) = is_not_ready e
is_not_ready not_ready = true

pub record NamespacedName : Type 0 where
  pub namespace : String
  pub name : String

-- The fields of `metav1.ObjectMeta` that a request's handlers read; a timestamp is a text.
pub record ObjectMeta : Type 0 where
  pub namespace : String
  pub name : String
  pub uid : String
  pub generation : ℕ
  pub resource_version : String
  pub deletion_timestamp : Option String
  pub finalizers : List String

-- `metav1.Condition`
pub record Condition : Type 0 where
  pub type : String
  pub status : String
  pub observed_generation : ℕ
  pub reason : String
  pub message : String

pub record Requirement : Type 0 where
  pub key : String
  pub operator : String
  pub values : List String

-- `metav1.LabelSelector`
pub record LabelSelector : Type 0 where
  pub match_labels : Dict String
  pub match_expressions : List Requirement
