-- ===== src/Errors.antt =====
-- Go errors, and pkg/controller/common/conflicts.go.
-- How the libraries build and classify errors is a parameter.
pub mod Conflict
pub mod Fuel
pub mod Conflicts
use istio_operator.Prelude.{ℕ, Bool, String, Option, List}

pub record Errors (E : Type 0) : Type 0 where
  -- k8s.io/apimachinery/pkg/api/errors: IsNotFound and IsConflict; pkg/api/meta: IsNoMatchError
  pub is_not_found : E → Bool
  pub is_api_conflict : E → Bool
  pub is_no_match : E → Bool
  -- `err.(Aggregate)` and `Errors()`; errors.Unwrap; pkg/errors' Cause, `none` if it is `err` itself
  pub errors_of : E → Option (List E)
  pub unwrap : E → Option E
  pub cause : E → Option E
  -- how many errors are nested at most; it bounds the recursion of IsConflict
  pub depth : E → ℕ
  -- utilerrors.NewAggregate; pkg/errors' Wrapf; fmt.Errorf; err.Error()
  pub new_aggregate : List E → Option E
  pub wrap : String → E → E
  pub errorf : String → E
  pub message : E → String
  -- &NamespaceTerminatingError{} of pkg/controller/servicemesh/member/namespace_reconciler.go
  pub terminating : E
