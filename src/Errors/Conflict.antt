-- ===== src/Errors/Conflict.antt =====
-- pkg/controller/common/conflicts.go
use istio_operator.Prelude.{
  ℕ, zero, suc, ◌<◌, Bool, true, false, ◌≡◌, Option, none, some, List, [], ◌∷◌, ◌&&◌, if◌then◌else◌,
  All,
}
use istio_operator.Errors.{Errors}

pub record ReconcileResult : Type 0 where
  pub requeue : Bool
  -- in seconds
  pub requeue_after : ℕ

-- reconcile.Result{}
abbrev pub done : ReconcileResult
done = record { requeue = false; requeue_after = 0 }

unfoldable pub all_of : {E : Type 0} → (E → Bool) → List E → Bool
all_of p [] = true
all_of p (e ∷ es) = p e && all_of p es

module _ {E : Type 0} (errors : Errors E) where
  open errors use {is_api_conflict, errors_of, unwrap, cause, depth}

  -- The two tails of the chain of tests: `errors.Unwrap`, then `errors2.Cause`.
  unfoldable pub conflict_cause : (E → Bool) → Option E → Bool
  conflict_cause again none = false
  conflict_cause again (some e) = again e

  unfoldable pub conflict_unwrap : (E → Bool) → E → Option E → Bool
  unfolding conflict_cause
  conflict_unwrap again e none = conflict_cause again (cause e)
  conflict_unwrap again e (some inner) = again inner

  -- `err.(Aggregate)`, which counts only if it holds an error
  unfoldable pub conflict_aggregate : (E → Bool) → E → Option (List E) → Bool
  unfolding conflict_unwrap all_of
  conflict_aggregate again e none = conflict_unwrap again e (unwrap e)
  conflict_aggregate again e (some []) = conflict_unwrap again e (unwrap e)
  conflict_aggregate again e (some (x ∷ xs)) = all_of again (x ∷ xs)

  unfoldable pub is_conflict_fuel : ℕ → E → Bool
  unfolding conflict_aggregate
  is_conflict_fuel zero e = false
  is_conflict_fuel (suc f) e =
      if is_api_conflict e then true else conflict_aggregate (is_conflict_fuel f) e (errors_of e)

  -- IsConflict(err)
  unfoldable pub is_conflict : E → Bool
  unfolding is_conflict_fuel
  is_conflict e = is_conflict_fuel (suc (depth e)) e

  -- What the libraries promise: an error nests only errors of a smaller depth.
  pub record IsNested : Type 0 where
    pub nested_errors :
        (e : E) (es : List E) → errors_of e ≡ some es → All (λ x. depth x < depth e) es
    pub nested_unwrap : (e x : E) → unwrap e ≡ some x → depth x < depth e
    pub nested_cause : (e x : E) → cause e ≡ some x → depth x < depth e

  -- conflictHandlingReconciler.Reconcile, given what the wrapped reconciler returned
  unfoldable pub handle_conflict : ReconcileResult × Option E → ReconcileResult × Option E
  handle_conflict (result, none) = (result, none)
  handle_conflict (result, some e) =
      if is_conflict e
      then (record { requeue = true; requeue_after = 5 }, none)
      else (result, some e)
