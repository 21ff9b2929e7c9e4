-- ===== src/Errors/Fuel.antt =====
-- IsConflict (pkg/controller/common/conflicts.go) recurs on nested errors, in the model on fuel.
use istio_operator.Prelude.{
  ℕ, zero, suc, ◌<◌, Bool, true, ◌≡◌, refl, ap, Option, none, some, List, [], ◌∷◌, arith,
  if◌then◌else◌, All,
}
use istio_operator.Errors.{Errors}
use istio_operator.Errors.Conflict.{
  all_of, conflict_cause, conflict_unwrap, conflict_aggregate, is_conflict_fuel, is_conflict,
  IsNested,
}

module _ {E : Type 0} (errors : Errors E) where
  open errors use {is_api_conflict, errors_of, unwrap, cause, depth}

  -- Two recursive calls that agree below `n` give one result.
  abbrev AgreeBelow : ℕ → (E → Bool) → (E → Bool) → Type 0
  AgreeBelow n p q = (x : E) → depth x < n → p x ≡ q x

  all_of_agree :
      (n : ℕ) (p q : E → Bool) (es : List E)
      → AgreeBelow n p q
      → All (λ x. depth x < n) es
      → all_of p es ≡ all_of q es
  unfolding all_of
  all_of_agree n p q [] h a = refl
  all_of_agree n p q (x ∷ xs) h (b, a) = cc (h x b, all_of_agree n p q xs h a)

  module _ (nested : IsNested errors) (e : E) (p q : E → Bool) (h : AgreeBelow (depth e) p q) where
    cause_agree :
        (o : Option E) → cause e ≡ o → conflict_cause errors p o ≡ conflict_cause errors q o
    unfolding conflict_cause
    cause_agree none eq = refl
    cause_agree (some x) eq = h x (nested.nested_cause e x eq)

    unwrap_agree :
        (o : Option E) → unwrap e ≡ o → conflict_unwrap errors p e o ≡ conflict_unwrap errors q e o
    unfolding conflict_unwrap
    unwrap_agree none eq = cause_agree (cause e) refl
    unwrap_agree (some x) eq = h x (nested.nested_unwrap e x eq)

    aggregate_agree :
        (o : Option (List E))
        → errors_of e ≡ o
        → conflict_aggregate errors p e o ≡ conflict_aggregate errors q e o
    unfolding conflict_aggregate
    aggregate_agree none eq = unwrap_agree (unwrap e) refl
    aggregate_agree (some []) eq = unwrap_agree (unwrap e) refl
    aggregate_agree (some (x ∷ xs)) eq =
        all_of_agree (depth e) p q (x ∷ xs) h (nested.nested_errors e (x ∷ xs) eq)

  fuel_agree :
      IsNested errors
      → (f g : ℕ) (e : E) → depth e < f
      → depth e < g
      → is_conflict_fuel errors f e ≡ is_conflict_fuel errors g e
  unfolding is_conflict_fuel
  fuel_agree nested zero g e hf hg = absurd (omega arith)
  fuel_agree nested (suc f) zero e hf hg = absurd (omega arith)
  fuel_agree nested (suc f) (suc g) e hf hg =
      ap (λ b. if is_api_conflict e then true else b)
        (aggregate_agree nested e (is_conflict_fuel errors f) (is_conflict_fuel errors g)
          (λ x lt. fuel_agree nested f g x (omega arith) (omega arith)) (errors_of e) refl)

  -- The equation that IsConflict satisfies, without fuel.
  pub is_conflict_step :
      IsNested errors
      → (e : E)
      → is_conflict errors e ≡ (
          if is_api_conflict e
          then true
          else conflict_aggregate errors (is_conflict errors) e (errors_of e))
  unfolding is_conflict
  is_conflict_step nested e =
      ap (λ b. if is_api_conflict e then true else b)
        (aggregate_agree nested e (is_conflict_fuel errors (depth e)) (is_conflict errors)
          (λ x lt. fuel_agree nested (depth e) (suc (depth x)) x lt (omega arith)) (errors_of e)
          refl)
