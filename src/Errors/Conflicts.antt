-- ===== src/Errors/Conflicts.antt =====
-- Which errors IsConflict of pkg/controller/common/conflicts.go takes for conflicts.
use istio_operator.Prelude.{
  ℕ, zero, suc, Bool, true, ◌≡◌, ◌↔◌, ◌⊎◌, inl, inr, refl, Option, none, some, List, [], ◌∷◌, arith,
  ◌∙◌, Bool-cases,
}
use istio_operator.Errors.{Errors}
use istio_operator.Errors.Conflict.{
  all_of, conflict_cause, conflict_unwrap, conflict_aggregate, is_conflict_fuel, is_conflict,
  IsNested,
}
use istio_operator.Errors.Fuel.{is_conflict_step}

-- An error that is no aggregate, or an aggregate of nothing.
abbrev pub IsSingle : {E : Type 0} → Errors E → E → Type 0
IsSingle errors e = (errors.errors_of e ≡ none) ⊎ (errors.errors_of e ≡ some [])

-- The errors that stand for conflicts, as finite derivations: those that the API reports as such; the
-- aggregates of at least one error all of whose errors are; and what wraps one, where unwrapping comes
-- before the cause, and neither counts for an aggregate of at least one error.
mutual
  pub data IsConflicting {E : Type 0} (errors : Errors E) : E → Type 0 where
    reported : {e : E} → errors.is_api_conflict e ≡ true → IsConflicting errors e
    aggregated :
        {e x : E} {xs : List E}
        → errors.errors_of e ≡ some (x ∷ xs)
        → AreConflicting errors (x ∷ xs)
        → IsConflicting errors e
    unwrapped :
        {e x : E}
        → IsSingle errors e
        → errors.unwrap e ≡ some x
        → IsConflicting errors x
        → IsConflicting errors e
    caused :
        {e x : E}
        → IsSingle errors e
        → errors.unwrap e ≡ none
        → errors.cause e ≡ some x
        → IsConflicting errors x
        → IsConflicting errors e

  pub data AreConflicting {E : Type 0} (errors : Errors E) : List E → Type 0 where
    no_more : AreConflicting errors []
    one_more :
        {x : E} {xs : List E}
        → IsConflicting errors x
        → AreConflicting errors xs
        → AreConflicting errors (x ∷ xs)

module _ {E : Type 0} (errors : Errors E) where
  open errors use {is_api_conflict, errors_of, unwrap, cause}

  -- A test that is passed by conflicts only.
  abbrev IsSound : (E → Bool) → Type 0
  IsSound p = (x : E) → p x ≡ true → IsConflicting errors x

  all_sound :
      (p : E → Bool) → IsSound p → (es : List E) → all_of p es ≡ true → AreConflicting errors es
  unfolding all_of
  all_sound p sound [] h = no_more
  all_sound p sound (e ∷ es) h = elim (Bool-cases (p e)) [
    | inl passed ↦ one_more (sound e passed) (all_sound p sound es (ground (arith, passed, h)))
    | inr other ↦ absurd (ground (arith, other, h))
  ]

  module _ (p : E → Bool) (sound : IsSound p) (e : E) where
    cause_sound :
        (o : Option E)
        → IsSingle errors e
        → unwrap e ≡ none
        → cause e ≡ o
        → conflict_cause errors p o ≡ true
        → IsConflicting errors e
    unfolding conflict_cause
    cause_sound none single u c h = absurd (ground (arith, h))
    cause_sound (some x) single u c h = caused single u c (sound x h)

    unwrap_sound :
        (o : Option E)
        → IsSingle errors e
        → unwrap e ≡ o
        → conflict_unwrap errors p e o ≡ true
        → IsConflicting errors e
    unfolding conflict_unwrap
    unwrap_sound none single u h = cause_sound (cause e) single u refl h
    unwrap_sound (some x) single u h = unwrapped single u (sound x h)

    aggregate_sound :
        (o : Option (List E))
        → errors_of e ≡ o
        → conflict_aggregate errors p e o ≡ true
        → IsConflicting errors e
    unfolding conflict_aggregate
    aggregate_sound none a h = unwrap_sound (unwrap e) (inl a) refl h
    aggregate_sound (some []) a h = unwrap_sound (unwrap e) (inr a) refl h
    aggregate_sound (some (x ∷ xs)) a h = aggregated a (all_sound p sound (x ∷ xs) h)

  fuel-IsSound : (f : ℕ) → IsSound (is_conflict_fuel errors f)
  unfolding is_conflict_fuel
  fuel-IsSound zero e h = absurd (ground (arith, h))
  fuel-IsSound (suc f) e h = elim (Bool-cases (is_api_conflict e)) [
    | inl passed ↦ reported passed
    | inr other ↦
        aggregate_sound (is_conflict_fuel errors f) (fuel-IsSound f) e (errors_of e) refl
          (rw other at h)
  ]

  module _ (nested : IsNested errors) where
    single_lem :
        (e : E)
        → IsSingle errors e
        → conflict_aggregate errors (is_conflict errors) e (errors_of e)
          ≡ conflict_unwrap errors (is_conflict errors) e (unwrap e)
    unfolding conflict_aggregate
    single_lem e (inl h) = rw h refl
    single_lem e (inr h) = rw h refl

    -- What follows the test of the API's conflicts decides, if it is passed.
    else_lem :
        (e : E)
        → conflict_aggregate errors (is_conflict errors) e (errors_of e) ≡ true
        → is_conflict errors e ≡ true
    else_lem e h = is_conflict_step errors nested e ∙ ground (arith, h)

    mutual
      unfolding conflict_aggregate conflict_unwrap conflict_cause all_of

      complete : {e : E} → IsConflicting errors e → is_conflict errors e ≡ true
      complete {e} (reported h) = is_conflict_step errors nested e ∙ rw h refl
      complete {e} (aggregated a all) = else_lem e (rw a (complete_all all))
      complete {e} (unwrapped s u c) = else_lem e (single_lem e s ∙ rw u (complete c))
      complete {e} (caused s u d c) = else_lem e (single_lem e s ∙ rw (u, d) (complete c))

      complete_all :
          {es : List E} → AreConflicting errors es → all_of (is_conflict errors) es ≡ true
      complete_all no_more = refl
      complete_all (one_more c cs) = ground (arith, complete c, complete_all cs)

    -- Where the libraries nest errors only in errors of a greater depth, IsConflict, on the fuel
    -- that it is given, accepts exactly the errors that stand for conflicts: those that the API
    -- reports as such; the aggregates of at least one error all of whose errors do; and the other
    -- errors that unwrap to such an error, or unwrap to nothing and have such an error as their
    -- cause.
    pub is_conflict_lem : (e : E) → (is_conflict errors e ≡ true) ↔ IsConflicting errors e
    unfolding is_conflict
    is_conflict_lem e = (fuel-IsSound (suc (errors.depth e)) e, complete)
