-- ===== src/Examples/Failures.antt =====
-- A concrete type of errors.
use istio_operator.Prelude.{
  ℕ, suc, ◌+◌, ◌<◌, Bool, true, false, ◌≡◌, subst, ap, String, List, [], ◌∷◌, Option, none, some,
  All, arith, concat,
}
use istio_operator.Errors.{Errors}
use istio_operator.Errors.Conflict.{IsNested}

pub data Failure : Type 0 where
  missing conflicting terminated : Failure
  failed : String → Failure
  wrapped : String → Failure → Failure
  both : Failure → Failure → Failure

abbrev pub is_missing : Failure → Bool
is_missing missing = true
is_missing _ = false

abbrev pub is_conflicting : Failure → Bool
is_conflicting conflicting = true
is_conflicting _ = false

abbrev pub parts : Failure → Option (List Failure)
parts (both a b) = some (a ∷ b ∷ [])
parts _ = none

abbrev pub inner : Failure → Option Failure
inner (wrapped s e) = some e
inner _ = none

abbrev pub size : Failure → ℕ
size missing = 0
size conflicting = 0
size terminated = 0
size (failed s) = 0
size (wrapped s e) = suc (size e)
size (both a b) = suc (size a + size b)

abbrev pub all_of_them : Failure → List Failure → Failure
all_of_them e [] = e
all_of_them e (x ∷ xs) = both e (all_of_them x xs)

abbrev pub aggregate : List Failure → Option Failure
aggregate [] = none
aggregate (e ∷ es) = some (all_of_them e es)

abbrev pub text : Failure → String
text missing = "not found"
text conflicting = "conflict"
text terminated = "namespace is being deleted"
text (failed s) = s
text (wrapped s e) = concat (s ∷ ": " ∷ text e ∷ [])
text (both a b) = concat (text a ∷ ", " ∷ text b ∷ [])

abbrev pub failures : Errors Failure
failures = record {
  is_not_found = is_missing;
  is_api_conflict = is_conflicting;
  is_no_match = λ e. false;
  errors_of = parts;
  unwrap = inner;
  cause = inner;
  depth = size;
  new_aggregate = aggregate;
  wrap = wrapped;
  errorf = failed;
  message = text;
  terminating = terminated;
}

of_some : {A : Type 0} → A → Option A → A
of_some a none = a
of_some a (some x) = x

parts_smaller :
    (e : Failure) (es : List Failure) → parts e ≡ some es → All (λ x. size x < size e) es
unfolding of_some
parts_smaller (both a b) es h =
    subst (All (λ x. size x < size (both a b))) (ap (of_some []) h) (omega arith, (omega arith, tt))
parts_smaller missing es h = cc h
parts_smaller conflicting es h = cc h
parts_smaller terminated es h = cc h
parts_smaller (failed s) es h = cc h
parts_smaller (wrapped s e) es h = cc h

inner_smaller : (e x : Failure) → inner e ≡ some x → size x < size e
unfolding of_some
inner_smaller (wrapped s e) x h =
    subst (λ y. size y < suc (size e)) (ap (of_some e) h) (omega arith)
inner_smaller missing x h = cc h
inner_smaller conflicting x h = cc h
inner_smaller terminated x h = cc h
inner_smaller (failed s) x h = cc h
inner_smaller (both a b) x h = cc h

pub failures-IsNested : IsNested failures
failures-IsNested = record {
  nested_errors = parts_smaller;
  nested_unwrap = inner_smaller;
  nested_cause = inner_smaller;
}
