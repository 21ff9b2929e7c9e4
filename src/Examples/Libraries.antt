-- ===== src/Examples/Libraries.antt =====
-- Conditions, annotations, labels, versions and errors.
use istio_operator.Prelude.{
  ◌≡◌, ◌≢◌, refl, true, List, [], ◌∷◌, ◌==◌, if◌then◌else◌, lookup, insert, leb, ◌↔◌, ◌&&◌, pos,
  arith,
}
use istio_operator.Prog.{ok}
use istio_operator.Status.{Condition, unknown, get_condition, set_condition, remove_condition}
use istio_operator.Status.Conditions.{
  IsUnique, present, get-set_condition, set_condition-IsUnique, get-remove_condition, count_type,
}
use istio_operator.Errors.Conflict.{is_conflict}
use istio_operator.Errors.Conflicts.{IsConflicting, is_conflict_lem}
use istio_operator.Versions.{
  v2_0, v2_1, v2_2, v2_3, add_strings, at_least, ver_eq, invalid_version, version_string,
  parse_version, string_to_version, supported_versions, is_supported, to_int, compare,
}
use istio_operator.Versions.Parsing.{parse_version-version_string, version_string-parse_version}
use istio_operator.Versions.Support.{
  is_supported_iff, compare_lem, is_negative, is_positive, is_older, release, release_name,
}
use istio_operator.Examples.Failures.{failures, failures-IsNested, both, conflicting, wrapped}
use istio_operator.Examples.World.{reconciled}

abbrev ready : Condition
ready = record {
  type = "Ready";
  status = "False";
  reason = "";
  message = "";
  last_transition_time = 1;
}

abbrev conditions : List Condition
conditions = reconciled ∷ ready ∷ []

no_conditions : IsUnique []
unfolding count_type
no_conditions = record { once = λ t. omega arith }

two_conditions : IsUnique conditions
unfolding set_condition
two_conditions = set_condition-IsUnique 1 ready (set_condition-IsUnique 5 reconciled no_conditions)

get-set_condition_example : get_condition "Ready" (set_condition 9 ready conditions) ≡ (
    if ready.type == "Ready"
    then record ready {
      last_transition_time =
          if present "Ready" conditions
            && ((get_condition "Ready" conditions).status == ready.status)
          then (get_condition "Ready" conditions).last_transition_time
          else 9;
    }
    else get_condition "Ready" conditions)
get-set_condition_example = get-set_condition 9 ready conditions "Ready"

set_condition-IsUnique_example : IsUnique (set_condition 9 ready conditions)
set_condition-IsUnique_example = set_condition-IsUnique 9 ready two_conditions

get-remove_condition_example :
    get_condition "Ready" (remove_condition "Ready" conditions)
    ≡ (if "Ready" == "Ready" then unknown "Ready" else get_condition "Ready" conditions)
get-remove_condition_example = get-remove_condition conditions "Ready" "Ready" two_conditions

is_conflict_lem_example :
    let e = both conflicting (wrapped "could not update" conflicting) in
    (is_conflict failures e ≡ true) ↔ IsConflicting failures e
is_conflict_lem_example =
    is_conflict_lem failures failures-IsNested
      (both conflicting (wrapped "could not update" conflicting))

parse_version-version_string_example : parse_version failures (version_string v2_1) ≡ ok v2_1
parse_version-version_string_example = parse_version-version_string failures v2_1 (λ e. cc e)

version_string-parse_version_example : (version_string v2_1 ≡ "v2.1") × (v2_1 ≢ invalid_version)
unfolding parse_version string_to_version add_strings ver_eq to_int version_string insert lookup
version_string-parse_version_example = version_string-parse_version failures "v2.1" v2_1 refl

is_supported_iff_example :
    is_supported (v2_1 ∷ v2_2 ∷ v2_3 ∷ []) v2_0 ≡ leb (to_int v2_1) (to_int v2_0)
unfolding supported_versions string_to_version add_strings ver_eq to_int version_string insert
    lookup at_least
is_supported_iff_example = is_supported_iff "v2.1" v2_1 v2_0 (v2_1 ∷ v2_2 ∷ v2_3 ∷ []) refl refl

compare_lem_example :
    (is_negative (compare v2_0 v2_3) ≡ is_older v2_0 v2_3)
    × (is_positive (compare v2_0 v2_3) ≡ is_older v2_3 v2_0)
    × ((compare v2_0 v2_3 ≡ pos 0) ↔ (v2_0 ≡ v2_3))
    × (version_string v2_0 ≡ release_name (release v2_0))
compare_lem_example = compare_lem v2_0 v2_3
