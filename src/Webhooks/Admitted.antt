-- ===== src/Webhooks/Admitted.antt =====
-- What an admission by MemberRollValidator.Handle
-- (pkg/controller/servicemesh/webhooks/validation/memberroll.go) guarantees of the roll.
use istio_operator.Prelude.{
  Bool, true, false, ◌≡◌, refl, String, List, ◌∷◌, none, ◌==◌, eq_iff, arith, has,
}
use istio_operator.Prog.{ok, ◌>>=◌}
use istio_operator.Kube.{Env, Call, call, MemberRoll, list_rolls}
use istio_operator.Common.{member_roll_name}
use istio_operator.Webhooks.Admission.{Request, errored, watching, bad_request}
use istio_operator.Webhooks.MemberRolls.{check_user, check_roll, handle}
use istio_operator.Webhooks.Guards.{
  Admits, passed_when, passed_error, passed_result, not_skipped, found_result,
}
use istio_operator.Webhooks.Duplicates.{
  NoDuplicates, duplicates_error-NoDuplicates, is_listed_elsewhere, members_error_lem,
}

module _ {E : Type 0} (env : Env E) where
  open env use {reply, operator_namespace}

  -- What the roll must be, given the rolls of the cluster.
  abbrev pub IsAdmissible : MemberRoll → List MemberRoll → Type 0
  IsAdmissible smmr rolls =
      (smmr.meta.name ≡ member_roll_name)
      × ((smmr.meta.namespace == operator_namespace) ≡ false)
      × NoDuplicates smmr.members
      × ((ns : String)
          → has ns smmr.members ≡ true
          → ((smmr.meta.namespace == ns) ≡ false)
            × (is_listed_elsewhere smmr rolls ns ≡ false)
            × (is_listed_elsewhere smmr rolls "*" ≡ false)
            × (ns ≡ "*" → (other : String) → is_listed_elsewhere smmr rolls other ≡ false))

  module _ (late : E → Bool) (arrival : List String → List String)
      (request : Request E MemberRoll) where
    check_roll-Admits :
        (smmr : MemberRoll) (log : List Call)
        → Admits (check_roll env late arrival request smmr) log
        → (rolls : List MemberRoll) × (reply log list_rolls ≡ ok rolls)
          × IsAdmissible smmr rolls
          × Admits (check_user env late arrival request smmr) (list_rolls ∷ log)
    unfolding check_roll call ◌>>=◌ bad_request
    check_roll-Admits smmr log admits =
        let (named, h1) = passed_when _ _ _ log tt admits in
        let (elsewhere, h2) = passed_when _ _ _ log tt h1 in
        let (names, h3) = passed_error _ _ log h2 in
        let (distinct, h4) = passed_error _ _ log h3 in
        let (rolls, answer, h5) = passed_result _ _ (errored 500) (list_rolls ∷ log) (λ e. tt) h4 in
        let (apart, h6) = passed_error _ _ (list_rolls ∷ log) h5 in
        (
          rolls,
          answer,
          (
            (eq_iff smmr.meta.name member_roll_name).0 (ground arith),
            elsewhere,
            duplicates_error-NoDuplicates smmr.members distinct,
            members_error_lem smmr rolls apart,
          ),
          h6,
        )

    -- A member roll in a watched namespace that is not being deleted is admitted only if the API
    -- server has listed the rolls, and then: it is named `default` and not in the operator's
    -- namespace; no member occurs twice; no member is the roll's own namespace; no other roll lists
    -- a member of this one, or `*` if this one has a member; if this one lists `*`, no other roll
    -- lists anything; and the checks of the user's access have passed.
    pub handle-Admits :
        (filter : String) (smmr : MemberRoll) (log : List Call)
        → request.object ≡ ok smmr
        → watching filter smmr.meta.namespace ≡ true
        → smmr.meta.deletion_timestamp ≡ none
        → Admits (handle env filter late arrival request) log
        → (rolls : List MemberRoll) × (reply log list_rolls ≡ ok rolls)
          × IsAdmissible smmr rolls
          × Admits (check_user env late arrival request smmr) (list_rolls ∷ log)
    unfolding handle
    handle-Admits filter smmr log decoded watched kept admits = check_roll-Admits smmr log (
        not_skipped _ _ _ log (rw (watched, kept) refl)
          (found_result _ _ _ log smmr decoded admits))
