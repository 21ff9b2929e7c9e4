-- ===== src/Webhooks/MemberRolls.antt =====
-- MemberRollValidator.Handle (pkg/controller/servicemesh/webhooks/validation/memberroll.go).
use istio_operator.Prelude.{
  ltb, nat_eq, length, not, ◌&&◌, ◌||◌, ◌==◌, Bool, String, List, [], ◌∷◌, Option, none, some,
  is_some, has, set_insert_all, new_set, concat, if◌then◌else◌,
}
use istio_operator.Prog.{Prog, pure, ◌>>=◌, on_result, on_error, when}
use istio_operator.Kube.{Env, Call, call, MemberRoll, list_rolls}
use istio_operator.Common.{member_roll_name}
use istio_operator.Roll.Membership.{is_cluster_scoped}
use istio_operator.Webhooks.Admission.{
  Request, Response, allowed, errored, bad_request, forbidden, watching,
}
use istio_operator.Webhooks.Access.{
  find_newly_added_namespaces, is_user_allowed_to_update_pods_in_all_namespaces,
  rejected_namespaces,
}

unfoldable pub same_roll : MemberRoll → MemberRoll → Bool
same_roll a b = a.meta.name == b.meta.name && a.meta.namespace == b.meta.namespace

-- namespacesInOtherMemberRolls
unfoldable pub namespaces_in_other_member_rolls :
    MemberRoll → List MemberRoll → List String → List String
namespaces_in_other_member_rolls smmr [] s = s
namespaces_in_other_member_rolls smmr (other ∷ others) s =
    namespaces_in_other_member_rolls smmr others
      (if same_roll other smmr then s else set_insert_all other.members s)

-- The loop over the members that compares them with those of other rolls and with the mesh.
unfoldable pub members_error : String → List String → List String → Option String
members_error mesh_namespace others [] = none
members_error mesh_namespace others (member ∷ members) =
    if (member == "*" && ltb 0 (length others)) || (has member others || has "*" others)
    then some "one or more members are already defined in another ServiceMeshMemberRoll"
    else if mesh_namespace == member
    then some "mesh project/namespace cannot be listed as a member"
    else members_error mesh_namespace others members

-- The check for duplicates.
unfoldable pub duplicates_error : List String → Option String
duplicates_error members =
    if nat_eq (length (new_set members)) (length members)
    then none
    else some "ServiceMeshMemberRoll may not contain duplicate namespaces in .spec.members"

module _ {E : Type 0} (env : Env E) where
  open env use {errors, operator_namespace, matches_regexp, print_list}

  -- The loop that matches each member against memberRegex.
  unfoldable pub invalid_member : List String → Option String
  invalid_member [] = none
  invalid_member (member ∷ members) =
      if matches_regexp "^[a-z0-9]([-a-z0-9]*[a-z0-9])?$" member
      then invalid_member members
      else some (
          concat (
            ".spec.members contains invalid value '" ∷ member ∷ "'. Must be a valid namespace name."
            ∷ []))

  -- The check that the entries of spec.members are `*` alone, or names of namespaces.
  unfoldable pub names_error : List String → Option String
  names_error members =
      if is_cluster_scoped members
      then if ltb 1 (length members)
        then some "when .spec.members contains an asterisk ('*'), it must contain no other entries"
        else none
      else invalid_member members

  -- The last part of Handle: the user may update pods in all namespaces, or in those that are new.
  unfoldable pub check_user :
      (E → Bool)
      → (List String → List String)
      → Request E MemberRoll
      → MemberRoll
      → Prog Call (Response E)
  check_user is_deadline_exceeded arrival request smmr = do
    checked ← is_user_allowed_to_update_pods_in_all_namespaces env
    on_result checked
        (λ everywhere. when everywhere (pure allowed) (
          when (is_cluster_scoped smmr.members)
            (pure (
              forbidden (
                concat (
                  "user '" ∷ request.username
                  ∷ "' does not have permission to access all namespaces" ∷ []))))
            (on_result (find_newly_added_namespaces smmr request)
              (λ added. do
                result ← rejected_namespaces env (arrival added)
                on_result result
                    (λ found. when (nat_eq (length found) 0) (pure allowed) (
                      pure (
                        forbidden (
                          concat (
                            "user '"
                            ∷ request.username
                            ∷ "' does not have permission to access namespace(s): "
                            ∷ print_list found
                            ∷ [])))))
                    (λ e. pure (
                      if is_deadline_exceeded e
                      then errored 400 (
                          errors.errorf
                            "too many namespaces in ServiceMeshMemberRoll; validating webhook couldn't perform the authorization checks for all namespaces; either try the operation again as a cluster admin, or add fewer namespaces in a single operation")
                      else errored 500 e)))
              (λ e. pure (errored 400 e)))))
        (λ e. pure (errored 500 e))

  -- Handle, for an object that is watched and not being deleted.
  unfoldable pub check_roll :
      (E → Bool)
      → (List String → List String)
      → Request E MemberRoll
      → MemberRoll
      → Prog Call (Response E)
  check_roll is_deadline_exceeded arrival request smmr =
      when (not (smmr.meta.name == member_roll_name))
        (pure (bad_request "ServiceMeshMemberRoll must be named 'default'"))
        (when (smmr.meta.namespace == operator_namespace)
          (pure (
            bad_request
              "ServiceMeshMemberRoll may not be created in the same project/namespace as the operator"))
          (on_error (names_error smmr.members) (λ m. pure (bad_request m))
            (on_error (duplicates_error smmr.members) (λ m. pure (bad_request m))
              (do
                listed ← call env list_rolls
                on_result listed
                    (λ rolls.
                      on_error
                        (members_error smmr.meta.namespace
                          (namespaces_in_other_member_rolls smmr rolls []) smmr.members)
                        (λ m. pure (bad_request m))
                        (check_user is_deadline_exceeded arrival request smmr))
                    (λ e. pure (errored 500 e))))))

  -- Handle; `filter` is the namespace that the operator watches, or "", `is_deadline_exceeded` is
  -- errors.Is(err, context.DeadlineExceeded), and `arrival` orders the results of the workers.
  unfoldable pub handle :
      String
      → (E → Bool)
      → (List String → List String)
      → Request E MemberRoll
      → Prog Call (Response E)
  handle filter is_deadline_exceeded arrival request =
      on_result request.object
        (λ smmr.
          when (not (watching filter smmr.meta.namespace) || is_some smmr.meta.deletion_timestamp)
            (pure allowed) (check_roll is_deadline_exceeded arrival request smmr))
        (λ e. pure (errored 400 e))
