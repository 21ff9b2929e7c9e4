-- ===== src/Member/Rolls.antt =====
-- The member roll that a member controller creates and deletes
-- (pkg/controller/servicemesh/member/controller.go).
use istio_operator.Prelude.{
  Bool, true, false, not, ◌&&◌, String, List, [], ◌∷◌, Option, none, some, is_some, ◌==◌,
  if◌then◌else◌, concat,
}
use istio_operator.Prog.{Prog, pure, ◌>>=◌, ◌>>◌, on_result, on_error, when}
use istio_operator.Kube.{
  ObjectMeta, NamespacedName, Env, Call, call, Member, MemberRoll, get_roll, create_roll,
  delete_roll, record_event,
}
use istio_operator.Common.{created_by_key, member_roll_name, get_annotation}

abbrev pub controller_name : String
controller_name = "servicemeshmember-controller"

-- The key of the member roll of a mesh.
unfoldable pub roll_key : String → NamespacedName
roll_key namespace = record { namespace = namespace; name = member_roll_name }

abbrev empty_meta : String → String → ObjectMeta
empty_meta name namespace = record {
  name = name;
  namespace = namespace;
  labels = none;
  annotations = none;
  finalizers = [];
  deletion_timestamp = none;
  generation = 0;
}

-- The member roll that createMemberRollIfNeeded creates.
unfoldable pub new_roll : String → MemberRoll
new_roll namespace = record {
  meta = record (empty_meta member_roll_name namespace) {
    annotations = some ((created_by_key, controller_name) ∷ []);
  };
  members = [];
  status = record {
    annotations = none;
    observed_generation = 0;
    mesh_generation = 0;
    mesh_reconciled_version = "";
    members = [];
    configured_members = [];
    pending_members = [];
    terminating_members = [];
    conditions = [];
    member_statuses = [];
  };
}

unfoldable pub created_by : String → Option String → Bool
created_by name none = false
created_by name (some s) = s == name

unfoldable pub is_empty : List String → Bool
is_empty [] = true
is_empty (x ∷ xs) = false

-- The test of removeMemberRollIfNeeded: the roll is not being deleted, lists no members, and was
-- created by this controller.
unfoldable pub may_delete_roll : MemberRoll → Bool
unfolding created_by is_empty
may_delete_roll roll =
    not (is_some roll.meta.deletion_timestamp)
    && (is_empty roll.members
        && created_by controller_name (get_annotation roll.meta created_by_key))

module _ {E : Type 0} (env : Env E) where
  open env use {errors}

  create_roll_error : String → E → E
  create_roll_error namespace e =
      errors.wrap
        (concat
          ("Could not create ServiceMeshMemberRoll " ∷ namespace ∷ "/" ∷ member_roll_name ∷ []))
        e

  -- createMemberRollIfNeeded
  unfoldable pub create_member_roll_if_needed : Member → Prog Call (Option E)
  unfolding create_roll_error
  create_member_roll_if_needed member = do
    let namespace = member.control_plane_ref.namespace
    got ← call env (get_roll (roll_key namespace))
    on_result got (λ roll. pure none)
        (λ e.
          when (errors.is_not_found e)
            (do
              created ← call env (create_roll (new_roll namespace))
              on_error created (λ x. pure (some (create_roll_error namespace x)))
                  (do
                    call env (
                        record_event "Normal" "Reconciled"
                          "Successfully created ServiceMeshMemberRoll")
                    pure none))
            (pure (some e)))

  delete_roll_error : MemberRoll → Option E → Option E
  delete_roll_error roll none = none
  delete_roll_error roll (some e) =
      if errors.is_not_found e
      then none
      else some (
          errors.wrap
            (concat (
              "Could not delete ServiceMeshMemberRoll " ∷ roll.meta.namespace ∷ "/" ∷ roll.meta.name
              ∷ []))
            e)

  -- removeMemberRollIfNeeded
  unfoldable pub remove_member_roll_if_needed : Member → Prog Call (Option E)
  unfolding delete_roll_error
  remove_member_roll_if_needed member = do
    got ← call env (get_roll (roll_key member.control_plane_ref.namespace))
    on_result got
        (λ roll.
          when (may_delete_roll roll)
            (do e ← call env (delete_roll roll); pure (delete_roll_error roll e)) (pure none))
        (λ e. pure (if errors.is_not_found e then none else some e))
