-- ===== src/Roll/Status.antt =====
-- The status of a member roll: its conditions, what is noted of single members, and updateStatus;
-- and the mesh that a roll belongs to (pkg/controller/servicemesh/memberroll/controller.go).
use istio_operator.Prelude.{
  ℕ, Bool, not, ◌||◌, String, List, [], ◌∷◌, Option, none, some, length, ◌==◌, if◌then◌else◌,
  concat,
}
use istio_operator.Prog.{Prog, Result, ok, err, pure, ◌>>=◌, on_result}
use istio_operator.Errors.Conflict.{ReconcileResult}
use istio_operator.Status.{Condition, set_condition, set_annotation}
use istio_operator.Kube.{
  Member, MemberRoll, RollStatus, ControlPlane, Env, Call, call, patch_roll_status,
  list_control_planes,
}
use istio_operator.Common.{bool_to_condition_status, member_name}
use istio_operator.Roll.Summary.{StatusMap, set_member_condition}

-- What Reconcile returns.
abbrev pub Outcome : Type 0 → Type 0
Outcome E = ReconcileResult × Option E

-- The condition that setReadyCondition sets.
unfoldable pub ready_condition : Bool → String → String → Condition
ready_condition ready reason message = record {
  type = "Ready";
  status = bool_to_condition_status ready;
  reason = reason;
  message = message;
  last_transition_time = 0;
}

-- setReadyCondition, at the time `t`
unfoldable pub set_ready_condition : ℕ → RollStatus → Bool → String → String → RollStatus
unfolding ready_condition
set_ready_condition t status ready reason message = record status {
  conditions = set_condition t (ready_condition ready reason message) status.conditions;
}

-- The conditions of step 3.
reconciled_false : String → String → Condition
reconciled_false reason message = record {
  type = "Reconciled";
  status = "False";
  reason = reason;
  message = message;
  last_transition_time = 0;
}

unfoldable pub not_exists_condition : String → Condition
unfolding reconciled_false
not_exists_condition ns =
    reconciled_false "NamespaceNotExists" (concat ("Namespace " ∷ ns ∷ " does not exist" ∷ []))

unfoldable pub different_control_plane_condition : String → Member → Condition
unfolding reconciled_false
different_control_plane_condition ns member = reconciled_false "ReferencesDifferentControlPlane" (
    concat (
      "ServiceMeshMember " ∷ ns ∷ "/" ∷ member_name
      ∷ " exists, but references ServiceMeshControlPlane " ∷ member.control_plane_ref.namespace
      ∷ "/" ∷ member.control_plane_ref.name ∷ []))

-- What step 3 notes of one namespace, at the time `t`.
unfoldable pub note_member : ℕ → String → String → String → Option Member → StatusMap → StatusMap
unfolding not_exists_condition different_control_plane_condition
note_member t mesh_name mesh_namespace ns none statuses =
    set_member_condition t statuses ns (not_exists_condition ns)
note_member t mesh_name mesh_namespace ns (some member) statuses =
    if not (member.control_plane_ref.name == mesh_name)
      || not (member.control_plane_ref.namespace == mesh_namespace)
    then set_member_condition t statuses ns (different_control_plane_condition ns member)
    else statuses

-- The mesh of a namespace, or why there is none.
pub data Mesh : Type 0 where
  mesh : ControlPlane → Mesh
  no_mesh : String → String → Mesh

unfoldable pub choose_mesh : List ControlPlane → Mesh
choose_mesh [] = no_mesh "ErrSMCPMissing" "No ServiceMeshControlPlane exists in the namespace"
choose_mesh (m ∷ []) = mesh m
choose_mesh (m ∷ ms) =
    no_mesh "ErrMultipleSMCPs" "Multiple ServiceMeshControlPlane resources exist in the namespace"

module _ {E : Type 0} (env : Env E) where
  open env use {errors, sorted, print_int, print_list}

  -- The status that updateStatus writes.
  unfoldable pub counted_status : MemberRoll → RollStatus → RollStatus
  counted_status roll status = record status {
    annotations =
        set_annotation "configuredMemberCount"
          (concat (
            print_int (length status.configured_members)
            ∷ "/"
            ∷ print_int (length status.members)
            ∷ []))
          status.annotations;
    observed_generation = roll.meta.generation;
  }

  -- updateStatus of a roll whose status is `status`
  unfoldable pub update_status : MemberRoll → RollStatus → Prog Call (Option E)
  unfolding counted_status
  update_status roll status =
      call env (patch_roll_status (record roll { status = counted_status roll status }))

  -- getServiceMeshControlPlane
  unfoldable pub get_service_mesh_control_plane : String → Prog Call (Result E Mesh)
  unfolding choose_mesh
  get_service_mesh_control_plane namespace = do
    listed ← call env (list_control_planes namespace)
    on_result listed (λ meshes. pure (ok (choose_mesh meshes)))
        (λ e. pure (err (errors.wrap "Error retrieving ServiceMeshControlPlane resources" e)))
