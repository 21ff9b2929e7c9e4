-- ===== src/Mesh/Posting.antt =====
-- The status of a control plane as it is posted: pkg/controller/servicemesh/controlplane/status.go,
-- and the parts of readiness.go and reconciler.go that begin and end a reconciliation.
use istio_operator.Prelude.{
  ℕ, Bool, not, String, [], ◌∷◌, Option, none, some, if◌then◌else◌, nat_eq, concat,
}
use istio_operator.Prog.{Prog, pure, ◌>>=◌, on_result, when}
use istio_operator.Status.{get_condition, compose_reconciled_version}
use istio_operator.Common.{to_namespaced_name}
use istio_operator.Mesh.Objects.{Mesh, MeshStatus}
use istio_operator.Mesh.Calls.{MeshEnv, MeshCall, ask, get_mesh, patch_mesh_status, mesh_event}
use istio_operator.Mesh.Conditions.{condition, with_condition, update_readiness_status}

module _ {E : Type 0} (env : MeshEnv E) where
  open env use {errors, sorted, print_int, print_list}

  -- PostStatus, of the status that is kept: the status to keep, and the error
  unfoldable pub post_status : Mesh → MeshStatus → Prog MeshCall (MeshStatus × Option E)
  post_status mesh s = when (env.same_status s mesh.status) (pure (s, none)) (do
    let key = to_namespaced_name mesh.meta
    got ← ask env (get_mesh key)
    on_result got
        (λ _. do
          patched ← ask env (patch_mesh_status key s)
          on_result patched (λ stored. pure (stored, none))
              (λ e. pure (
                if errors.is_not_found e
                then (s, none)
                else (s, some (errors.wrap "error updating ServiceMeshControlPlane status" e)))))
        (λ e. pure (
          if errors.is_not_found e then (s, none) else (
            s,
            some (errors.wrap "error getting ServiceMeshControlPlane prior to updating status" e),
          ))))

  -- UpdateReadiness
  unfoldable pub update_readiness : Mesh → MeshStatus → Prog MeshCall (MeshStatus × Option E)
  unfolding update_readiness_status post_status
  update_readiness mesh s = do
    (updated, changed) ← update_readiness_status env mesh s
    when changed (post_status mesh updated) (pure (updated, none))

  -- isUpdating
  unfoldable pub is_updating : Mesh → Bool
  is_updating mesh = not (nat_eq mesh.status.observed_generation 0)

  -- GetReconciledVersion, and CurrentReconciledVersion of a generation
  unfoldable pub get_reconciled_version : MeshStatus → String
  get_reconciled_version s =
      compose_reconciled_version print_int s.operator_version s.observed_generation

  unfoldable pub current_reconciled_version : ℕ → String
  current_reconciled_version generation =
      compose_reconciled_version print_int env.operator_version generation

  -- The message, the event and the reason of initializeReconcileStatus
  unfoldable pub initial_texts : Mesh → MeshStatus → String × String × String
  unfolding is_updating
  initial_texts mesh s =
      if is_updating mesh
      then (if nat_eq s.observed_generation mesh.meta.generation
          then (
            concat (
                "Updating mesh due to operator version change (" ∷ s.operator_version ∷ " to "
                ∷ env.operator_version ∷ ")" ∷ []),
            "Updating",
            "OperatorUpdated",
          )
          else (
            concat (
                "Updating mesh from generation "
                ∷ print_int s.observed_generation
                ∷ " to generation "
                ∷ print_int mesh.meta.generation
                ∷ []),
            "Updating",
            "SpecUpdated",
          ))
      else (
        concat ("Installing mesh generation " ∷ print_int mesh.meta.generation ∷ []),
        "Installing",
        "ResourceCreated",
      )

  -- initializeReconcileStatus
  unfoldable pub initialize_reconcile_status : Mesh → MeshStatus → Prog MeshCall MeshStatus
  unfolding initial_texts with_condition condition
  initialize_reconcile_status mesh s = do
    let (message, event, reason) = initial_texts mesh s
    installing ←
        when (is_updating mesh) (pure s)
          (with_condition env (condition "Installed" "False" reason message) s)
    _ ← ask env (mesh_event "Normal" event message)
    reconciling ← with_condition env (condition "Reconciled" "False" reason message) installing
    with_condition env (condition "Ready" "False" reason message) reconciling

  -- What postReconciliationStatus makes of the Reconciled condition
  unfoldable pub final_message : String → Option E → String
  final_message message none = message
  final_message message (some e) =
      concat (message ∷ ": error: " ∷ errors.message (env.root_cause e) ∷ [])

  unfoldable pub warn : Mesh → Option E → String → Prog MeshCall (Unit {0})
  warn mesh none message = pure tt
  warn mesh (some e) message =
      ask env (mesh_event "Warning" (if is_updating mesh then "Updating" else "Installing") message)

  -- postReconciliationStatus: the status to keep, and the error
  unfoldable pub post_reconciliation_status :
      Mesh → MeshStatus → String → String → Option E → Prog MeshCall (MeshStatus × Option E)
  unfolding final_message warn with_condition update_readiness_status post_status
  post_reconciliation_status mesh s reason message processing_error = do
    let reconciled = get_condition "Reconciled" s.conditions
    let text = final_message message processing_error
    _ ← warn mesh processing_error text
    noted ← with_condition env (record reconciled { reason = reason; message = text }) s
    (updated, _) ← update_readiness_status env mesh noted
    post_status mesh updated
