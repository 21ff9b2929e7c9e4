-- ===== src/Mesh/Deleter.antt =====
-- pkg/controller/servicemesh/controlplane/deleter.go: the deletion of a mesh.
use istio_operator.Prelude.{
  not, ◌||◌, String, [], ◌∷◌, Option, none, some, ◌==◌, concat, new_set, set_delete,
}
use istio_operator.Prog.{Prog, pure, ◌>>=◌, on_result, on_error, when}
use istio_operator.Status.{get_condition}
use istio_operator.Common.{finalizer_name, to_namespaced_name}
use istio_operator.Mesh.Objects.{Mesh}
use istio_operator.Mesh.Calls.{MeshEnv, MeshCall, ask, get_mesh, update_mesh, mesh_event}
use istio_operator.Mesh.Namespaces.{remove_namespace_labels}
use istio_operator.Mesh.Pruning.{prune}
use istio_operator.Mesh.Conditions.{condition, with_condition}
use istio_operator.Mesh.Posting.{post_status}
use istio_operator.Mesh.Installation.{Instance}
use istio_operator.Mesh.Preparation.{skip_until_synced}

module _ {E : Type 0} (env : MeshEnv E) where
  open env use {errors, sorted}

  -- finalizers.Delete(common.FinalizerName)
  unfoldable pub without_mesh_finalizer : Mesh → Mesh
  without_mesh_finalizer mesh =
      let m = mesh.meta in
      record mesh {
        meta = record m { finalizers = sorted (set_delete finalizer_name (new_set m.finalizers)) };
      }

  -- The event and the error for a finalizer that could not be removed
  unfoldable pub finalizer_failure : Instance → String → E → Prog MeshCall (Instance × Option E)
  finalizer_failure r what e = do
    _ ← ask env (
        mesh_event "Warning" "FailedRemovingFinalizer" (
          concat ("Error occurred removing finalizer from service mesh: " ∷ errors.message e ∷ [])))
    pure (r, some (errors.wrap what e))

  -- The removal of the finalizer from a fresh copy
  unfoldable pub remove_mesh_finalizer : Instance → Prog MeshCall (Instance × Option E)
  unfolding without_mesh_finalizer finalizer_failure skip_until_synced
  remove_mesh_finalizer r = do
    got ← ask env (get_mesh (to_namespaced_name r.mesh.meta))
    on_result got
        (λ mesh. do
          e ← ask env (update_mesh (without_mesh_finalizer mesh))
          on_error e
              (λ x.
                when (not (errors.is_not_found x))
                  (finalizer_failure r "error removing ServiceMeshControlPlane finalizer" x)
                  (pure (r, none)))
              (do skipping ← skip_until_synced env r; pure (skipping, none)))
        (λ e.
          when (not (errors.is_not_found e))
            (finalizer_failure r "error getting ServiceMeshControlPlane prior to removing finalizer"
              e)
            (pure (r, none)))

  -- The status and the error of a deletion that failed
  unfoldable pub deletion_failure : Instance → E → Prog MeshCall (Instance × Option E)
  deletion_failure r e = do
    noted ←
        with_condition env
          (condition "Reconciled" "False" "DeletionError"
            (concat ("Error deleting service mesh: " ∷ errors.message e ∷ [])))
          r.status
    (s, _) ← post_status env r.mesh noted
    pure (record r { status = s }, some e)

  -- The removal of what the mesh owns
  unfoldable pub delete_resources : Instance → Prog MeshCall (Option E)
  delete_resources r = do
    _ ← ask env (mesh_event "Normal" "Deleting" "Deleting service mesh")
    e ← prune env r.mesh.meta.namespace ""
    on_error e
        (λ x. do
          _ ← ask env (
              mesh_event "Warning" "FailedDeletingResources"
                (concat ("Error deleting service mesh resources: " ∷ errors.message x ∷ [])))
          pure (some x))
        (do
          _ ← ask env (mesh_event "Normal" "Deleted" "Successfully deleted service mesh resources")
          remove_namespace_labels env r.mesh.meta.namespace)

  -- Delete
  unfoldable pub delete_instance : Instance → Prog MeshCall (Instance × Option E)
  unfolding delete_resources deletion_failure remove_mesh_finalizer
  delete_instance r = do
    let reconciled = get_condition "Reconciled" r.status.conditions
    when (not (reconciled.status == "False") || not (reconciled.reason == "Deleting"))
        (do
          deleting ←
              with_condition env (condition "Reconciled" "False" "Deleting" "Deleting service mesh")
                r.status
          not_ready ←
              with_condition env (condition "Ready" "False" "Deleting" "Deleting service mesh")
                deleting
          (s, e) ← post_status env r.mesh not_ready
          pure (record r { status = s }, e))
        (do
          failed ← delete_resources r
          on_error failed (deletion_failure r) (do
            deleted ←
                with_condition env (condition "Reconciled" "True" "Deleted" "Service mesh deleted")
                  r.status
            remove_mesh_finalizer (record r { status = deleted })))
