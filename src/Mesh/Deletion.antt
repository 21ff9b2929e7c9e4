-- ===== src/Mesh/Deletion.antt =====
-- Delete of pkg/controller/servicemesh/controlplane/deleter.go, where something could not be removed.
use istio_operator.Prelude.{◌≡◌, refl, ◌⊎◌, inl, inr, none, String, List, Option, some, All}
use istio_operator.Prog.{Prog, pure, ◌>>=◌, on_error, when}
use istio_operator.Prog.Emits.{Emits, Emits-bind, Emits-pure, Emits-error, Emits-result, Emits-when}
use istio_operator.Prog.Returns.{Returns, Returns-bind, Returns-pure}
use istio_operator.Status.{get_condition}
use istio_operator.Mesh.Calls.{
  MeshEnv, MeshCall, ask, Emits-ask, Emits-mesh_now, update_mesh, mesh_event, get_mesh,
  patch_mesh_status, get_mesh_namespace, update_mesh_namespace,
}
use istio_operator.Mesh.Conditions.{with_condition}
use istio_operator.Mesh.Posting.{post_status}
use istio_operator.Mesh.Namespaces.{remove_namespace_labels, set_namespace_labels}
use istio_operator.Mesh.Pruning.{prune}
use istio_operator.Mesh.Stale.{IsSelecting, AllowsPruning, prune-Emits}
use istio_operator.Mesh.Installation.{Instance}
use istio_operator.Mesh.Deleter.{delete_resources, deletion_failure, delete_instance}

-- What the removal of a mesh's labels and objects comes to with an error: pruning fails with it, or
-- pruning succeeds and the labels of the mesh's namespace cannot be removed.
abbrev pub FailsToRemove : {E : Type 0} → MeshEnv E → Instance → E → List MeshCall → Type 0
FailsToRemove env r e log =
    let announced = (ask env (mesh_event "Normal" "Deleting" "Deleting service mesh") log).1 in
    let pruned = prune env r.mesh.meta.namespace "" announced in
    let noted =
      (ask env (mesh_event "Normal" "Deleted" "Successfully deleted service mesh resources")
        pruned.1).1 in
    (pruned.0 ≡ some e)
    ⊎ ((pruned.0 ≡ none) × ((remove_namespace_labels env r.mesh.meta.namespace noted).0 ≡ some e))

-- Every call but an update of the control plane, which is how its finalizer is removed.
abbrev pub IsNoUpdate : MeshCall → Type 0
IsNoUpdate (update_mesh mesh) = ⊥
IsNoUpdate _ = Unit {0}

module _ {E : Type 0} (env : MeshEnv E) where
  pruning : (ns generation : String) → AllowsPruning ns generation IsNoUpdate
  pruning ns generation = record {
    of_list_crds = tt;
    of_list_objects = λ gvk rs. tt;
    of_delete = λ gvk o s. tt;
  }

  event-Emits :
      (t reason message : String) → Emits IsNoUpdate (ask env (mesh_event t reason message))
  event-Emits t reason message = Emits-ask env (mesh_event t reason message) tt

  delete_resources-IsNoUpdate :
      IsSelecting env → (r : Instance) → Emits IsNoUpdate (delete_resources env r)
  unfolding delete_resources remove_namespace_labels set_namespace_labels
  delete_resources-IsNoUpdate selecting r = Emits-bind _ _ (event-Emits _ _ _) (λ _.
      Emits-error _ _ _ (prune-Emits env selecting (pruning _ _))
        (λ x. Emits-bind _ _ (event-Emits _ _ _) (λ _. Emits-pure _))
        (Emits-bind _ _ (event-Emits _ _ _) (λ _.
          Emits-result _ _ _ (Emits-ask env (get_mesh_namespace _) tt)
            (λ n.
              Emits-when _ _ _ (λ _. Emits-ask env (update_mesh_namespace _) tt)
                (λ _. Emits-pure _))
            (λ e. Emits-pure _))))

  deletion_failure-IsNoUpdate : (r : Instance) (e : E) → Emits IsNoUpdate (deletion_failure env r e)
  unfolding deletion_failure with_condition post_status
  deletion_failure-IsNoUpdate r e =
      Emits-bind _ _ (Emits-bind _ _ (Emits-mesh_now env) (λ t. Emits-pure _)) (λ noted.
        Emits-bind _ _
          (Emits-when _ _ _ (λ _. Emits-pure _)
            (λ _.
              Emits-result _ _ _ (Emits-ask env (get_mesh _) tt)
                (λ _.
                  Emits-result _ _ _ (Emits-ask env (patch_mesh_status _ _) tt)
                    (λ stored. Emits-pure _) (λ x. Emits-pure _))
                (λ x. Emits-pure _)))
          (λ (s, x). Emits-pure _))

  deletion_failure-Returns :
      (r : Instance) (e : E) → Returns (λ result. result.1 ≡ some e) (deletion_failure env r e)
  unfolding deletion_failure
  deletion_failure-Returns r e =
      Returns-bind _ _ (λ noted. Returns-bind _ _ (λ (s, x). Returns-pure _ refl))

  delete_resources_fails :
      (r : Instance) (e : E) (log : List MeshCall)
      → FailsToRemove env r e log
      → (delete_resources env r log).0 ≡ some e
  unfolding delete_resources ◌>>=◌ on_error pure
  delete_resources_fails r e log (inl pruned) = rw pruned refl
  delete_resources_fails r e log (inr (pruned, labelled)) = rw pruned labelled

  -- What follows the removal of what the mesh owns, where that failed.
  failed_lem :
      (r : Instance) (e : E) (f : Prog MeshCall (Instance × Option E)) (o : Option E)
      (log : List MeshCall)
      → o ≡ some e
      → All IsNoUpdate log
      → All IsNoUpdate (on_error o (deletion_failure env r) f log).1
        × ((on_error o (deletion_failure env r) f log).0.1 ≡ some e)
  unfolding on_error
  failed_lem r e f o log h before =
      rw h ((deletion_failure-IsNoUpdate r e).at log before, (deletion_failure-Returns r e).at log)

  -- Where the API server honours label selectors: if a deletion that was announced fails to prune the
  -- mesh's objects or to remove the labels of its namespace, then Delete returns that error and makes
  -- no update of the control plane, if none was made before, so that its finalizer stays.
  pub delete_instance_lem :
      IsSelecting env
      → (r : Instance) (e : E) (log : List MeshCall)
      → (get_condition "Reconciled" r.status.conditions).status ≡ "False"
      → (get_condition "Reconciled" r.status.conditions).reason ≡ "Deleting"
      → FailsToRemove env r e log
      → All IsNoUpdate log
      → All IsNoUpdate (delete_instance env r log).1 × ((delete_instance env r log).0.1 ≡ some e)
  unfolding delete_instance ◌>>=◌ when
  delete_instance_lem selecting r e log status reason failed before =
      rw (status, reason)
        (failed_lem r e _ _ _ (delete_resources_fails r e log failed)
          ((delete_resources-IsNoUpdate selecting r).at log before))
