-- ===== src/Mesh/Controller.antt =====
-- ControlPlaneReconciler of pkg/controller/servicemesh/controlplane/controller.go, which keeps a
-- reconciler for each mesh. The lock of its map is not modelled: controller-runtime runs one
-- reconciliation of a mesh at a time, and the model one of all meshes.
use istio_operator.Prelude.{
  ℕ, ◌-◌, Bool, true, false, not, ◌&&◌, String, List, [], ◌∷◌, Option, none, some, is_some, has,
  ◌==◌, if◌then◌else◌, ltb, new_set, set_insert,
}
use istio_operator.Prog.{Prog, pure, ◌>>=◌, on_result, on_error, when}
use istio_operator.Status.{get_condition}
use istio_operator.Kube.{NamespacedName}
use istio_operator.Common.{finalizer_name, to_namespaced_name, find, owner_key, owner_name_key}
use istio_operator.Mesh.Objects.{Mesh}
use istio_operator.Mesh.Calls.{
  MeshEnv, MeshCall, ask, mesh_now, get_mesh, update_mesh, patch_addons,
}
use istio_operator.Mesh.Pruning.{kubernetes_app_managed_by_key, kubernetes_app_managed_by_value}
use istio_operator.Mesh.Posting.{
  update_readiness, get_reconciled_version, current_reconciled_version,
}
use istio_operator.Mesh.Installation.{Instance}
use istio_operator.Mesh.Reconciler.{reconcile_instance, set_instance}
use istio_operator.Mesh.Preparation.{is_finished}
use istio_operator.Mesh.Deleter.{delete_instance}

-- Go maps with namespaced names as keys
unfoldable pub same_key : NamespacedName → NamespacedName → Bool
same_key a b = a.namespace == b.namespace && a.name == b.name

module _ {V : Type 0} where
  unfoldable pub lookup_key : NamespacedName → List (NamespacedName × V) → Option V
  unfolding same_key
  lookup_key k [] = none
  lookup_key k ((j, v) ∷ rest) = if same_key j k then some v else lookup_key k rest

  unfoldable pub delete_key : NamespacedName → List (NamespacedName × V) → List (NamespacedName × V)
  unfolding same_key
  delete_key k [] = []
  delete_key k ((j, v) ∷ entries) =
      let rest = delete_key k entries in if same_key j k then rest else (j, v) ∷ rest

  unfoldable pub put_key :
      NamespacedName → V → List (NamespacedName × V) → List (NamespacedName × V)
  unfolding delete_key
  put_key k v entries = (k, v) ∷ delete_key k entries

-- ControlPlaneReconciler
pub record Reconcilers : Type 0 where
  pub earliest : List (NamespacedName × ℕ)
  pub instances : List (NamespacedName × Instance)

-- reconcile.Result: the seconds after which to reconcile again, if at all
pub record MeshResult : Type 0 where
  pub requeue : Bool
  pub after : ℕ

abbrev pub finished : MeshResult
finished = record { requeue = false; after = 0 }

abbrev pub text_of : Option String → String
text_of none = ""
text_of (some s) = s

-- enqueueRequestForSMCP, for the labels of an object
unfoldable pub enqueue_request_for_smcp : Option (List (String × String)) → List NamespacedName
unfolding find
enqueue_request_for_smcp labels =
    let owner_namespace = text_of (find owner_key labels) in
    let owner_name = text_of (find owner_name_key labels) in
    if text_of (find kubernetes_app_managed_by_key labels) == kubernetes_app_managed_by_value
      && (not (owner_namespace == "") && not (owner_name == ""))
    then record { namespace = owner_namespace; name = owner_name } ∷ []
    else []

-- NewControlPlaneInstanceReconciler
unfoldable pub new_instance : Mesh → Instance
new_instance mesh = record {
  mesh = mesh;
  status = mesh.status;
  mesh_generation = "";
  chart_version = "";
  renderings = none;
  wait_for_components = [];
  earliest = none;
}

module _ {E : Type 0} (env : MeshEnv E) where
  open env use {errors, sorted}

  -- What Reconcile leaves behind: the state, the result and the error
  abbrev pub Ended : Type 0
  Ended = Reconcilers × MeshResult × Option E

  -- isFullyReconciled
  unfoldable pub is_fully_reconciled : Mesh → Bool
  is_fully_reconciled mesh =
      current_reconciled_version env mesh.meta.generation == get_reconciled_version env mesh.status
      && (get_condition "Reconciled" mesh.status.conditions).status == "True"

  -- getOrCreateReconciler, with the entry of the map of earliest times, which was deleted
  unfoldable pub get_or_create : Option Instance → Mesh → Prog MeshCall Instance
  unfolding new_instance
  get_or_create none mesh = pure (new_instance mesh)
  get_or_create (some r) mesh = do
    renewed ← set_instance env mesh r
    pure (record renewed { earliest = none })

  unfoldable pub with_mesh_finalizer : Mesh → Mesh
  with_mesh_finalizer mesh =
      let m = mesh.meta in
      record mesh {
        meta = record m { finalizers = sorted (set_insert finalizer_name (new_set m.finalizers)) };
      }

  -- What Reconcile does with the reconciler of a mesh that was found
  unfoldable pub reconcile_mesh : Mesh → Instance → Prog MeshCall (Instance × MeshResult × Option E)
  unfolding with_mesh_finalizer is_fully_reconciled
  reconcile_mesh mesh r =
      let finalized = has finalizer_name (new_set mesh.meta.finalizers) in
      when (is_some mesh.meta.deletion_timestamp)
        (when (not finalized) (pure (r, finished, none))
          (do (deleted, e) ← delete_instance env r; pure (deleted, finished, e)))
        (when (not finalized)
          (do e ← ask env (update_mesh (with_mesh_finalizer mesh)); pure (r, finished, e))
          (when (is_fully_reconciled mesh)
            (do
              (s, e) ← update_readiness env r.mesh r.status
              let updated = record r { status = s }
              on_error e (λ x. pure (updated, finished, some x))
                  (do
                    (result, patch_error) ← ask env (patch_addons mesh)
                    pure (updated, record { requeue = false; after = result }, patch_error)))
            (do (reconciled, e) ← reconcile_instance env r; pure (reconciled, finished, e))))

  unfoldable pub put_earliest :
      NamespacedName → Option ℕ → List (NamespacedName × ℕ) → List (NamespacedName × ℕ)
  unfolding put_key
  put_earliest key none times = times
  put_earliest key (some t) times = put_key key t times

  -- deleteReconcilerIfFinished, and what the reconciler has noted in the map of earliest times
  unfoldable pub keep : NamespacedName → Reconcilers → Instance → Reconcilers
  unfolding put_earliest delete_key put_key
  keep key state r = record {
    earliest = put_earliest key r.earliest state.earliest;
    instances =
        if is_finished r then delete_key key state.instances else put_key key r state.instances;
  }

  -- The part of Reconcile that follows the test of the earliest time
  unfoldable pub reconcile_now : NamespacedName → Reconcilers → Prog MeshCall Ended
  unfolding get_or_create reconcile_mesh keep lookup_key
  reconcile_now request state = do
    got ← ask env (get_mesh request)
    on_result got
        (λ mesh. do
          let key = to_namespaced_name mesh.meta
          r ← get_or_create (lookup_key key state.instances) mesh
          (ended, result, e) ← reconcile_mesh mesh r
          pure (keep key state ended, result, e))
        (λ e. pure (state, finished, if errors.is_not_found e then none else some e))

  -- Reconcile
  unfoldable pub reconcile_request : Option ℕ → NamespacedName → Reconcilers → Prog MeshCall Ended
  unfolding reconcile_now delete_key
  reconcile_request none request state = reconcile_now request state
  reconcile_request (some earliest) request state = do
    t ← mesh_now env
    when (ltb t earliest) (pure (state, record { requeue = true; after = earliest - t }, none))
        (reconcile_now request (record state { earliest = delete_key request state.earliest }))

  unfoldable pub reconcile : NamespacedName → Reconcilers → Prog MeshCall Ended
  unfolding reconcile_request lookup_key
  reconcile request state = reconcile_request (lookup_key request state.earliest) request state
