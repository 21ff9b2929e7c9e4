-- ===== src/Mesh/Writes.antt =====
-- The calls of Reconcile of one control plane (pkg/controller/servicemesh/controlplane/reconciler.go).
use istio_operator.Prelude.{◌≡◌, refl, true, String, List, All, is_some}
use istio_operator.Prog.{◌>>=◌, pure}
use istio_operator.Mesh.Calls.{
  MeshEnv, MeshCall, delete_object, delete_all_of, update_mesh, patch_mesh_status,
  process_manifests, patch_addons, render, install_crds, install_cni, reconcile_rbac,
}
use istio_operator.Mesh.Installation.{Instance}
use istio_operator.Mesh.Reconciler.{reconcile_instance}
use istio_operator.Mesh.Preparation.{initialize}
use istio_operator.Mesh.Stale.{IsStale, IsSelecting}
use istio_operator.Mesh.Ready.{IsSound}
use istio_operator.Mesh.Allowed.{Allows, AllowsPreparing}
use istio_operator.Mesh.Reconciling.{IsKept}
use istio_operator.Mesh.Resumed.{run_resumed, whole-Runs}
use istio_operator.Mesh.Prepared.{RendersAll, reconcile_instance-Runs}

-- The writes of a reconciliation of the mesh in a namespace, for a generation.
abbrev pub MeshPermitted : {E : Type 0} → MeshEnv E → String → String → MeshCall → Type 0
MeshPermitted env ns generation (delete_object gvk o) = IsStale ns generation o
MeshPermitted env ns generation (process_manifests ms component g) = g ≡ generation
MeshPermitted env ns generation (patch_mesh_status key s) = IsSound env s
MeshPermitted env ns generation (delete_all_of gvk rs) = ⊥
MeshPermitted env ns generation (update_mesh mesh) = ⊥
MeshPermitted env ns generation (patch_addons mesh) = ⊥
MeshPermitted env ns generation _ = Unit {0}

-- The calls that prepare the installation of a mesh.
abbrev pub IsNoPreparation : MeshCall → Type 0
IsNoPreparation (render mesh) = ⊥
IsNoPreparation (install_crds version) = ⊥
IsNoPreparation (install_cni version) = ⊥
IsNoPreparation (reconcile_rbac mesh) = ⊥
IsNoPreparation _ = Unit {0}

module _ {E : Type 0} (env : MeshEnv E) (ns generation : String) where
  pub permits : Allows env ns generation (MeshPermitted env ns generation)
  permits = record {
    of_get_mesh = λ k. tt;
    of_get_smmr = λ k. tt;
    of_prune = record {
      of_list_crds = tt;
      of_list_objects = λ gvk rs. tt;
      of_delete = λ gvk o s. s;
    };
    of_list_deployments = λ s owner. tt;
    of_list_stateful_sets = λ s owner. tt;
    of_list_daemon_sets = λ s owner. tt;
    of_event = λ type reason message. tt;
    of_patch = λ k s sound. sound;
    of_process = λ ms component. refl;
  }

  pub prepares : AllowsPreparing (MeshPermitted env ns generation)
  prepares = record {
    of_render = λ m. tt;
    of_install_crds = λ v. tt;
    of_install_cni = λ v. tt;
    of_reconcile_rbac = λ m. tt;
    of_get_namespace = λ s. tt;
    of_update_namespace = λ n. tt;
  }

  others : Allows env ns generation IsNoPreparation
  others = record {
    of_get_mesh = λ k. tt;
    of_get_smmr = λ k. tt;
    of_prune = record {
      of_list_crds = tt;
      of_list_objects = λ gvk rs. tt;
      of_delete = λ gvk o s. tt;
    };
    of_list_deployments = λ s owner. tt;
    of_list_stateful_sets = λ s owner. tt;
    of_list_daemon_sets = λ s owner. tt;
    of_event = λ type reason message. tt;
    of_patch = λ k s sound. tt;
    of_process = λ ms component. tt;
  }

  -- Where the API server honours label selectors and rendering that fails renders nothing, and if the
  -- reconciler's state was kept for the mesh's namespace and present generation (what is rendered is
  -- to be labelled with that generation's version) and the calls made before are permitted, then so
  -- are all calls of Reconcile, whatever else the cluster answers: what is deleted is labelled as the
  -- operator's, as owned by the mesh's namespace and not with the present version, what is applied is
  -- applied for the present version, and every status that is written says Ready only if it says
  -- Reconciled and lists no component as not ready; and the state that is left is kept for the
  -- same namespace and generation.
  pub reconcile_instance_writes :
      IsSelecting env
      → RendersAll env
      → (r : Instance) → IsKept env ns generation r
      → (log : List MeshCall) → All (MeshPermitted env ns generation) log
      → All (MeshPermitted env ns generation) (reconcile_instance env r log).1
        × IsKept env ns generation (reconcile_instance env r log).0.0
  reconcile_instance_writes selecting renders r h log before =
      let runs = reconcile_instance-Runs env selecting renders permits prepares r h in
      (runs.emits.at log before, runs.returns.at log)

  -- Where the API server honours label selectors, and for a state that was kept for the mesh's
  -- namespace and present generation (what is rendered is to be labelled with that generation's
  -- version) and in which something is rendered: the part of Reconcile that follows the labelling of the namespace leaves it rendered, also where it
  -- fails; and Reconcile does not render again, and installs neither the resource definitions nor the
  -- CNI nor the RBAC objects, if no such call was made before.
  pub reconcile_instance_resumes :
      IsSelecting env
      → (r : Instance) → IsKept env ns generation r
      → is_some r.renderings ≡ true
      → (log : List MeshCall) → All IsNoPreparation log
      → (is_some (initialize env r log).0.0.renderings ≡ true)
        × All IsNoPreparation (reconcile_instance env r log).1
  unfolding initialize ◌>>=◌ pure
  reconcile_instance_resumes selecting r h e log before =
      let runs =
        whole-Runs env selecting others r h
          (λ reason message. run_resumed env selecting others r reason message e h) in
      (e, runs.emits.at log before)
