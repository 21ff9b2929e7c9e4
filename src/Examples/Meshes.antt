-- ===== src/Examples/Meshes.antt =====
-- Runs of the controller of control planes.
use istio_operator.Prelude.{
  arith, set_insert_all, ◌-◌, ◌≡◌, ◌≢◌, ◌↔◌, refl, true, false, ◌==◌, String, [], ◌∷◌, Option, none,
  inr, ◌⊎◌, ltb, if◌then◌else◌, some, All, is_some, lookup,
}
use istio_operator.Prog.{ok, ◌>>=◌, on_error, on_result, when}
use istio_operator.Prog.Returns.{Returns}
use istio_operator.Status.{get_condition, compose_reconciled_version}
use istio_operator.Kube.{NamespacedName}
use istio_operator.Common.{get_mesh_namespaces}
use istio_operator.Mesh.Calls.{Renderings, ask}
use istio_operator.Mesh.Conditions.{update_readiness_status, update_conditions}
use istio_operator.Mesh.Posting.{
  current_reconciled_version, initialize_reconcile_status, is_updating,
}
use istio_operator.Mesh.Readiness.{
  get_namespaces_to_check, always_ready, calculate_component_readiness,
}
use istio_operator.Mesh.Cluster.{Cluster, Reports, workloads_of, calculate_component_readiness_lem}
use istio_operator.Mesh.Installation.{get_charts_in_installation_order}
use istio_operator.Mesh.Namespaces.{remove_namespace_labels, set_each, ignore_namespace_key}
use istio_operator.Mesh.Labels.{wanted_label, set_each_lem}
use istio_operator.Mesh.Labelling.{Processor, add_metadata}
use istio_operator.Mesh.Labelled.{add_metadata-IsStale, enqueue_request-add_metadata}
use istio_operator.Mesh.Stale.{IsStale}
use istio_operator.Mesh.Charts.{
  count, count_rendered, count_all, one_if, count-get_charts_in_installation_order,
}
use istio_operator.Mesh.Ready.{IsSound, update_readiness_status-IsSound}
use istio_operator.Mesh.Lifecycle.{phase_of, next, ended, begun, lifecycle_lem}
use istio_operator.Mesh.Reconciler.{reconcile_instance}
use istio_operator.Mesh.Preparation.{initialize, skip_until_synced}
use istio_operator.Mesh.Reconciling.{IsKept}
use istio_operator.Mesh.Deleter.{delete_instance}
use istio_operator.Mesh.Pruning.{
  prune, find_resources_to_prune, prune_resources, prune_each, prune_individually,
  create_label_selector, selector_of, delete_listed,
}
use istio_operator.Mesh.Deletion.{FailsToRemove, IsNoUpdate, delete_instance_lem}
use istio_operator.Mesh.Controller.{
  Reconcilers, enqueue_request_for_smcp, delete_key, keep, reconcile, reconcile_now,
}
use istio_operator.Mesh.Pauses.{pause_lem}
use istio_operator.Mesh.Writes.{
  MeshPermitted, IsNoPreparation, reconcile_instance_writes, reconcile_instance_resumes,
}
use istio_operator.Mesh.Held.{AreHeld, initially, after, Reachable-AreHeld}
use istio_operator.Examples.Failures.{failed}
use istio_operator.Examples.World.{meta_of}
use istio_operator.Examples.MeshWorld.{
  reconciling, deleting, mesh_status, basic_mesh, renderings, instance_of, istiod, mesh_world,
  mesh_world-IsSelecting, mesh_world-RendersAll,
}

is_kept :
    (rendered : Option Renderings)
    → IsKept mesh_world "istio-system" "2.3.0-2" (instance_of rendered (reconciling ∷ []))
unfolding current_reconciled_version compose_reconciled_version
is_kept rendered = record {
  kept_namespace = refl;
  kept_generation = refl;
  kept_labelling = λ e. refl;
}

reconcile_instance_writes_example :
    All
      (MeshPermitted mesh_world "istio-system" "2.3.0-2")
      (reconcile_instance mesh_world (instance_of none (reconciling ∷ [])) []).1
    × IsKept mesh_world "istio-system" "2.3.0-2"
        (reconcile_instance mesh_world (instance_of none (reconciling ∷ [])) []).0.0
reconcile_instance_writes_example =
    reconcile_instance_writes mesh_world "istio-system" "2.3.0-2" mesh_world-IsSelecting
      mesh_world-RendersAll (instance_of none (reconciling ∷ [])) (is_kept none) [] tt

reconcile_instance_resumes_example :
    let r = instance_of (some renderings) (reconciling ∷ []) in
    (is_some (initialize mesh_world r []).0.0.renderings ≡ true)
    × All IsNoPreparation (reconcile_instance mesh_world r []).1
reconcile_instance_resumes_example =
    reconcile_instance_resumes mesh_world "istio-system" "2.3.0-2" mesh_world-IsSelecting
      (instance_of (some renderings) (reconciling ∷ [])) (is_kept (some renderings)) refl [] tt

abbrev request : NamespacedName
request = record { namespace = "istio-system"; name = "basic" }

abbrev no_reconcilers : Reconcilers
no_reconcilers = record { earliest = []; instances = [] }

Reachable-AreHeld_example : AreHeld mesh_world (reconcile mesh_world request no_reconcilers []).0.0
Reachable-AreHeld_example =
    Reachable-AreHeld mesh_world mesh_world-IsSelecting mesh_world-RendersAll
      (after request [] initially)

abbrev processor : Processor
processor = record { app_instance = "istio-system"; app_version = "2.3.0-2"; owner = request }

add_metadata-IsStale_example :
    IsStale "istio-system" "2.3.0-3"
      (add_metadata processor (meta_of "istiod" "istio-system") "istio-discovery")
    ↔ ((processor.owner.namespace ≡ "istio-system") × (processor.app_version ≢ "2.3.0-3"))
add_metadata-IsStale_example =
    add_metadata-IsStale processor (meta_of "istiod" "istio-system") "istio-discovery"
      "istio-system" "2.3.0-3"

enqueue_request-add_metadata_example :
    enqueue_request_for_smcp
      (add_metadata processor (meta_of "istiod" "istio-system") "istio-discovery").labels
    ≡ request ∷ []
enqueue_request-add_metadata_example =
    enqueue_request-add_metadata processor (meta_of "istiod" "istio-system") "istio-discovery" refl
      refl

abbrev cluster : Cluster mesh_world "istio-system"
cluster = record {
  deployments = λ ns. istiod ∷ [];
  stateful_sets = λ ns. [];
  daemon_sets = λ ns. [];
  listed_deployments = λ log ns. refl;
  listed_stateful_sets = λ log ns. refl;
  listed_daemon_sets = λ log ns. refl;
}

namespaces_known :
    Returns
      (λ r. r ≡ ok ("istio-system" ∷ []))
      (get_namespaces_to_check mesh_world (basic_mesh (reconciling ∷ [])))
unfolding get_namespaces_to_check ◌>>=◌ on_result ask set_insert_all get_mesh_namespaces
namespaces_known = record { at = λ log. refl }

calculate_component_readiness_lem_example :
    Returns
      (Reports
        (always_ready mesh_world none)
        (workloads_of mesh_world cluster ("istio-system" ∷ [])))
      (calculate_component_readiness mesh_world (basic_mesh (reconciling ∷ [])) none)
calculate_component_readiness_lem_example =
    calculate_component_readiness_lem mesh_world (basic_mesh (reconciling ∷ [])) none cluster
      ("istio-system" ∷ []) namespaces_known

update_readiness_status-IsSound_example :
    Returns
      (λ result. IsSound mesh_world result.0)
      (update_readiness_status mesh_world
        (basic_mesh (reconciling ∷ []))
        (mesh_status (reconciling ∷ [])))
update_readiness_status-IsSound_example =
    update_readiness_status-IsSound mesh_world (basic_mesh (reconciling ∷ []))
      (mesh_status (reconciling ∷ []))

lifecycle_lem_example :
    Returns
      (λ updated. phase_of updated ≡ next (ended true) (phase_of (reconciling ∷ [])))
      (update_conditions mesh_world (reconciling ∷ []) (some (failed "no charts")) "done")
    × Returns
        (λ begun_status.
          phase_of begun_status.conditions
          ≡ next (begun (is_updating mesh_world (basic_mesh []))) (phase_of (reconciling ∷ [])))
        (initialize_reconcile_status mesh_world (basic_mesh []) (mesh_status (reconciling ∷ [])))
lifecycle_lem_example =
    lifecycle_lem mesh_world (reconciling ∷ []) (some (failed "no charts")) "done" (basic_mesh [])
      (mesh_status (reconciling ∷ []))

count-get_charts_in_installation_order_example :
    count_all "istio/grafana" (
      get_charts_in_installation_order
        (λ s. s == "istio/grafana")
        renderings
        (("istio-control/istio-discovery" ∷ []) ∷ []))
    ≡ one_if (is_some (lookup "istio/grafana" renderings))
unfolding count_all count count_rendered
count-get_charts_in_installation_order_example =
    count-get_charts_in_installation_order "istio/grafana" (λ s. s == "istio/grafana") renderings
      (("istio-control/istio-discovery" ∷ []) ∷ []) (omega arith) (omega arith)

status_known :
    ((get_condition "Reconciled" (deleting ∷ [])).status ≡ "False")
    × ((get_condition "Reconciled" (deleting ∷ [])).reason ≡ "Deleting")
unfolding get_condition
status_known = (refl, refl)

failure_known :
    FailsToRemove mesh_world
      (instance_of none (deleting ∷ []))
      (failed "the server is not available")
      []
unfolding ◌>>=◌ on_error prune on_result find_resources_to_prune ask prune_resources prune_each when
    prune_individually create_label_selector selector_of delete_listed remove_namespace_labels
failure_known = inr (refl, refl)

delete_instance_lem_example :
    let r = instance_of none (deleting ∷ []) in
    All IsNoUpdate (delete_instance mesh_world r []).1
    × ((delete_instance mesh_world r []).0.1 ≡ some (failed "the server is not available"))
delete_instance_lem_example =
    delete_instance_lem mesh_world mesh_world-IsSelecting (instance_of none (deleting ∷ []))
      (failed "the server is not available") [] status_known.0 status_known.1 failure_known tt

pause_lem_example :
    let r = instance_of none (reconciling ∷ []) in
    let paused = keep mesh_world request no_reconcilers (skip_until_synced mesh_world r []).0 in
    reconcile mesh_world request paused [] ≡ (
      if ltb 9 11
      then ((paused, record { requeue = true; after = 11 - 9 }, none), [])
      else reconcile_now mesh_world request
          (record paused { earliest = delete_key request paused.earliest })
          [])
pause_lem_example =
    pause_lem mesh_world request no_reconcilers (instance_of none (reconciling ∷ [])) [] []

set_each_lem_example :
    ((j : String)
      → lookup j (set_each ((ignore_namespace_key, "") ∷ []) (("team", "a") ∷ [], false)).0
        ≡ wanted_label j ((ignore_namespace_key, "") ∷ []) (lookup j (("team", "a") ∷ [])))
    × (((set_each ((ignore_namespace_key, "") ∷ []) (("team", "a") ∷ [], false)).1 ≡ true)
        ⊎ ((set_each ((ignore_namespace_key, "") ∷ []) (("team", "a") ∷ [], false)).0
            ≡ ("team", "a") ∷ []))
set_each_lem_example = set_each_lem ((ignore_namespace_key, "") ∷ []) (("team", "a") ∷ []) false
