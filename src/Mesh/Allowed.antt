-- ===== src/Mesh/Allowed.antt =====
-- The calls that the parts of a reconciliation make, for any predicate that allows the calls that they
-- may make: reads, events, and the writes of sound statuses, of the mesh's namespace, and of objects
-- for a generation.
use istio_operator.Prelude.{Bool, String, List, [], ◌∷◌, Option, none, some, Map}
use istio_operator.Prog.{Result, Prog}
use istio_operator.Prog.Emits.{Emits, Emits-pure, Emits-result, Emits-when, Emits-bind}
use istio_operator.Prog.Known.{Emits-known}
use istio_operator.Status.{Annotations, Condition, ComponentStatus}
use istio_operator.Kube.{ObjectMeta, NamespacedName, Namespace}
use istio_operator.Mesh.Objects.{Mesh, MeshStatus, Manifest, Deployment, StatefulSet, DaemonSet}
use istio_operator.Mesh.Calls.{
  MeshEnv, MeshCall, ask, Emits-ask, Emits-mesh_now, get_mesh, patch_mesh_status, get_smmr,
  get_mesh_namespace, update_mesh_namespace, list_deployments, list_stateful_sets, list_daemon_sets,
  render, install_crds, install_cni, reconcile_rbac, process_manifests, mesh_event,
}
use istio_operator.Mesh.Stale.{AllowsPruning}
use istio_operator.Mesh.Ready.{IsSound, update_readiness_status-IsSound}
use istio_operator.Mesh.Readiness.{
  calculate_readiness_for_type, get_namespaces_to_check, check_types, deployment_ready,
  stateful_set_ready, daemon_set_ready, calculate_component_readiness_map,
  calculate_component_readiness,
}
use istio_operator.Mesh.Conditions.{
  emit, with_condition, update_conditions, update_control_plane_conditions, apply_goal,
  update_readiness_status, update_component_conditions,
}
use istio_operator.Mesh.Posting.{post_status, warn, post_reconciliation_status}

pub record Allows {E : Type 0} (env : MeshEnv E) (ns generation : String) (Q : MeshCall → Type 0)
    : Type 0 where
  pub of_get_mesh : (k : NamespacedName) → Q (get_mesh k)
  pub of_get_smmr : (k : NamespacedName) → Q (get_smmr k)
  pub of_prune : AllowsPruning ns generation Q
  pub of_list_deployments : (s owner : String) → Q (list_deployments s owner)
  pub of_list_stateful_sets : (s owner : String) → Q (list_stateful_sets s owner)
  pub of_list_daemon_sets : (s owner : String) → Q (list_daemon_sets s owner)
  pub of_event : (type reason message : String) → Q (mesh_event type reason message)
  pub of_patch : (k : NamespacedName) (s : MeshStatus) → IsSound env s → Q (patch_mesh_status k s)
  pub of_process :
      (ms : List Manifest) (component : String) → Q (process_manifests ms component generation)

-- What a reconciliation does before anything is rendered.
pub record AllowsPreparing (Q : MeshCall → Type 0) : Type 0 where
  pub of_render : (mesh : Mesh) → Q (render mesh)
  pub of_install_crds : (version : String) → Q (install_crds version)
  pub of_install_cni : (version : String) → Q (install_cni version)
  pub of_reconcile_rbac : (mesh : Mesh) → Q (reconcile_rbac mesh)
  pub of_get_namespace : (s : String) → Q (get_mesh_namespace s)
  pub of_update_namespace : (n : Namespace) → Q (update_mesh_namespace n)

module _ {E : Type 0} (env : MeshEnv E) {ns generation : String} {Q : MeshCall → Type 0}
    (allows : Allows env ns generation Q) where
  -- The calls, each with its rule.
  get_mesh-Emits : (k : NamespacedName) → Emits Q (ask env (get_mesh k))
  get_mesh-Emits k = Emits-ask env (get_mesh k) (allows.of_get_mesh k)

  pub get_smmr-Emits : (k : NamespacedName) → Emits Q (ask env (get_smmr k))
  get_smmr-Emits k = Emits-ask env (get_smmr k) (allows.of_get_smmr k)

  deployments-Emits : (s owner : String) → Emits Q (ask env (list_deployments s owner))
  deployments-Emits s owner =
      Emits-ask env (list_deployments s owner) (allows.of_list_deployments s owner)

  stateful_sets-Emits : (s owner : String) → Emits Q (ask env (list_stateful_sets s owner))
  stateful_sets-Emits s owner =
      Emits-ask env (list_stateful_sets s owner) (allows.of_list_stateful_sets s owner)

  daemon_sets-Emits : (s owner : String) → Emits Q (ask env (list_daemon_sets s owner))
  daemon_sets-Emits s owner =
      Emits-ask env (list_daemon_sets s owner) (allows.of_list_daemon_sets s owner)

  patch-Emits :
      (k : NamespacedName) (s : MeshStatus)
      → IsSound env s
      → Emits Q (ask env (patch_mesh_status k s))
  patch-Emits k s sound = Emits-ask env (patch_mesh_status k s) (allows.of_patch k s sound)

  for_type :
      {A : Type 0} (meta_of : A → ObjectMeta) (is_ready : A → Bool)
      (list : String → Prog MeshCall (Result E (List A))) (nss : List String) (m : Map Bool)
      → ((s : String) → Emits Q (list s))
      → Emits Q (calculate_readiness_for_type meta_of is_ready list nss m)
  unfolding calculate_readiness_for_type
  for_type meta_of is_ready list [] m h = Emits-pure _
  for_type meta_of is_ready list (s ∷ nss) m h =
      Emits-result (list s) _ _ (h s) (λ items. for_type meta_of is_ready list nss _ h)
        (λ e. Emits-pure _)

  get_namespaces_to_check-Emits : (mesh : Mesh) → Emits Q (get_namespaces_to_check env mesh)
  unfolding get_namespaces_to_check
  get_namespaces_to_check-Emits mesh =
      Emits-result _ _ _ (get_smmr-Emits _) (λ smmr. Emits-pure _) (λ e. Emits-pure _)

  check_types-Emits :
      (owner : String) (nss : List String) (m : Map Bool) → Emits Q (check_types env owner nss m)
  unfolding check_types
  check_types-Emits owner nss m =
      Emits-result _ _ _
        (for_type (λ (d : Deployment). d.meta) deployment_ready _ nss m
          (λ s. deployments-Emits s owner))
        (λ m'.
          Emits-result _ _ _
            (for_type (λ (d : StatefulSet). d.meta) stateful_set_ready _ nss m'
              (λ s. stateful_sets-Emits s owner))
            (λ m''.
              for_type (λ (d : DaemonSet). d.meta) daemon_set_ready _ nss m''
                (λ s. daemon_sets-Emits s owner))
            (λ e. Emits-pure _))
        (λ e. Emits-pure _)

  pub calculate_component_readiness-Emits :
      (mesh : Mesh) (a : Annotations) → Emits Q (calculate_component_readiness env mesh a)
  unfolding calculate_component_readiness calculate_component_readiness_map
  calculate_component_readiness-Emits mesh a =
      Emits-result _ _ _
        (Emits-result _ _ _ (get_namespaces_to_check-Emits mesh)
          (λ nss.
            Emits-result _ _ _ (check_types-Emits mesh.meta.namespace nss []) (λ m. Emits-pure _)
              (λ e. Emits-pure _))
          (λ e. Emits-pure _))
        (λ m. Emits-pure _) (λ e. Emits-pure _)

  pub with_condition-Emits : (c : Condition) (s : MeshStatus) → Emits Q (with_condition env c s)
  unfolding with_condition
  with_condition-Emits c s = Emits-bind _ _ (Emits-mesh_now env) (λ t. Emits-pure _)

  pub event-Emits :
      (type reason message : String) → Emits Q (ask env (mesh_event type reason message))
  event-Emits type reason message =
      Emits-ask env (mesh_event type reason message) (allows.of_event type reason message)

  emit-Emits : (o : Option (String × String)) (message : String) → Emits Q (emit env o message)
  unfolding emit
  emit-Emits none message = Emits-pure _
  emit-Emits (some (type, reason)) message = event-Emits type reason message

  update_readiness_status-Emits :
      (mesh : Mesh) (s : MeshStatus) → Emits Q (update_readiness_status env mesh s)
  unfolding update_readiness_status apply_goal
  update_readiness_status-Emits mesh s =
      Emits-result _ _ _ (calculate_component_readiness-Emits mesh s.annotations)
        (λ (ready, unready).
          Emits-bind _ _
            (Emits-when _ _ _ (λ _. Emits-pure _)
              (λ _.
                Emits-bind _ _ (with_condition-Emits _ s)
                  (λ changed. Emits-bind _ _ (emit-Emits _ _) (λ _. Emits-pure _))))
            (λ applied. Emits-pure _))
        (λ e.
          Emits-bind _ _ (with_condition-Emits _ s)
            (λ failed. Emits-bind _ _ (event-Emits _ _ _) (λ _. Emits-pure _)))

  pub post_status-Emits :
      (mesh : Mesh) (s : MeshStatus) → IsSound env s → Emits Q (post_status env mesh s)
  unfolding post_status
  post_status-Emits mesh s sound =
      Emits-when _ _ _ (λ _. Emits-pure _)
        (λ _.
          Emits-result _ _ _ (get_mesh-Emits _)
            (λ _.
              Emits-result _ _ _ (patch-Emits _ s sound) (λ stored. Emits-pure _)
                (λ e. Emits-pure _))
            (λ e. Emits-pure _))

  warn-Emits : (mesh : Mesh) (e : Option E) (message : String) → Emits Q (warn env mesh e message)
  unfolding warn
  warn-Emits mesh none message = Emits-pure _
  warn-Emits mesh (some e) message = event-Emits _ _ _

  pub post_reconciliation_status-Emits :
      (mesh : Mesh) (s : MeshStatus) (reason message : String) (e : Option E)
      → Emits Q (post_reconciliation_status env mesh s reason message e)
  unfolding post_reconciliation_status
  post_reconciliation_status-Emits mesh s reason message e =
      Emits-bind _ _ (warn-Emits mesh e _) (λ _. Emits-bind _ _ (with_condition-Emits _ s) (λ noted.
        Emits-known _ _ (update_readiness_status-Emits mesh noted)
          (update_readiness_status-IsSound env mesh noted)
          (λ (updated, changed) sound. post_status-Emits mesh updated sound)))

  update_conditions-Emits :
      (cs : List Condition) (e : Option E) (message : String)
      → Emits Q (update_conditions env cs e message)
  unfolding update_conditions
  update_conditions-Emits cs none message =
      Emits-when _ _ _
        (λ _.
          Emits-bind _ _ (Emits-mesh_now env)
            (λ t. Emits-bind _ _ (Emits-mesh_now env) (λ u. Emits-pure _)))
        (λ _. Emits-bind _ _ (Emits-mesh_now env) (λ t. Emits-pure _))
  update_conditions-Emits cs (some e) message =
      Emits-when _ _ _
        (λ _.
          Emits-bind _ _ (Emits-mesh_now env)
            (λ t. Emits-bind _ _ (Emits-mesh_now env) (λ u. Emits-pure _)))
        (λ _. Emits-bind _ _ (Emits-mesh_now env) (λ t. Emits-pure _))

  pub update_control_plane_conditions-Emits :
      (s : MeshStatus) (e : Option E) → Emits Q (update_control_plane_conditions env s e)
  unfolding update_control_plane_conditions
  update_control_plane_conditions-Emits s e =
      Emits-bind _ _ (update_conditions-Emits s.conditions e _) (λ cs. Emits-pure _)

  pub update_component_conditions-Emits :
      (s : ComponentStatus) (e : Option E) → Emits Q (update_component_conditions env s e)
  unfolding update_component_conditions
  update_component_conditions-Emits s e =
      Emits-bind _ _ (update_conditions-Emits s.conditions e _) (λ cs. Emits-pure _)
