-- ===== src/Mesh/Readiness.antt =====
-- calculateComponentReadiness of pkg/controller/servicemesh/controlplane/readiness.go: which
-- components of a mesh are ready, as their workloads say.
use istio_operator.Prelude.{
  Bool, true, false, not, ◌&&◌, ◌||◌, String, List, [], ◌∷◌, Option, none, some, Map, lookup,
  insert, has, new_set, set_insert, ◌==◌, if◌then◌else◌, ltb, leb, nat_eq,
}
use istio_operator.Prog.{Result, ok, err, Prog, pure, ◌>>=◌, on_result, when}
use istio_operator.Status.{Annotations, get_annotation}
use istio_operator.Kube.{ObjectMeta, MemberRoll}
use istio_operator.Common.{get_label, member_roll_name, get_mesh_namespaces}
use istio_operator.Mesh.Objects.{
  Deployment, DeploymentCondition, StatefulSet, DaemonSet, Gateways, Mesh,
}
use istio_operator.Mesh.Labelling.{kubernetes_app_component_key}
use istio_operator.Mesh.Calls.{
  MeshEnv, MeshCall, ask, get_smmr, list_deployments, list_stateful_sets, list_daemon_sets,
  list_cni_daemon_sets,
}

-- The loop over the conditions of a deployment
unfoldable pub is_available : List DeploymentCondition → Bool
is_available [] = false
is_available (c ∷ cs) = if c.type == "Available" then c.status == "True" else is_available cs

-- The readiness of the three types of workloads
unfoldable pub deployment_ready : Deployment → Bool
unfolding is_available
deployment_ready d =
    if ltb d.ready_replicas d.replicas || ltb d.observed_generation d.meta.generation
    then false
    else is_available d.conditions

unfoldable pub stateful_set_ready : StatefulSet → Bool
stateful_set_ready s = leb s.replicas s.ready_replicas

-- daemonSetReady
unfoldable pub daemon_set_ready : DaemonSet → Bool
daemon_set_ready ds = nat_eq ds.number_unavailable 0

-- `ready, exists := readinessMap[component]` and the assignment that follows
unfoldable pub note_ready : Bool → Option Bool → Bool
note_ready is_ready none = is_ready
note_ready is_ready (some ready) = ready && is_ready

module _ {A : Type 0} (meta_of : A → ObjectMeta) (is_ready : A → Bool) where
  -- The body of the loop over the items that were listed
  unfoldable pub note_item : A → Map Bool → Map Bool
  unfolding note_ready
  note_item obj readiness = elim (get_label (meta_of obj) kubernetes_app_component_key) [
    | none ↦ readiness
    | some component ↦
        insert component (note_ready (is_ready obj) (lookup component readiness)) readiness
  ]

  unfoldable pub note_items : List A → Map Bool → Map Bool
  unfolding note_item
  note_items [] readiness = readiness
  note_items (obj ∷ objs) readiness = note_items objs (note_item obj readiness)

  -- calculateReadinessForType, which lists with `list`
  unfoldable pub calculate_readiness_for_type :
      {E : Type 0}
      → (String → Prog MeshCall (Result E (List A)))
      → List String
      → Map Bool
      → Prog MeshCall (Result E (Map Bool))
  unfolding note_items
  calculate_readiness_for_type list [] readiness = pure (ok readiness)
  calculate_readiness_for_type list (ns ∷ nss) readiness = do
    listed ← list ns
    on_result listed (λ items. calculate_readiness_for_type list nss (note_items items readiness))
        (λ e. pure (err e))

-- The loop over the components that are always ready
unfoldable pub note_always : List String → Map Bool → Map Bool
note_always [] readiness = readiness
note_always (c ∷ cs) readiness = note_always cs (insert c true readiness)

-- The namespaces of Spec.Gateways that are not empty
unfoldable pub insert_namespace : String → List String → List String
insert_namespace ns namespaces = if not (ns == "") then set_insert ns namespaces else namespaces

unfoldable pub insert_gateway : Option String → List String → List String
unfolding insert_namespace
insert_gateway none namespaces = namespaces
insert_gateway (some ns) namespaces = insert_namespace ns namespaces

unfoldable pub insert_gateways : List String → List String → List String
unfolding insert_namespace
insert_gateways [] namespaces = namespaces
insert_gateways (ns ∷ nss) namespaces = insert_gateways nss (insert_namespace ns namespaces)

unfoldable pub gateway_namespaces : Option Gateways → List String → List String
unfolding insert_gateway insert_gateways
gateway_namespaces none namespaces = namespaces
gateway_namespaces (some g) namespaces = insert_gateways g.egress_gateways (
    insert_gateways g.ingress_gateways
      (insert_gateway g.cluster_egress (insert_gateway g.cluster_ingress namespaces)))

-- s.Intersection(t)
unfoldable pub intersection : List String → List String → List String
intersection [] t = []
intersection (x ∷ xs) t = let rest = intersection xs t in if has x t then x ∷ rest else rest

-- The loop that sorts the components into the ready and the others
unfoldable pub ready_names : Map Bool → List String × List String
ready_names [] = ([], [])
ready_names ((component, ready) ∷ rest) =
    let (readies, others) = ready_names rest in
    if ready then (set_insert component readies, others) else (readies, set_insert component others)

module _ {E : Type 0} (env : MeshEnv E) where
  open env use {errors, sorted, split_commas}

  -- The namespaces that getNamespacesToCheck returns for a mesh and its member roll
  unfoldable pub checked_namespaces : Mesh → Option MemberRoll → List String
  unfolding gateway_namespaces intersection
  checked_namespaces mesh smmr = sorted (
      intersection (gateway_namespaces mesh.gateways (new_set (mesh.meta.namespace ∷ [])))
        (get_mesh_namespaces mesh.meta.namespace smmr))

  -- getNamespacesToCheck; a roll that is not found lists no members
  unfoldable pub get_namespaces_to_check : Mesh → Prog MeshCall (Result E (List String))
  unfolding checked_namespaces
  get_namespaces_to_check mesh = do
    got ← ask env (get_smmr (record { namespace = mesh.meta.namespace; name = member_roll_name }))
    on_result got (λ smmr. pure (ok (checked_namespaces mesh (some smmr))))
        (λ e. pure (if errors.is_not_found e then ok (checked_namespaces mesh none) else err e))

  -- The components that the annotation lists as always ready
  unfoldable pub always_ready : Annotations → List String
  always_ready annotations =
      let text = get_annotation "alwaysReadyComponents" annotations in
      if text == "" then [] else split_commas text

  -- The three types of workloads that calculateComponentReadinessMap checks, in order
  unfoldable pub check_types : String → List String → Map Bool → Prog MeshCall (Result E (Map Bool))
  unfolding calculate_readiness_for_type
  check_types owner namespaces readiness = do
    deployments ←
        calculate_readiness_for_type (λ (d : Deployment). d.meta) deployment_ready
          (λ ns. ask env (list_deployments ns owner)) namespaces readiness
    on_result deployments
        (λ after_deployments. do
          stateful_sets ←
              calculate_readiness_for_type (λ (s : StatefulSet). s.meta) stateful_set_ready
                (λ ns. ask env (list_stateful_sets ns owner)) namespaces after_deployments
          on_result stateful_sets
              (λ after_stateful_sets.
                calculate_readiness_for_type (λ (d : DaemonSet). d.meta) daemon_set_ready
                  (λ ns. ask env (list_daemon_sets ns owner)) namespaces after_stateful_sets)
              (λ e. pure (err e)))
        (λ e. pure (err e))

  -- calculateComponentReadinessMap, with the annotations of the status
  unfoldable pub calculate_component_readiness_map :
      Mesh → Annotations → Prog MeshCall (Result E (Map Bool))
  unfolding check_types always_ready note_always get_namespaces_to_check
  calculate_component_readiness_map mesh annotations = do
    found ← get_namespaces_to_check mesh
    on_result found
        (λ namespaces. do
          checked ← check_types mesh.meta.namespace namespaces []
          on_result checked
              (λ readiness. pure (ok (note_always (always_ready annotations) readiness)))
              (λ e. pure (err e)))
        (λ e. pure (err e))

  -- calculateComponentReadiness: the ready components and the others
  unfoldable pub calculate_component_readiness :
      Mesh → Annotations → Prog MeshCall (Result E (List String × List String))
  unfolding calculate_component_readiness_map ready_names
  calculate_component_readiness mesh annotations = do
    calculated ← calculate_component_readiness_map mesh annotations
    on_result calculated (λ readiness. pure (ok (ready_names readiness))) (λ e. pure (err e))

  all_ready : List DaemonSet → Bool
  all_ready [] = true
  all_ready (ds ∷ dss) = if not (daemon_set_ready ds) then false else all_ready dss

  -- isCNIReady, whose value is read even if there is an error
  unfoldable pub is_cni_ready : Prog MeshCall (Bool × Option E)
  unfolding all_ready
  is_cni_ready = when (not env.cni_enabled) (pure (true, none)) (do
    listed ← ask env (list_cni_daemon_sets env.operator_namespace)
    on_result listed (λ dss. pure (all_ready dss, none)) (λ e. pure (true, some e)))
