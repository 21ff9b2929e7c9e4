-- ===== src/Mesh/Pruning.antt =====
-- pkg/controller/servicemesh/controlplane/pruner.go: the removal of objects that an earlier
-- generation of the mesh, or a deleted mesh, has left behind.
use istio_operator.Prelude.{
  Bool, false, not, ◌&&◌, ◌||◌, String, List, [], ◌∷◌, ◌++◌, Option, none, some, ◌==◌,
  if◌then◌else◌, concat,
}
use istio_operator.Prog.{Result, ok, err, Prog, pure, ◌>>=◌, on_result, on_error, when}
use istio_operator.Kube.{ObjectMeta}
use istio_operator.Common.{owner_key, kubernetes_app_version_key}
use istio_operator.Mesh.Objects.{GroupVersionKind, Crd, CrdVersion, Requirement, equals, not_equals}
use istio_operator.Mesh.Calls.{
  MeshEnv, MeshCall, ask, list_crds, list_objects, delete_object, delete_all_of,
}

abbrev pub kubernetes_app_managed_by_key : String
kubernetes_app_managed_by_key = "app.kubernetes.io/managed-by"

abbrev pub kubernetes_app_managed_by_value : String
kubernetes_app_managed_by_value = "maistra-istio-operator"

pub record PruneConfig : Type 0 where
  pub gvk : GroupVersionKind
  pub supports_delete_collection : Bool

-- gvk
abbrev pub gvk_of : String → String → String → GroupVersionKind
gvk_of group version kind = record { group = group; version = version; kind = kind }

unfoldable pub builtin_types : List GroupVersionKind
builtin_types =
    gvk_of "autoscaling" "v2beta1" "HorizontalPodAutoscaler"
    ∷ gvk_of "policy" "v1beta1" "PodDisruptionBudget"
    ∷ gvk_of "route.openshift.io" "v1" "Route"
    ∷ gvk_of "apps" "v1" "Deployment"
    ∷ gvk_of "apps" "v1" "DaemonSet"
    ∷ gvk_of "apps" "v1" "StatefulSet"
    ∷ gvk_of "networking.k8s.io" "v1" "Ingress"
    ∷ gvk_of "" "v1" "Service"
    ∷ gvk_of "" "v1" "Endpoints"
    ∷ gvk_of "" "v1" "ConfigMap"
    ∷ gvk_of "" "v1" "PersistentVolumeClaim"
    ∷ gvk_of "" "v1" "Pod"
    ∷ gvk_of "" "v1" "Secret"
    ∷ gvk_of "" "v1" "ServiceAccount"
    ∷ gvk_of "networking.k8s.io" "v1" "NetworkPolicy"
    ∷ gvk_of "rbac.authorization.k8s.io" "v1" "RoleBinding"
    ∷ gvk_of "rbac.authorization.k8s.io" "v1" "Role"
    ∷ gvk_of "admissionregistration.k8s.io" "v1" "MutatingWebhookConfiguration"
    ∷ gvk_of "admissionregistration.k8s.io" "v1" "ValidatingWebhookConfiguration"
    ∷ gvk_of "rbac.authorization.k8s.io" "v1" "ClusterRole"
    ∷ gvk_of "rbac.authorization.k8s.io" "v1" "ClusterRoleBinding"
    ∷ []

-- crds: the group and kind of each custom resource that is pruned
unfoldable pub pruned_crds : List (String × String)
pruned_crds =
    ("kiali.io", "Kiali")
    ∷ ("jaegertracing.io", "Jaeger")
    ∷ ("config.istio.io", "adapter")
    ∷ ("config.istio.io", "attributemanifest")
    ∷ ("config.istio.io", "handler")
    ∷ ("config.istio.io", "instance")
    ∷ ("config.istio.io", "kubernetes")
    ∷ ("config.istio.io", "logentry")
    ∷ ("config.istio.io", "metric")
    ∷ ("config.istio.io", "rule")
    ∷ ("config.istio.io", "template")
    ∷ ("networking.istio.io", "DestinationRule")
    ∷ ("networking.istio.io", "EnvoyFilter")
    ∷ ("networking.istio.io", "Gateway")
    ∷ ("networking.istio.io", "ServiceEntry")
    ∷ ("networking.istio.io", "Sidecar")
    ∷ ("networking.istio.io", "VirtualService")
    ∷ ("networking.istio.io", "WorkloadEntry")
    ∷ ("authentication.istio.io", "Policy")
    ∷ ("authentication.maistra.io", "ServiceMeshPolicy")
    ∷ ("security.istio.io", "AuthorizationPolicy")
    ∷ ("security.istio.io", "PeerAuthentication")
    ∷ ("security.istio.io", "RequestAuthentication")
    ∷ ("certmanager.k8s.io", "ClusterIssuer")
    ∷ []

-- `_, exists := crds[gk(group, kind)]`
unfoldable pub is_listed : String → String → List (String × String) → Bool
is_listed group kind [] = false
is_listed group kind ((g, k) ∷ rest) = (g == group && k == kind) || is_listed group kind rest

-- getVersion
unfoldable pub get_version : List CrdVersion → String
get_version [] = ""
get_version (v ∷ vs) = if v.served then v.name else get_version vs

-- The loops of findResourcesToPrune
unfoldable pub builtin_configs : List GroupVersionKind → List PruneConfig
builtin_configs [] = []
builtin_configs (gvk ∷ gvks) =
    record { gvk = gvk; supports_delete_collection = false } ∷ builtin_configs gvks

unfoldable pub crd_configs : List Crd → List PruneConfig
unfolding is_listed pruned_crds get_version
crd_configs [] = []
crd_configs (crd ∷ rest) =
    let others = crd_configs rest in
    let version = get_version crd.versions in
    if is_listed crd.group crd.kind pruned_crds && not (version == "")
    then record { gvk = gvk_of crd.group version crd.kind; supports_delete_collection = false }
      ∷ others
    else others

-- createLabelSelector's requirements
unfoldable pub selector_of : String → String → List Requirement
selector_of mesh_namespace mesh_generation =
    record {
      key = kubernetes_app_managed_by_key;
      operator = equals;
      value = kubernetes_app_managed_by_value;
    }
    ∷ record { key = owner_key; operator = equals; value = mesh_namespace }
    ∷ record { key = kubernetes_app_version_key; operator = not_equals; value = mesh_generation }
    ∷ []

module _ {E : Type 0} (env : MeshEnv E) where
  open env use {errors, check_requirement}

  -- labels.NewRequirement of each, until one fails
  unfoldable pub check_all : List Requirement → Option E
  check_all [] = none
  check_all (r ∷ rs) = elim (check_requirement r) [ none ↦ check_all rs | some e ↦ some e ]

  -- createLabelSelector
  unfoldable pub if_checked : Option E → List Requirement → Result E (List Requirement)
  if_checked none rs = ok rs
  if_checked (some e) rs = err e

  unfoldable pub create_label_selector : String → String → Result E (List Requirement)
  unfolding check_all if_checked
  create_label_selector mesh_namespace mesh_generation =
      let rs = selector_of mesh_namespace mesh_generation in if_checked (check_all rs) rs

  -- findResourcesToPrune
  unfoldable pub find_resources_to_prune : Prog MeshCall (Result E (List PruneConfig))
  unfolding builtin_types builtin_configs crd_configs
  find_resources_to_prune = do
    listed ← ask env list_crds
    on_result listed (λ crds. pure (ok (builtin_configs builtin_types ++ crd_configs crds)))
        (λ e. pure (err e))

  -- The loop of pruneIndividually over the objects that were listed
  unfoldable pub delete_listed : GroupVersionKind → List ObjectMeta → Prog MeshCall (Option E)
  delete_listed gvk [] = pure none
  delete_listed gvk (object ∷ objects) = do
    let rest = delete_listed gvk objects
    e ← ask env (delete_object gvk object)
    on_error e
        (λ x.
          when (not (errors.is_not_found x))
            (pure
              (some (errors.errorf (concat ("error deleting resource: " ∷ errors.message x ∷ [])))))
            rest)
        rest

  -- pruneIndividually
  unfoldable pub prune_individually : String → GroupVersionKind → String → Prog MeshCall (Option E)
  prune_individually mesh_namespace gvk instance_generation =
      on_result (create_label_selector mesh_namespace instance_generation)
        (λ label_selector. do
          listed ← ask env (list_objects gvk label_selector)
          on_result listed (delete_listed gvk) (λ e. pure (
              if errors.is_no_match e || errors.is_not_found e
              then none
              else some (
                  errors.errorf
                    (concat ("error retrieving resources to prune: " ∷ errors.message e ∷ []))))))
        (λ e. pure (some e))

  -- pruneAll
  unfoldable pub prune_all : String → GroupVersionKind → String → Prog MeshCall (Option E)
  prune_all mesh_namespace gvk instance_generation =
      on_result (create_label_selector mesh_namespace instance_generation)
        (λ label_selector. do
          e ← ask env (delete_all_of gvk label_selector)
          on_error e
              (λ x. pure (if errors.is_no_match x || errors.is_not_found x then none else some x))
              (pure none))
        (λ e. pure (some e))

  of_error : Option E → List E
  of_error none = []
  of_error (some e) = e ∷ []

  -- The loop of pruneResources
  unfoldable pub prune_each : String → List PruneConfig → String → Prog MeshCall (List E)
  unfolding of_error
  prune_each mesh_namespace [] instance_generation = pure []
  prune_each mesh_namespace (config ∷ configs) instance_generation = do
    let rest = prune_each mesh_namespace configs instance_generation
    e ←
        when config.supports_delete_collection
          (prune_all mesh_namespace config.gvk instance_generation)
          (prune_individually mesh_namespace config.gvk instance_generation)
    es ← rest
    pure (of_error e ++ es)

  -- pruneResources
  unfoldable pub prune_resources : String → List PruneConfig → String → Prog MeshCall (Option E)
  prune_resources mesh_namespace configs instance_generation = do
    all_errors ← prune_each mesh_namespace configs instance_generation
    pure (errors.new_aggregate all_errors)

  -- prune, of the mesh in a namespace
  unfoldable pub prune : String → String → Prog MeshCall (Option E)
  prune mesh_namespace generation = do
    found ← find_resources_to_prune
    on_result found (λ configs. prune_resources mesh_namespace configs generation)
        (λ e. pure (some e))
