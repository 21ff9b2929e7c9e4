-- ===== src/Member/Reconciler.antt =====
-- The namespace reconciler of pkg/controller/servicemesh/member/namespace_reconciler.go, and how it
-- is made: the choice of the networking strategy.
use istio_operator.Prelude.{
  Bool, String, List, [], ◌∷◌, Option, none, some, ◌==◌, if◌then◌else◌, concat,
}
use istio_operator.Prog.{Prog, Result, ok, err, pure, ◌>>=◌, on_result, when}
use istio_operator.Kube.{
  ObjectMeta, Env, Call, call, RoleBinding, list_role_bindings, get_network, get_cluster_network,
}
use istio_operator.Common.{owner_key, name_set}
use istio_operator.Versions.{Ver, get_cni_network_name}
use istio_operator.Member.Networking.{Strategy, subnet, multitenant, new_network_policy_strategy}

-- namespaceReconciler; `mesh_version` is nil where it is made to remove a namespace
pub record NamespaceReconciler : Type 0 where
  pub mesh_namespace : String
  pub mesh_version : Option Ver
  pub is_cni_enabled : Bool
  pub networking_strategy : Strategy
  pub role_bindings_list : List RoleBinding
  pub required_role_bindings : List String

unfoldable pub metas_of_role_bindings : List RoleBinding → List ObjectMeta
metas_of_role_bindings [] = []
metas_of_role_bindings (rb ∷ rbs) = rb.meta ∷ metas_of_role_bindings rbs

-- The name that GetCNINetworkName gives; on a nil version the call would panic, and it is made only
-- on a parsed version.
unfoldable pub cni_network_name : Option Ver → String
cni_network_name none = ""
cni_network_name (some v) = get_cni_network_name v

module _ {E : Type 0} (env : Env E) where
  open env use {errors, to_lower}

  -- pkgerrors.Wrap of an error that may be nil
  wrap_strategy : Result E Strategy → Result E Strategy
  wrap_strategy (ok s) = ok s
  wrap_strategy (err e) = err (errors.wrap "error initializing network strategy" e)

  -- The switch over the plugin of the default cluster network.
  unfoldable pub strategy_of_plugin : String → String → Prog Call (Result E Strategy)
  unfolding wrap_strategy
  strategy_of_plugin mesh_namespace plugin =
      when (plugin == "redhat/openshift-ovs-subnet") (pure (ok subnet)) (
        when (plugin == "redhat/openshift-ovs-networkpolicy")
          (do s ← new_network_policy_strategy env mesh_namespace; pure (wrap_strategy s))
          (when (plugin == "redhat/openshift-ovs-multitenant") (pure (ok multitenant)) (
            when (plugin == "")
              (do s ← new_network_policy_strategy env mesh_namespace; pure (wrap_strategy s))
              (pure (
                err (
                  errors.errorf
                    (concat ("unsupported cluster network plugin: " ∷ plugin ∷ []))))))))

  -- initializeNetworkingStrategy. Calico, OVNKubernetes and unknown network types are one branch,
  -- since all three take the network policies.
  unfoldable pub initialize_networking_strategy : String → Prog Call (Result E Strategy)
  unfolding strategy_of_plugin
  initialize_networking_strategy mesh_namespace = do
    network ← call env get_network
    on_result network
        (λ network_type.
          when (to_lower network_type == to_lower "OpenShiftSDN")
            (do
              cluster_network ← call env get_cluster_network
              on_result cluster_network (strategy_of_plugin mesh_namespace) (λ e. pure (
                  if errors.is_not_found e
                  then ok subnet
                  else err (errors.wrap "error retrieving ClusterNetwork resource" e))))
            (do s ← new_network_policy_strategy env mesh_namespace; pure (wrap_strategy s)))
        (λ e. when (errors.is_not_found e) (pure (ok subnet)) (
          when (errors.is_no_match e) (new_network_policy_strategy env mesh_namespace)
            (pure (err e))))

  -- newNamespaceReconciler
  unfoldable pub new_namespace_reconciler :
      String → Option Ver → Bool → Prog Call (Result E NamespaceReconciler)
  new_namespace_reconciler mesh_namespace mesh_version is_cni_enabled = do
    initialized ← initialize_networking_strategy mesh_namespace
    on_result initialized
        (λ strategy. do
          listed ← call env (list_role_bindings mesh_namespace owner_key mesh_namespace)
          on_result listed
              (λ rbs. pure (
                ok (record {
                  mesh_namespace = mesh_namespace;
                  mesh_version = mesh_version;
                  is_cni_enabled = is_cni_enabled;
                  networking_strategy = strategy;
                  role_bindings_list = rbs;
                  required_role_bindings = name_set (metas_of_role_bindings rbs);
                })))
              (λ e. pure (err (errors.wrap "error retrieving RoleBinding resources for mesh" e))))
        (λ e. pure (err e))
