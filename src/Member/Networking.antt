-- ===== src/Member/Networking.antt =====
-- pkg/controller/servicemesh/member/ovs_networkpolicy.go, ovs_multitenant.go and ovs_subnet.go: the
-- three ways to let the pods of a member's namespace talk to the mesh.
use istio_operator.Prelude.{
  Bool, true, false, not, ◌&&◌, ◌||◌, String, List, [], ◌∷◌, ◌++◌, Option, none, some, has,
  set_insert, set_insert_all, difference, ◌==◌, nat_eq, if◌then◌else◌,
}
use istio_operator.Prog.{Prog, Result, ok, err, pure, ◌>>=◌, on_result, on_error, when}
use istio_operator.Kube.{
  ObjectMeta, Env, Call, call, NetworkPolicy, PodNetworkAction, join_pod_network,
  isolate_pod_network, global_pod_network, list_network_policies, create_network_policy,
  delete_network_policy, get_net_namespace, update_net_namespace, await_net_namespace,
}
use istio_operator.Common.{member_of_key, owner_key, internal_key, has_annotation, name_set}
use istio_operator.Member.Cleanup.{copied_meta, delete_each}

-- The NamespaceReconciler that initializeNetworkingStrategy chooses.
pub data Strategy : Type 0 where
  subnet : Strategy
  -- requiredNetworkPolicies and networkPoliciesList
  network_policy : List String → List NetworkPolicy → Strategy
  multitenant : Strategy

-- The names of the policies that are not internal to the mesh.
unfoldable pub required_policies : List NetworkPolicy → List String
required_policies [] = []
required_policies (np ∷ nps) =
    let rest = required_policies nps in
    if has_annotation np.meta internal_key then rest else set_insert np.meta.name rest

unfoldable pub metas_of_policies : List NetworkPolicy → List ObjectMeta
metas_of_policies [] = []
metas_of_policies (np ∷ nps) = np.meta ∷ metas_of_policies nps

is_join : PodNetworkAction → Bool
is_join join_pod_network = true
is_join _ = false

is_isolate : PodNetworkAction → Bool
is_isolate isolate_pod_network = true
is_isolate _ = false

pending_join : String → Option (PodNetworkAction × String) → Bool
unfolding is_join
pending_join mesh none = false
pending_join mesh (some (action, ns)) = is_join action && ns == mesh

pending_isolate : Option (PodNetworkAction × String) → Bool
unfolding is_isolate
pending_isolate none = false
pending_isolate (some (action, ns)) = is_isolate action

-- Whether updateNetworkNamespace has nothing to do, given whether the networks are joined.
unfoldable pub nothing_to_do :
    PodNetworkAction → Bool → String → Option (PodNetworkAction × String) → Bool
unfolding pending_join pending_isolate
nothing_to_do join_pod_network joined mesh pending = joined || pending_join mesh pending
nothing_to_do isolate_pod_network joined mesh pending = not joined || pending_isolate pending
nothing_to_do global_pod_network joined mesh pending = false

module _ {E : Type 0} (env : Env E) (mesh_namespace : String) where
  open env use {errors}

  -- newNetworkPolicyStrategy and init
  unfoldable pub new_network_policy_strategy : Prog Call (Result E Strategy)
  unfolding required_policies
  new_network_policy_strategy = do
    listed ← call env (list_network_policies mesh_namespace owner_key mesh_namespace)
    on_result listed (λ policies. pure (ok (network_policy (required_policies policies) policies)))
        (λ e. pure (err e))

  -- The first loop of reconcileNamespaceInMesh: the policies that were created, and the errors.
  unfoldable pub add_policies :
      String → List String → List String → List NetworkPolicy → Prog Call (List String × List E)
  add_policies namespace required existing [] = pure ([], [])
  add_policies namespace required existing (np ∷ nps) =
      let rest = add_policies namespace required existing nps in
      when (has np.meta.name required && not (has np.meta.name existing))
        (do
          e ← call env (
              create_network_policy
                (record np { meta = copied_meta mesh_namespace namespace np.meta }))
          (added, es) ← rest
          on_error e (λ x. pure (added, x ∷ es)) (pure (set_insert np.meta.name added, es)))
        rest

  -- networkPolicyStrategy.reconcileNamespaceInMesh
  unfoldable pub reconcile_network_policies :
      List String → List NetworkPolicy → String → Prog Call (Option E)
  unfolding add_policies
  reconcile_network_policies required policies namespace = do
    listed ← call env (list_network_policies namespace member_of_key mesh_namespace)
    on_result listed
        (λ found. do
          let existing = name_set (metas_of_policies found)
          (added, es) ← add_policies namespace required existing policies
          es' ←
              delete_each env (λ name. call env (delete_network_policy namespace name))
                (difference (set_insert_all added existing) required)
          pure (errors.new_aggregate (es ++ es')))
        (λ e. pure (some e))

  -- networkPolicyStrategy.removeNamespaceFromMesh
  unfoldable pub remove_network_policies : String → Prog Call (Option E)
  remove_network_policies namespace = do
    listed ← call env (list_network_policies namespace member_of_key mesh_namespace)
    on_result listed
        (λ found. do
          es ←
              delete_each env
                (λ (np : NetworkPolicy).
                  call env (delete_network_policy np.meta.namespace np.meta.name))
                found
          pure (errors.new_aggregate es))
        (λ e. pure (errors.new_aggregate (e ∷ [])))

  -- multitenantStrategy.updateNetworkNamespace; the wait for the SDN controller is one call
  unfoldable pub update_network_namespace :
      String → PodNetworkAction → String → Prog Call (Option E)
  unfolding nothing_to_do
  update_network_namespace namespace action args = do
    got ← call env (get_net_namespace namespace)
    on_result got
        (λ netns. do
          got_mesh ← call env (get_net_namespace mesh_namespace)
          on_result got_mesh
              (λ mesh_netns.
                when
                  (nothing_to_do action (nat_eq netns.net_id mesh_netns.net_id) mesh_namespace
                    netns.pending)
                  (pure none)
                  (do
                    e ←
                        call env
                          (update_net_namespace (record netns { pending = some (action, args) }))
                    on_error e (λ x. pure (some x)) (call env (await_net_namespace namespace))))
              (λ e. pure (some e)))
        (λ e. pure (some e))

  -- reconcileNamespaceInMesh of the chosen strategy
  unfoldable pub reconcile_network : Strategy → String → Prog Call (Option E)
  reconcile_network subnet namespace = pure none
  reconcile_network (network_policy required policies) namespace =
      reconcile_network_policies required policies namespace
  reconcile_network multitenant namespace =
      update_network_namespace namespace join_pod_network mesh_namespace

  -- removeNamespaceFromMesh of the chosen strategy
  unfoldable pub remove_network : Strategy → String → Prog Call (Option E)
  remove_network subnet namespace = pure none
  remove_network (network_policy required policies) namespace = remove_network_policies namespace
  remove_network multitenant namespace = update_network_namespace namespace isolate_pod_network ""
