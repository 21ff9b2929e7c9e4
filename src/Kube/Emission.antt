-- ===== src/Kube/Emission.antt =====
-- Emission rules for the calls of the API server: one rule for each call, so that the answer's type
-- is known where a rule is searched for.
use istio_operator.Prelude.{String, List}
use istio_operator.Prog.Emits.{Emits, Emits-perform, Emits-observe, emits_rules}
use istio_operator.Kube.Objects.{
  NamespacedName, Namespace, Member, MemberRoll, RoleBinding, NetworkPolicy, NetworkAttachment,
  NetNamespace,
}
use istio_operator.Kube.Api.{
  Call, Env, call, now, AccessReview, get_member, list_members, create_member, update_member,
  delete_member, patch_member_status, get_roll, list_rolls, create_roll, update_roll, delete_roll,
  patch_roll_status, get_namespace, list_namespaces, update_namespace, get_control_plane,
  list_control_planes, list_role_bindings, list_network_policies, list_nads, create_role_binding,
  create_network_policy, create_nad, delete_role_binding, delete_network_policy, delete_nad,
  get_network, get_cluster_network, get_net_namespace, update_net_namespace, await_net_namespace,
  get_kiali, patch_kiali, record_event, review_access,
}

module _ {E : Type 0} {Q : Call → Type 0} where
  pub Emits-call : (env : Env E) (c : Call) → Q c → Emits Q (call env c)
  unfolding call
  Emits-call env c q = Emits-perform c (λ log. env.reply log c) q

  pub Emits-now : (env : Env E) → Emits Q (now env)
  unfolding now
  Emits-now env = Emits-observe env.clock

  pub Emits-get_member :
      (env : Env E) (k : NamespacedName) → Q (get_member k) → Emits Q (call env (get_member k))
  Emits-get_member env k q = Emits-call env (get_member k) q

  pub Emits-list_members :
      (env : Env E) (s : String) → Q (list_members s) → Emits Q (call env (list_members s))
  Emits-list_members env s q = Emits-call env (list_members s) q

  pub Emits-create_member :
      (env : Env E) (m : Member) → Q (create_member m) → Emits Q (call env (create_member m))
  Emits-create_member env m q = Emits-call env (create_member m) q

  pub Emits-update_member :
      (env : Env E) (m : Member) → Q (update_member m) → Emits Q (call env (update_member m))
  Emits-update_member env m q = Emits-call env (update_member m) q

  pub Emits-delete_member :
      (env : Env E) (m : Member) → Q (delete_member m) → Emits Q (call env (delete_member m))
  Emits-delete_member env m q = Emits-call env (delete_member m) q

  pub Emits-patch_member_status :
      (env : Env E) (m : Member)
      → Q (patch_member_status m)
      → Emits Q (call env (patch_member_status m))
  Emits-patch_member_status env m q = Emits-call env (patch_member_status m) q

  pub Emits-get_roll :
      (env : Env E) (k : NamespacedName) → Q (get_roll k) → Emits Q (call env (get_roll k))
  Emits-get_roll env k q = Emits-call env (get_roll k) q

  pub Emits-list_rolls : (env : Env E) → Q list_rolls → Emits Q (call env list_rolls)
  Emits-list_rolls env q = Emits-call env list_rolls q

  pub Emits-create_roll :
      (env : Env E) (r : MemberRoll) → Q (create_roll r) → Emits Q (call env (create_roll r))
  Emits-create_roll env r q = Emits-call env (create_roll r) q

  pub Emits-update_roll :
      (env : Env E) (r : MemberRoll) → Q (update_roll r) → Emits Q (call env (update_roll r))
  Emits-update_roll env r q = Emits-call env (update_roll r) q

  pub Emits-delete_roll :
      (env : Env E) (r : MemberRoll) → Q (delete_roll r) → Emits Q (call env (delete_roll r))
  Emits-delete_roll env r q = Emits-call env (delete_roll r) q

  pub Emits-patch_roll_status :
      (env : Env E) (r : MemberRoll)
      → Q (patch_roll_status r)
      → Emits Q (call env (patch_roll_status r))
  Emits-patch_roll_status env r q = Emits-call env (patch_roll_status r) q

  pub Emits-get_namespace :
      (env : Env E) (s : String) → Q (get_namespace s) → Emits Q (call env (get_namespace s))
  Emits-get_namespace env s q = Emits-call env (get_namespace s) q

  pub Emits-list_namespaces : (env : Env E) → Q list_namespaces → Emits Q (call env list_namespaces)
  Emits-list_namespaces env q = Emits-call env list_namespaces q

  pub Emits-update_namespace :
      (env : Env E) (n : Namespace)
      → Q (update_namespace n)
      → Emits Q (call env (update_namespace n))
  Emits-update_namespace env n q = Emits-call env (update_namespace n) q

  pub Emits-get_control_plane :
      (env : Env E) (k : NamespacedName)
      → Q (get_control_plane k)
      → Emits Q (call env (get_control_plane k))
  Emits-get_control_plane env k q = Emits-call env (get_control_plane k) q

  pub Emits-list_control_planes :
      (env : Env E) (s : String)
      → Q (list_control_planes s)
      → Emits Q (call env (list_control_planes s))
  Emits-list_control_planes env s q = Emits-call env (list_control_planes s) q

  pub Emits-list_role_bindings :
      (env : Env E) (s k v : String)
      → Q (list_role_bindings s k v)
      → Emits Q (call env (list_role_bindings s k v))
  Emits-list_role_bindings env s k v q = Emits-call env (list_role_bindings s k v) q

  pub Emits-list_network_policies :
      (env : Env E) (s k v : String)
      → Q (list_network_policies s k v)
      → Emits Q (call env (list_network_policies s k v))
  Emits-list_network_policies env s k v q = Emits-call env (list_network_policies s k v) q

  pub Emits-list_nads :
      (env : Env E) (s k v : String) → Q (list_nads s k v) → Emits Q (call env (list_nads s k v))
  Emits-list_nads env s k v q = Emits-call env (list_nads s k v) q

  pub Emits-create_role_binding :
      (env : Env E) (rb : RoleBinding)
      → Q (create_role_binding rb)
      → Emits Q (call env (create_role_binding rb))
  Emits-create_role_binding env rb q = Emits-call env (create_role_binding rb) q

  pub Emits-create_network_policy :
      (env : Env E) (np : NetworkPolicy)
      → Q (create_network_policy np)
      → Emits Q (call env (create_network_policy np))
  Emits-create_network_policy env np q = Emits-call env (create_network_policy np) q

  pub Emits-create_nad :
      (env : Env E) (n : NetworkAttachment) → Q (create_nad n) → Emits Q (call env (create_nad n))
  Emits-create_nad env n q = Emits-call env (create_nad n) q

  pub Emits-delete_role_binding :
      (env : Env E) (s n : String)
      → Q (delete_role_binding s n)
      → Emits Q (call env (delete_role_binding s n))
  Emits-delete_role_binding env s n q = Emits-call env (delete_role_binding s n) q

  pub Emits-delete_network_policy :
      (env : Env E) (s n : String)
      → Q (delete_network_policy s n)
      → Emits Q (call env (delete_network_policy s n))
  Emits-delete_network_policy env s n q = Emits-call env (delete_network_policy s n) q

  pub Emits-delete_nad :
      (env : Env E) (s n : String) → Q (delete_nad s n) → Emits Q (call env (delete_nad s n))
  Emits-delete_nad env s n q = Emits-call env (delete_nad s n) q

  pub Emits-get_network : (env : Env E) → Q get_network → Emits Q (call env get_network)
  Emits-get_network env q = Emits-call env get_network q

  pub Emits-get_cluster_network :
      (env : Env E) → Q get_cluster_network → Emits Q (call env get_cluster_network)
  Emits-get_cluster_network env q = Emits-call env get_cluster_network q

  pub Emits-get_net_namespace :
      (env : Env E) (s : String)
      → Q (get_net_namespace s)
      → Emits Q (call env (get_net_namespace s))
  Emits-get_net_namespace env s q = Emits-call env (get_net_namespace s) q

  pub Emits-update_net_namespace :
      (env : Env E) (n : NetNamespace)
      → Q (update_net_namespace n)
      → Emits Q (call env (update_net_namespace n))
  Emits-update_net_namespace env n q = Emits-call env (update_net_namespace n) q

  pub Emits-await_net_namespace :
      (env : Env E) (s : String)
      → Q (await_net_namespace s)
      → Emits Q (call env (await_net_namespace s))
  Emits-await_net_namespace env s q = Emits-call env (await_net_namespace s) q

  pub Emits-get_kiali :
      (env : Env E) (k : NamespacedName) → Q (get_kiali k) → Emits Q (call env (get_kiali k))
  Emits-get_kiali env k q = Emits-call env (get_kiali k) q

  pub Emits-patch_kiali :
      (env : Env E) (k : NamespacedName) (a e : List String)
      → Q (patch_kiali k a e)
      → Emits Q (call env (patch_kiali k a e))
  Emits-patch_kiali env k a e q = Emits-call env (patch_kiali k a e) q

  pub Emits-record_event :
      (env : Env E) (t r m : String)
      → Q (record_event t r m)
      → Emits Q (call env (record_event t r m))
  Emits-record_event env t r m q = Emits-call env (record_event t r m) q

  pub Emits-review_access :
      (env : Env E) (r : AccessReview) → Q (review_access r) → Emits Q (call env (review_access r))
  Emits-review_access env r q = Emits-call env (review_access r) q

pub ruleset call_rules = (
  emits_rules, Emits-now, Emits-get_member, Emits-list_members, Emits-create_member,
  Emits-update_member, Emits-delete_member, Emits-patch_member_status, Emits-get_roll,
  Emits-list_rolls, Emits-create_roll, Emits-update_roll, Emits-delete_roll,
  Emits-patch_roll_status, Emits-get_namespace, Emits-list_namespaces, Emits-update_namespace,
  Emits-get_control_plane, Emits-list_control_planes, Emits-list_role_bindings,
  Emits-list_network_policies, Emits-list_nads, Emits-create_role_binding,
  Emits-create_network_policy, Emits-create_nad, Emits-delete_role_binding,
  Emits-delete_network_policy, Emits-delete_nad, Emits-get_network, Emits-get_cluster_network,
  Emits-get_net_namespace, Emits-update_net_namespace, Emits-await_net_namespace, Emits-get_kiali,
  Emits-patch_kiali, Emits-record_event, Emits-review_access,
)
