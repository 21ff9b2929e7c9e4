-- ===== src/Member/Safety.antt =====
-- The calls of the namespace reconciler (pkg/controller/servicemesh/member/namespace_reconciler.go) and
-- of the networking strategies.
use istio_operator.Prelude.{
  Bool, false, ◌||◌, ◌≡◌, ◌≢◌, String, List, [], ◌∷◌, Option, none, ◌==◌, eq_iff, arith,
}
use istio_operator.Prog.{Prog}
use istio_operator.Prog.Emits.{Emits, Emits-when, Emits-bind}
use istio_operator.Kube.{
  ObjectMeta, Env, Call, RoleBinding, NetworkPolicy, PodNetworkAction, Namespace, call_rules,
  Emits-create_role_binding, Emits-create_network_policy,
}
use istio_operator.Common.{member_of_key, get_label, set_label}
use istio_operator.Common.Labels.{get_label-set_label_only, get_label-delete_label}
use istio_operator.Versions.{Ver}
use istio_operator.Member.Reconciler.{
  NamespaceReconciler, strategy_of_plugin, initialize_networking_strategy, new_namespace_reconciler,
}
use istio_operator.Member.RoleBindings.{
  add_role_bindings, reconcile_role_bindings, remove_role_bindings,
}
use istio_operator.Member.Attachments.{
  new_nad, add_network_attachment_definition, remove_network_attachment_definition,
}
use istio_operator.Member.Networking.{
  Strategy, subnet, network_policy, multitenant, add_policies, update_network_namespace,
  reconcile_network, remove_network, reconcile_network_policies, remove_network_policies,
  new_network_policy_strategy,
}
use istio_operator.Member.Namespaces.{
  remove_member_label, add_member_label, remove_namespace_from_mesh, configure_namespace,
  reconcile_namespace_in_mesh,
}
use istio_operator.Member.Cleanup.{copied_meta, delete_each}
use istio_operator.Member.Permitted.{IsCopy, Permitted}

copied_meta-IsCopy :
    (mesh namespace : String) (o : ObjectMeta) → IsCopy (copied_meta mesh namespace o)
unfolding copied_meta set_label
copied_meta-IsCopy mesh namespace o = record {
  labelled = λ h. cc (simp (get_label-delete_label, get_label-set_label_only) at h);
  no_owner = simp get_label-delete_label;
  no_owner_name = simp get_label-delete_label;
  no_version = simp get_label-delete_label;
}

role_ref :
    (rb : RoleBinding) (b : Bool)
    → (rb.role_ref_kind == "Role" || b) ≡ false
    → rb.role_ref_kind ≢ "Role"
role_ref rb b h e = ground (arith, eq_iff rb.role_ref_kind "Role")

module _ {E : Type 0} (env : Env E) where
  delete_each-Permitted :
      {A : Type 0} (delete : A → Prog Call (Option E)) (xs : List A)
      → ((x : A) → Emits Permitted (delete x))
      → Emits Permitted (delete_each env delete xs)
  unfolding delete_each
  delete_each-Permitted delete [] h = search call_rules
  delete_each-Permitted delete (x ∷ xs) h =
      let rest = delete_each-Permitted delete xs h in
      Emits-bind _ _ (h x) (λ e. search (call_rules, rest))

  add_role_bindings-Permitted :
      (mesh namespace : String) (existing : List String) (rbs : List RoleBinding)
      → Emits Permitted (add_role_bindings env mesh namespace existing rbs)
  unfolding add_role_bindings
  add_role_bindings-Permitted mesh namespace existing [] = search call_rules
  add_role_bindings-Permitted mesh namespace existing (rb ∷ rbs) =
      let rest = add_role_bindings-Permitted mesh namespace existing rbs in
      Emits-when _ _ _ (λ skip. rest)
        λ fits.
          Emits-bind _ _
            (Emits-create_role_binding env (record rb { meta = copied_meta mesh namespace rb.meta })
              (copied_meta-IsCopy mesh namespace rb.meta, role_ref rb _ fits))
            λ e. Emits-bind _ _ rest (λ r. search call_rules)

  reconcile_role_bindings-Permitted :
      (r : NamespaceReconciler) (namespace : String)
      → Emits Permitted (reconcile_role_bindings env r namespace)
  unfolding reconcile_role_bindings
  reconcile_role_bindings-Permitted r namespace =
      search (call_rules, delete_each-Permitted, add_role_bindings-Permitted) depth 12

  remove_role_bindings-Permitted :
      (mesh namespace : String) → Emits Permitted (remove_role_bindings env mesh namespace)
  unfolding remove_role_bindings
  remove_role_bindings-Permitted mesh namespace =
      search (call_rules, delete_each-Permitted) depth 12

  new_nad_labelled :
      (mesh namespace name : String)
      → get_label (new_nad env mesh namespace name).meta member_of_key ≢ none
  unfolding new_nad
  new_nad_labelled mesh namespace name h = cc (simp get_label-set_label_only at h)

  add_network_attachment_definition-Permitted :
      (mesh namespace name : String)
      → Emits Permitted (add_network_attachment_definition env mesh namespace name)
  unfolding add_network_attachment_definition
  add_network_attachment_definition-Permitted mesh namespace name =
      search (call_rules, delete_each-Permitted, new_nad_labelled) depth 14

  remove_network_attachment_definition-Permitted :
      (mesh namespace : String)
      → Emits Permitted (remove_network_attachment_definition env mesh namespace)
  unfolding remove_network_attachment_definition
  remove_network_attachment_definition-Permitted mesh namespace =
      search (call_rules, delete_each-Permitted) depth 14

  add_policies-Permitted :
      (mesh namespace : String) (required existing : List String) (nps : List NetworkPolicy)
      → Emits Permitted (add_policies env mesh namespace required existing nps)
  unfolding add_policies
  add_policies-Permitted mesh namespace required existing [] = search call_rules
  add_policies-Permitted mesh namespace required existing (np ∷ nps) =
      let rest = add_policies-Permitted mesh namespace required existing nps in
      Emits-when _ _ _
        (λ wanted.
          Emits-bind _ _
            (Emits-create_network_policy env
              (record np { meta = copied_meta mesh namespace np.meta })
              (copied_meta-IsCopy mesh namespace np.meta))
            λ e. Emits-bind _ _ rest (λ r. search call_rules))
        (λ skip. rest)

  update_network_namespace-Permitted :
      (mesh namespace : String) (action : PodNetworkAction) (args : String)
      → Emits Permitted (update_network_namespace env mesh namespace action args)
  unfolding update_network_namespace
  update_network_namespace-Permitted mesh namespace action args = search call_rules depth 16

  reconcile_network-Permitted :
      (mesh : String) (s : Strategy) (namespace : String)
      → Emits Permitted (reconcile_network env mesh s namespace)
  unfolding reconcile_network reconcile_network_policies
  reconcile_network-Permitted mesh subnet namespace = search call_rules
  reconcile_network-Permitted mesh (network_policy required policies) namespace =
      search (call_rules, add_policies-Permitted, delete_each-Permitted) depth 14
  reconcile_network-Permitted mesh multitenant namespace =
      update_network_namespace-Permitted mesh namespace _ _

  remove_network-Permitted :
      (mesh : String) (s : Strategy) (namespace : String)
      → Emits Permitted (remove_network env mesh s namespace)
  unfolding remove_network remove_network_policies
  remove_network-Permitted mesh subnet namespace = search call_rules
  remove_network-Permitted mesh (network_policy required policies) namespace =
      search (call_rules, delete_each-Permitted) depth 14
  remove_network-Permitted mesh multitenant namespace =
      update_network_namespace-Permitted mesh namespace _ _

  new_network_policy_strategy-Permitted :
      (mesh : String) → Emits Permitted (new_network_policy_strategy env mesh)
  unfolding new_network_policy_strategy
  new_network_policy_strategy-Permitted mesh = search call_rules depth 14

  strategy_of_plugin-Permitted :
      (mesh plugin : String) → Emits Permitted (strategy_of_plugin env mesh plugin)
  unfolding strategy_of_plugin
  strategy_of_plugin-Permitted mesh plugin =
      search (call_rules, new_network_policy_strategy-Permitted) depth 14

  initialize_networking_strategy-Permitted :
      (mesh : String) → Emits Permitted (initialize_networking_strategy env mesh)
  unfolding initialize_networking_strategy
  initialize_networking_strategy-Permitted mesh =
      search (call_rules, new_network_policy_strategy-Permitted, strategy_of_plugin-Permitted) depth
        14

  pub new_namespace_reconciler-Permitted :
      (mesh : String) (v : Option Ver) (cni : Bool)
      → Emits Permitted (new_namespace_reconciler env mesh v cni)
  unfolding new_namespace_reconciler
  new_namespace_reconciler-Permitted mesh v cni =
      search (call_rules, initialize_networking_strategy-Permitted) depth 14

  remove_member_label-Permitted :
      (namespace : String) (es : List E) → Emits Permitted (remove_member_label env namespace es)
  unfolding remove_member_label
  remove_member_label-Permitted namespace es = search call_rules depth 14

  add_member_label-Permitted :
      (mesh namespace : String) → Emits Permitted (add_member_label env mesh namespace)
  unfolding add_member_label
  add_member_label-Permitted mesh namespace = search call_rules depth 14

  ruleset namespace_rules = (
    call_rules, remove_role_bindings-Permitted, remove_network_attachment_definition-Permitted,
    remove_network-Permitted, remove_member_label-Permitted, reconcile_role_bindings-Permitted,
    add_network_attachment_definition-Permitted, add_member_label-Permitted,
    reconcile_network-Permitted,
  )

  pub remove_namespace_from_mesh-Permitted :
      (r : NamespaceReconciler) (namespace : String)
      → Emits Permitted (remove_namespace_from_mesh env r namespace)
  unfolding remove_namespace_from_mesh
  remove_namespace_from_mesh-Permitted r namespace = search namespace_rules depth 16

  configure_namespace-Permitted :
      (r : NamespaceReconciler) (ns : Namespace) (namespace : String)
      → Emits Permitted (configure_namespace env r ns namespace)
  unfolding configure_namespace
  configure_namespace-Permitted r ns namespace = search namespace_rules depth 16

  pub reconcile_namespace_in_mesh-Permitted :
      (r : NamespaceReconciler) (namespace : String)
      → Emits Permitted (reconcile_namespace_in_mesh env r namespace)
  unfolding reconcile_namespace_in_mesh
  reconcile_namespace_in_mesh-Permitted r namespace =
      search (namespace_rules, configure_namespace-Permitted) depth 16
