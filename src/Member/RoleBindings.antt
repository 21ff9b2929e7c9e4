-- ===== src/Member/RoleBindings.antt =====
-- Role bindings of a member's namespace (pkg/controller/servicemesh/member/namespace_reconciler.go).
use istio_operator.Prelude.{
  ◌||◌, String, List, [], ◌∷◌, ◌++◌, Option, some, has, set_insert, set_insert_all, difference,
  ◌==◌,
}
use istio_operator.Prog.{Prog, pure, ◌>>=◌, on_result, on_error, when}
use istio_operator.Kube.{
  Env, Call, call, RoleBinding, list_role_bindings, create_role_binding, delete_role_binding,
}
use istio_operator.Common.{member_of_key, name_set}
use istio_operator.Member.Cleanup.{copied_meta, delete_each}
use istio_operator.Member.Reconciler.{NamespaceReconciler, metas_of_role_bindings}

module _ {E : Type 0} (env : Env E) where
  open env use {errors}

  -- The first loop of reconcileRoleBindings: the bindings that were created, and the errors.
  unfoldable pub add_role_bindings :
      String → String → List String → List RoleBinding → Prog Call (List String × List E)
  add_role_bindings mesh_namespace namespace existing [] = pure ([], [])
  add_role_bindings mesh_namespace namespace existing (rb ∷ rbs) =
      let rest = add_role_bindings mesh_namespace namespace existing rbs in
      when (rb.role_ref_kind == "Role" || has rb.meta.name existing) rest (do
        e ← call env (
            create_role_binding (record rb { meta = copied_meta mesh_namespace namespace rb.meta }))
        (added, es) ← rest
        on_error e (λ x. pure (added, x ∷ es)) (pure (set_insert rb.meta.name added, es)))

  -- reconcileRoleBindings
  unfoldable pub reconcile_role_bindings : NamespaceReconciler → String → Prog Call (Option E)
  reconcile_role_bindings r namespace = do
    listed ← call env (list_role_bindings namespace member_of_key r.mesh_namespace)
    on_result listed
        (λ found. do
          let existing = name_set (metas_of_role_bindings found)
          (added, es) ← add_role_bindings r.mesh_namespace namespace existing r.role_bindings_list
          es' ←
              delete_each env (λ name. call env (delete_role_binding namespace name))
                (difference (set_insert_all added existing) r.required_role_bindings)
          pure (errors.new_aggregate (es ++ es')))
        (λ e. pure (some e))

  -- The deletion of the role bindings in removeNamespaceFromMesh.
  unfoldable pub remove_role_bindings : String → String → Prog Call (List E)
  remove_role_bindings mesh_namespace namespace = do
    listed ← call env (list_role_bindings namespace member_of_key mesh_namespace)
    on_result listed
        (delete_each env
          (λ (rb : RoleBinding). call env (delete_role_binding rb.meta.namespace rb.meta.name)))
        (λ e. pure (e ∷ []))
