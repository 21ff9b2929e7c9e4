-- ===== src/Member/Namespaces.antt =====
-- pkg/controller/servicemesh/member/namespace_reconciler.go: what is done in the namespace of a
-- member, to bring it into a mesh and to take it out.
use istio_operator.Prelude.{
  not, ◌&&◌, String, List, [], ◌∷◌, ◌++◌, Option, none, some, is_some, ◌==◌, if◌then◌else◌, concat,
}
use istio_operator.Prog.{Prog, pure, ◌>>=◌, on_result, on_error, when}
use istio_operator.Kube.{ObjectMeta, Env, Call, call, Namespace, get_namespace, update_namespace}
use istio_operator.Common.{member_of_key, has_label, get_label, set_label, delete_label}
use istio_operator.Member.Networking.{reconcile_network, remove_network}
use istio_operator.Member.Reconciler.{NamespaceReconciler, cni_network_name}
use istio_operator.Member.RoleBindings.{reconcile_role_bindings, remove_role_bindings}
use istio_operator.Member.Attachments.{
  add_network_attachment_definition, remove_network_attachment_definition,
}

text_or_empty : Option String → String
text_or_empty none = ""
text_or_empty (some s) = s

-- Labels[MemberOfKey], which is empty if it is missing
unfoldable pub member_of : ObjectMeta → String
unfolding text_or_empty
member_of o = text_or_empty (get_label o member_of_key)

module _ {E : Type 0} (env : Env E) where
  open env use {errors}

  -- An error that is collected, if there is one.
  unfoldable pub collected : Option E → List E
  collected none = []
  collected (some e) = e ∷ []

  -- The last part of removeNamespaceFromMesh, which deletes the label from a fresh copy.
  unfoldable pub remove_member_label : String → List E → Prog Call (Option E)
  unfolding collected
  remove_member_label namespace all_errors = do
    fresh ← call env (get_namespace namespace)
    on_result fresh
        (λ ns. do
          e ← call env (update_namespace (record { meta = delete_label ns.meta member_of_key }))
          on_error e
              (λ x. pure (
                errors.new_aggregate (
                  if errors.is_not_found x
                  then all_errors
                  else all_errors
                    ++ errors.wrap
                        (concat ("error removing member-of label from namespace " ∷ namespace ∷ []))
                        x
                      ∷ [])))
              (pure (errors.new_aggregate all_errors)))
        (λ e. pure (
          errors.new_aggregate
            (if errors.is_not_found e then all_errors else all_errors ++ e ∷ [])))

  -- removeNamespaceFromMesh
  unfoldable pub remove_namespace_from_mesh : NamespaceReconciler → String → Prog Call (Option E)
  remove_namespace_from_mesh r namespace = do
    got ← call env (get_namespace namespace)
    on_result got
        (λ ns. when (is_some ns.meta.deletion_timestamp) (pure (some errors.terminating)) (do
          es ← remove_role_bindings env r.mesh_namespace namespace
          nad_error ← remove_network_attachment_definition env r.mesh_namespace namespace
          network_error ← remove_network env r.mesh_namespace r.networking_strategy namespace
          remove_member_label namespace (es ++ collected nad_error ++ collected network_error)))
        (λ e. pure (if errors.is_not_found e then none else some e))

  -- The last part of reconcileNamespaceInMesh, which adds the label to a fresh copy.
  unfoldable pub add_member_label : String → String → Prog Call (List E)
  add_member_label mesh_namespace namespace = do
    fresh ← call env (get_namespace namespace)
    on_result fresh
        (λ ns. do
          e ←
              call env (
                update_namespace (record { meta = set_label ns.meta member_of_key mesh_namespace }))
          on_error e
              (λ x. pure (
                errors.wrap (concat ("error adding member-of label to namespace " ∷ namespace ∷ []))
                  x
                ∷ []))
              (pure []))
        (λ e. pure (e ∷ []))

  -- What reconcileNamespaceInMesh does once the network is configured.
  unfoldable pub configure_namespace :
      NamespaceReconciler → Namespace → String → Prog Call (Option E)
  configure_namespace r ns namespace = do
    rb_error ← reconcile_role_bindings env r namespace
    nad_error ←
        when r.is_cni_enabled
          (add_network_attachment_definition env r.mesh_namespace namespace
            (cni_network_name r.mesh_version))
          (remove_network_attachment_definition env r.mesh_namespace namespace)
    label_errors ←
        when (has_label ns.meta member_of_key) (pure [])
          (add_member_label r.mesh_namespace namespace)
    pure (errors.new_aggregate (collected rb_error ++ collected nad_error ++ label_errors))

  -- reconcileNamespaceInMesh
  unfoldable pub reconcile_namespace_in_mesh : NamespaceReconciler → String → Prog Call (Option E)
  reconcile_namespace_in_mesh r namespace = do
    got ← call env (get_namespace namespace)
    on_result got
        (λ ns. when (is_some ns.meta.deletion_timestamp) (pure (some errors.terminating)) (
          when (not (member_of ns.meta == "") && not (member_of ns.meta == r.mesh_namespace))
            (pure (
              some (
                errors.errorf (
                  concat (
                    "cannot reconcile namespace "
                    ∷ namespace
                    ∷ " in mesh "
                    ∷ r.mesh_namespace
                    ∷ ", as it is already a member of "
                    ∷ member_of ns.meta
                    ∷ [])))))
            (do
              network_error ← reconcile_network env r.mesh_namespace r.networking_strategy namespace
              on_error network_error (λ e. pure (some e)) (configure_namespace r ns namespace))))
        (λ e. pure (some e))
