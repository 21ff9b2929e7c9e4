-- ===== src/Member/Controller.antt =====
-- pkg/controller/servicemesh/member/controller.go: Reconcile of one ServiceMeshMember.
-- Logging is left out. The member that the code changes in memory is passed on by hand, but for a
-- status that was written: an update of finalizers does not write the status.
use istio_operator.Prelude.{
  Bool, true, String, [], ◌∷◌, Option, none, some, is_some, ◌==◌, if◌then◌else◌, concat,
}
use istio_operator.Errors.Conflict.{ReconcileResult, done}
use istio_operator.Prog.{Prog, pure, ◌>>=◌, on_result, on_error, when}
use istio_operator.Status.{set_annotation, compose_reconciled_version}
use istio_operator.Kube.{
  ObjectMeta, NamespacedName, Env, Call, call, Member, ControlPlane, ControlPlaneRef, get_member,
  update_member, get_control_plane,
}
use istio_operator.Common.{has_finalizer, add_finalizer, remove_finalizer}
use istio_operator.Versions.{parse_version}
use istio_operator.Member.Reconciler.{new_namespace_reconciler}
use istio_operator.Member.Namespaces.{reconcile_namespace_in_mesh, remove_namespace_from_mesh}
use istio_operator.Member.Status.{update_status, report_error}
use istio_operator.Member.Rolls.{create_member_roll_if_needed, remove_member_roll_if_needed}

-- What Reconcile returns.
abbrev pub Outcome : Type 0 → Type 0
Outcome E = ReconcileResult × Option E

-- ServiceMeshControlPlaneRef.String
unfoldable pub ref_string : ControlPlaneRef → String
ref_string ref = concat (ref.namespace ∷ "/" ∷ ref.name ∷ [])

-- toObjectKey
unfoldable pub to_object_key : ControlPlaneRef → NamespacedName
to_object_key ref = record { namespace = ref.namespace; name = ref.name }

module _ {E : Type 0} (env : Env E) where
  open env use {errors, print_int}

  -- finalizeObject
  unfoldable pub finalize_object : Bool → Member → Prog Call (Option E)
  finalize_object cni_enabled member = do
    made ← new_namespace_reconciler env member.control_plane_ref.namespace none cni_enabled
    on_result made
        (λ reconciler. do
          removed ← remove_namespace_from_mesh env reconciler member.meta.namespace
          on_error removed (report_error env member "ErrorRemovingNamespace") (do
            roll_error ← remove_member_roll_if_needed env member
            on_error roll_error
                (λ e. do
                  reported ← report_error env member "DeleteMemberRollFailed" e
                  on_error reported (λ x. pure (some x)) (pure (some e)))
                (pure none)))
        (λ e. pure (some e))

  finish : Option E → Outcome E
  finish e = (done, e)

  -- Step 4 of reconcileObject.
  unfoldable pub mark_reconciled : Member → ControlPlane → Prog Call (Outcome E)
  unfolding finish
  mark_reconciled member smcp = do
    let status = member.status
    e ←
        update_status env
          (record member {
            status = record status {
              mesh_generation = smcp.observed_generation;
              mesh_reconciled_version =
                  compose_reconciled_version print_int smcp.operator_version
                    smcp.observed_generation;
            };
          })
          true true "" ""
    pure (finish e)

  -- Step 3 of reconcileObject.
  unfoldable pub configure : Bool → Member → ControlPlane → Prog Call (Outcome E)
  unfolding mark_reconciled
  configure cni_enabled member smcp =
      on_result (parse_version errors smcp.version)
        (λ version. do
          made ←
              new_namespace_reconciler env member.control_plane_ref.namespace (some version)
                cni_enabled
          on_result made
              (λ reconciler. do
                failed ← reconcile_namespace_in_mesh env reconciler member.meta.namespace
                on_error failed
                    (λ e. do
                      reported ← report_error env member "ErrorConfiguringNamespace" e
                      pure (finish reported))
                    (mark_reconciled member smcp))
              (λ e. pure (finish (some e))))
        (λ e. pure (finish (some e)))

  -- Steps 1 and 2 of reconcileObject, for a member outside its control plane's namespace.
  unfoldable pub reconcile_member : Bool → Member → Prog Call (Outcome E)
  unfolding finish
  reconcile_member cni_enabled member = do
    got ← call env (get_control_plane (to_object_key member.control_plane_ref))
    on_result got
        (λ smcp. do
          roll_error ← create_member_roll_if_needed env member
          on_error roll_error
              (λ e.
                when (errors.is_not_found e)
                  (do
                    reported ← report_error env member "CreateMemberRollFailed" e
                    pure (finish reported))
                  (pure (finish (some e))))
              (configure cni_enabled member smcp))
        (λ e.
          when (errors.is_not_found e)
            (do
              reported ←
                  report_error env member "ErrorControlPlaneMissing"
                    (errors.errorf "the referenced ServiceMeshControlPlane object does not exist")
              pure (finish reported))
            (pure (finish (some e))))

  -- reconcileObject
  unfoldable pub reconcile_object : Bool → Member → Prog Call (Outcome E)
  unfolding reconcile_member
  reconcile_object cni_enabled member =
      let status = member.status in
      when (member.meta.namespace == member.control_plane_ref.namespace) (pure (done, none)) (
        reconcile_member cni_enabled (record member {
          status = record status {
            annotations =
                set_annotation "controlPlaneRef" (ref_string member.control_plane_ref)
                  status.annotations;
          };
        }))

  -- The update that the finalizer helpers make.
  unfoldable pub update_meta : Member → ObjectMeta → Prog Call (Option E)
  update_meta member meta = call env (update_member (record member { meta = meta }))

  -- What Reconcile does with the object that it has read.
  unfoldable pub reconcile_found : Bool → Member → Prog Call (Outcome E)
  unfolding finish
  reconcile_found cni_enabled member =
      when (is_some member.meta.deletion_timestamp)
        (when (has_finalizer member.meta)
          (do
            failed ← finalize_object cni_enabled member
            on_error failed (λ e. pure (finish (some e)))
                (do e ← remove_finalizer env member.meta (update_meta member); pure (finish e)))
          (pure (done, none)))
        (when (has_finalizer member.meta) (reconcile_object cni_enabled member)
          (do e ← add_finalizer env member.meta (update_meta member); pure (finish e)))

  -- Reconcile
  unfoldable pub reconcile : Bool → NamespacedName → Prog Call (Outcome E)
  unfolding finish
  reconcile cni_enabled request = do
    got ← call env (get_member request)
    on_result got (reconcile_found cni_enabled)
        (λ e. pure (if errors.is_not_found e then (done, none) else finish (some e)))
