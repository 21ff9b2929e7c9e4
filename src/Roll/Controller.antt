-- ===== src/Roll/Controller.antt =====
-- pkg/controller/servicemesh/memberroll/controller.go: Reconcile of one ServiceMeshMemberRoll.
-- Logging is left out. The roll that the code changes in memory is passed on by hand.
use istio_operator.Prelude.{
  Bool, true, false, String, List, [], ◌∷◌, Option, none, some, is_some, ◌==◌, if◌then◌else◌,
  concat, new_set, difference,
}
use istio_operator.Prog.{Prog, pure, ◌>>=◌, on_result, on_error, when}
use istio_operator.Errors.Conflict.{done}
use istio_operator.Status.{get_annotation}
use istio_operator.Kube.{
  NamespacedName, ObjectMeta, Member, MemberRoll, RollStatus, Env, Call, call, now, get_roll,
  update_roll, list_members,
}
use istio_operator.Common.{has_finalizer, add_finalizer, remove_finalizer}
use istio_operator.Roll.Members.{delete_members, is_ours}
use istio_operator.Roll.Kiali.{reconcile_kiali}
use istio_operator.Roll.Status.{
  Mesh, mesh, no_mesh, set_ready_condition, update_status, get_service_mesh_control_plane,
}
use istio_operator.Roll.Sync.{Outcome, finish, reconcile_in_mesh}

module _ {E : Type 0} (env : Env E) where
  open env use {errors, sorted}

  -- The status of a roll that has no mesh, but for the ready condition.
  unfoldable pub meshless_status : String → RollStatus → RollStatus
  meshless_status reason status =
      if reason == "ErrSMCPMissing"
      then record status {
        pending_members =
            sorted (difference (new_set status.members) (new_set status.terminating_members));
        configured_members = [];
      }
      else status

  -- reconcileObject for the mesh that was found, or for none
  unfoldable pub reconcile_for : MemberRoll → List Member → Mesh → Prog Call (Outcome E)
  unfolding finish
  reconcile_for roll members (mesh m) = reconcile_in_mesh env roll m members
  reconcile_for roll members (no_mesh reason message) = do
    t ← now env
    e ←
        update_status env roll
          (set_ready_condition t (meshless_status reason roll.status) false reason message)
    pure (finish env e)

  -- reconcileObject
  unfoldable pub reconcile_object : MemberRoll → Prog Call (Outcome E)
  unfolding finish
  reconcile_object roll = do
    listed ← call env (list_members roll.meta.namespace)
    on_result listed
        (λ members. do
          got ← get_service_mesh_control_plane env roll.meta.namespace
          on_result got (reconcile_for roll members) (λ e. pure (finish env (some e))))
        (λ e. pure (finish env (some e)))

  -- What finalizeObject wraps an error of a deletion in.
  unfoldable pub delete_wrap : Member → E → E
  delete_wrap member e =
      errors.wrap
        (concat (
          "Could not delete ServiceMeshMember " ∷ member.meta.namespace ∷ "/" ∷ member.meta.name
          ∷ []))
        e

  -- finalizeObject, its Boolean and its error
  unfoldable pub finalize_object : MemberRoll → Prog Call (Bool × Option E)
  unfolding delete_wrap
  finalize_object roll = do
    listed ← call env (list_members roll.meta.namespace)
    on_result listed
        (λ members. do
          failed ← delete_members env is_ours delete_wrap members
          on_error failed (λ e. pure (false, some e))
              (do
                let kiali_name = get_annotation "kialiName" roll.status.annotations
                when (kiali_name == "") (pure (true, none)) (do
                  kiali_error ← reconcile_kiali env kiali_name roll.meta.namespace [] []
                  on_error kiali_error (λ e. pure (false, some e)) (pure (true, none)))))
        (λ e. pure (false, some e))

  -- The update that the finalizer helpers make.
  unfoldable pub update_meta : MemberRoll → ObjectMeta → Prog Call (Option E)
  update_meta roll meta = call env (update_roll (record roll { meta = meta }))

  -- What Reconcile does with the object that it has read.
  unfoldable pub reconcile_found : MemberRoll → Prog Call (Outcome E)
  unfolding finish
  reconcile_found roll =
      when (is_some roll.meta.deletion_timestamp)
        (when (has_finalizer roll.meta)
          (do
            (finalized, failed) ← finalize_object roll
            on_error failed (λ e. pure (finish env (some e)))
                (when finalized
                  (do e ← remove_finalizer env roll.meta (update_meta roll); pure (finish env e))
                  (pure (done, none))))
          (pure (done, none)))
        (when (has_finalizer roll.meta) (reconcile_object roll)
          (do e ← add_finalizer env roll.meta (update_meta roll); pure (finish env e)))

  -- Reconcile
  unfoldable pub reconcile : NamespacedName → Prog Call (Outcome E)
  unfolding finish
  reconcile request = do
    got ← call env (get_roll request)
    on_result got reconcile_found
        (λ e. pure (if errors.is_not_found e then (done, none) else finish env (some e)))
