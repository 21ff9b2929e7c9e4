-- ===== src/Roll/Sync.antt =====
-- Steps 3 to 7 of reconcileObject, for a roll that has a mesh
-- (pkg/controller/servicemesh/memberroll/controller.go).
use istio_operator.Prelude.{
  ℕ, Bool, true, false, ◌&&◌, String, List, [], ◌∷◌, Option, none, some, if◌then◌else◌, concat,
  new_set, set_insert_all, set_delete, difference,
}
use istio_operator.Prog.{Prog, Result, ok, err, pure, ◌>>=◌, on_result, on_error, when}
use istio_operator.Errors.Conflict.{done, ReconcileResult}
use istio_operator.Status.{set_annotation}
use istio_operator.Kube.{
  Member, MemberRoll, RollStatus, ControlPlane, Env, Call, call, now, list_namespaces,
}
use istio_operator.Roll.Membership.{
  is_cluster_scoped, cluster_members, control_plane_is_cluster_scoped, namespaces_of,
  get_excluded_namespaces,
}
use istio_operator.Roll.Members.{ensure_member_exists, delete_members, is_obsolete}
use istio_operator.Roll.Kiali.{is_kiali_enabled, kiali_resource_name, reconcile_kiali}
use istio_operator.Roll.Summary.{
  StatusMap, Tally, index_statuses, list_statuses, count_members, mesh_version,
}
use istio_operator.Roll.Status.{set_ready_condition, note_member, update_status}

-- What Reconcile returns.
abbrev pub Outcome : Type 0 → Type 0
Outcome E = ReconcileResult × Option E

-- allKnownMembers: the wanted namespaces and those that have a member, without the mesh's own.
unfoldable pub all_known_members : String → List String → List Member → List String
all_known_members mesh_namespace wanted members =
    set_delete mesh_namespace (set_insert_all (namespaces_of members) (new_set wanted))

-- The tally that step 5 starts from.
unfoldable pub empty_tally : StatusMap → Tally
empty_tally statuses = record {
  configured = [];
  up_to_date = [];
  terminating = [];
  statuses = statuses;
}

module _ {E : Type 0} (env : Env E) where
  open env use {errors, sorted, print_list}

  unfoldable pub finish : Option E → Outcome E
  finish e = (done, e)

  -- The loop of step 3: the status of every wanted namespace, or the error that stops it.
  unfoldable pub ensure_members :
      String → String → List String → StatusMap → Prog Call (Result E StatusMap)
  ensure_members mesh_name mesh_namespace [] statuses = pure (ok statuses)
  ensure_members mesh_name mesh_namespace (ns ∷ nss) statuses = do
    ensured ← ensure_member_exists env ns mesh_name mesh_namespace
    on_result ensured
        (λ member. do
          t ← now env
          ensure_members mesh_name mesh_namespace nss
              (note_member t mesh_name mesh_namespace ns member statuses))
        (λ e. pure (err e))

  -- The namespaces that the roll wants: those that it lists, or all but the excluded ones.
  unfoldable pub wanted_namespaces : MemberRoll → Prog Call (Result E (List String))
  wanted_namespaces roll =
      when (is_cluster_scoped roll.members)
        (do
          listed ← call env list_namespaces
          on_result listed (λ nss. pure (ok (cluster_members env roll.meta.namespace nss)))
              (λ e. pure (err e)))
        (pure (ok roll.members))

  -- The status that step 7 gives the roll, but for the ready condition.
  unfoldable pub summed_status : ControlPlane → List String → Tally → RollStatus → RollStatus
  summed_status m known tally status = record status {
    members = sorted known;
    pending_members = sorted (difference (difference known tally.up_to_date) tally.terminating);
    configured_members = sorted tally.configured;
    terminating_members = sorted tally.terminating;
    mesh_generation = m.observed_generation;
    mesh_reconciled_version = mesh_version env m;
    member_statuses = list_statuses tally.statuses (sorted known);
  }

  unfoldable pub ready_of : List String → Option E → Bool × String × String
  ready_of (ns ∷ nss) kiali_error = (
    false,
    "ReconcileError",
    concat ("The following namespaces are not yet configured: " ∷ print_list (ns ∷ nss) ∷ []),
  )
  ready_of [] (some e) =
      (false, "ReconcileError", concat ("Kiali could not be configured: " ∷ errors.message e ∷ []))
  ready_of [] none = (true, "Configured", "All namespaces have been configured successfully")

  -- The ready condition of step 7, at the time `t`.
  unfoldable pub with_ready : ℕ → Option E → RollStatus → RollStatus
  unfolding ready_of
  with_ready t kiali_error status =
      let (ready, reason, message) = ready_of status.pending_members kiali_error in
      set_ready_condition t status ready reason message

  either_error : Option E → Option E → Option E
  either_error (some e) kiali_error = some e
  either_error none kiali_error = kiali_error

  -- Step 7 of reconcileObject.
  unfoldable pub write_status :
      MemberRoll
      → ControlPlane
      → List String
      → Tally
      → Option E
      → RollStatus
      → Prog Call (Outcome E)
  unfolding finish either_error
  write_status roll m known tally kiali_error status = do
    t ← now env
    e ← update_status env roll (with_ready t kiali_error (summed_status m known tally status))
    pure (finish (either_error e kiali_error))

  -- The namespaces that Kiali is told of: accessible ones and excluded ones.
  unfoldable pub kiali_namespaces : Bool → MemberRoll → List String → List String × List String
  kiali_namespaces mesh_is_cluster_scoped roll known =
      if mesh_is_cluster_scoped && is_cluster_scoped roll.members
      then ("**" ∷ [], get_excluded_namespaces env)
      else (sorted known, [])

  -- Steps 5 to 7 of reconcileObject.
  unfoldable pub sum_up :
      MemberRoll
      → ControlPlane
      → Bool
      → List String
      → List Member
      → StatusMap
      → Prog Call (Outcome E)
  unfolding empty_tally
  sum_up roll m mesh_is_cluster_scoped wanted members statuses = do
    let known = all_known_members roll.meta.namespace wanted members
    tally ← count_members env m members (empty_tally statuses)
    when (is_kiali_enabled m)
        (do
          let (accessible, excluded) = kiali_namespaces mesh_is_cluster_scoped roll known
          kiali_error ←
              reconcile_kiali env (kiali_resource_name m) roll.meta.namespace accessible excluded
          let status = roll.status
          write_status roll m known tally kiali_error (record status {
            annotations = set_annotation "kialiName" (kiali_resource_name m) status.annotations;
          }))
        (write_status roll m known tally none roll.status)

  -- Steps 3 to 7 of reconcileObject, for the mesh that the roll belongs to.
  unfoldable pub reconcile_in_mesh : MemberRoll → ControlPlane → List Member → Prog Call (Outcome E)
  unfolding finish
  reconcile_in_mesh roll m members =
      on_result (control_plane_is_cluster_scoped env m)
        (λ mesh_is_cluster_scoped. do
          listed ← wanted_namespaces roll
          on_result listed
              (λ wanted. do
                ensured ←
                    ensure_members m.meta.name roll.meta.namespace wanted
                      (index_statuses roll.status.member_statuses [])
                on_result ensured
                    (λ statuses. do
                      failed ←
                          delete_members env
                            (is_obsolete (set_delete roll.meta.namespace (new_set wanted)))
                            (λ _ x. x) members
                      on_error failed (λ e. pure (finish (some e)))
                          (sum_up roll m mesh_is_cluster_scoped wanted members statuses))
                    (λ e. pure (finish (some e))))
              (λ e. pure (finish (some e))))
        (λ e. pure (finish (some e)))
