-- ===== src/Roll/Writes.antt =====
-- The calls of Reconcile of the member roll controller
-- (pkg/controller/servicemesh/memberroll/controller.go).
use istio_operator.Prelude.{
  ℕ, All, lookup, Bool, true, false, ◌≡◌, refl, sym, ◌∙◌, String, List, [], ◌∷◌, Option, none, some,
  eq_iff, arith, is_some, ap,
}
use istio_operator.Prog.Emits.{Emits, Emits-result, Emits-error, Emits-when, Emits-bind}
use istio_operator.Kube.{
  NamespacedName, Env, Call, call, Member, MemberRoll, RollStatus, ControlPlane, call_rules,
  Emits-delete_member, Emits-patch_roll_status, get_roll, create_member, delete_member,
}
use istio_operator.Common.{
  bool_to_condition_status, created_by_key, get_annotation, add_finalizer, remove_finalizer,
}
use istio_operator.Status.{get_condition}
use istio_operator.Status.Conditions.{status-set_condition}
use istio_operator.Roll.Membership.{created_by, is_created_by_this_controller, controller_name}
use istio_operator.Roll.Members.{
  new_member, is_ours, is_obsolete, ensure_member_exists, delete_members,
}
use istio_operator.Roll.Kiali.{reconcile_kiali}
use istio_operator.Roll.Summary.{StatusMap, Tally, count_members}
use istio_operator.Roll.Status.{
  Mesh, mesh, no_mesh, note_member, counted_status, ready_condition, set_ready_condition,
  update_status, get_service_mesh_control_plane,
}
use istio_operator.Roll.Sync.{
  ready_of, ensure_members, wanted_namespaces, with_ready, summed_status, write_status, sum_up,
  reconcile_in_mesh,
}
use istio_operator.Roll.Controller.{
  meshless_status, reconcile_for, reconcile_object, finalize_object, update_meta, reconcile_found,
  reconcile,
}
use istio_operator.Roll.Permitted.{Permitted}

new_member_lem :
    (ns mesh_name mesh_namespace : String)
    → Permitted (create_member (new_member ns mesh_name mesh_namespace))
unfolding new_member is_created_by_this_controller get_annotation lookup
new_member_lem ns mesh_name mesh_namespace = (refl, refl)

not_set : {A : Type 0} (o : Option A) → is_some o ≡ false → o ≡ none
not_set none h = refl
not_set (some a) h = cc h

created_by_lem : (o : Option String) → created_by o ≡ true → o ≡ some controller_name
unfolding created_by
created_by_lem none h = cc h
created_by_lem (some s) h = ap (λ t. some t) ((eq_iff s controller_name).0 h)

is_ours_lem : (m : Member) → is_ours m ≡ true → Permitted (delete_member m)
unfolding is_ours is_created_by_this_controller
is_ours_lem m h = (
  not_set m.meta.deletion_timestamp (ground arith),
  created_by_lem (get_annotation m.meta created_by_key) (ground arith),
)

is_obsolete_lem :
    (s : List String) (m : Member) → is_obsolete s m ≡ true → Permitted (delete_member m)
unfolding is_obsolete
is_obsolete_lem s m h = is_ours_lem m (ground arith)

ready_status :
    (t : ℕ) (status : RollStatus) (b : Bool) (reason message : String)
    → (get_condition "Ready" (set_ready_condition t status b reason message).conditions).status
      ≡ (ready_condition b reason message).status
unfolding set_ready_condition
ready_status t status b reason message =
    status-set_condition t (ready_condition b reason message) status.conditions

module _ {E : Type 0} (env : Env E) where
  ensure_member_exists-Permitted :
      (ns mesh_name mesh_namespace : String)
      → Emits Permitted (ensure_member_exists env ns mesh_name mesh_namespace)
  unfolding ensure_member_exists
  ensure_member_exists-Permitted ns mesh_name mesh_namespace =
      search (call_rules, new_member_lem) depth 16

  delete_members-Permitted :
      (test : Member → Bool) (wrap : Member → E → E) (members : List Member)
      → ((m : Member) → test m ≡ true → Permitted (delete_member m))
      → Emits Permitted (delete_members env test wrap members)
  unfolding delete_members
  delete_members-Permitted test wrap [] h = search call_rules
  delete_members-Permitted test wrap (m ∷ ms) h =
      let rest = delete_members-Permitted test wrap ms h in
      Emits-when _ _ _
        (λ ours.
          Emits-error _ _ _ (Emits-delete_member env m (h m ours)) (λ x. search (call_rules, rest))
            rest)
        (λ other. rest)

  reconcile_kiali-Permitted :
      (name namespace : String) (accessible excluded : List String)
      → Emits Permitted (reconcile_kiali env name namespace accessible excluded)
  unfolding reconcile_kiali
  reconcile_kiali-Permitted name namespace accessible excluded = search call_rules depth 14

  ensure_members-Permitted :
      (mesh_name mesh_namespace : String) (nss : List String) (statuses : StatusMap)
      → Emits Permitted (ensure_members env mesh_name mesh_namespace nss statuses)
  unfolding ensure_members
  ensure_members-Permitted mesh_name mesh_namespace [] statuses = search call_rules
  ensure_members-Permitted mesh_name mesh_namespace (ns ∷ nss) statuses =
      Emits-result _ _ _ (ensure_member_exists-Permitted ns mesh_name mesh_namespace)
        (λ member. Emits-bind _ _ (search call_rules) (λ t.
          ensure_members-Permitted mesh_name mesh_namespace nss
            (note_member t mesh_name mesh_namespace ns member statuses)))
        (λ e. search call_rules)

  wanted_namespaces-Permitted : (roll : MemberRoll) → Emits Permitted (wanted_namespaces env roll)
  unfolding wanted_namespaces
  wanted_namespaces-Permitted roll = search call_rules depth 14

  count_members-Permitted :
      (m : ControlPlane) (members : List Member) (tally : Tally)
      → Emits Permitted (count_members env m members tally)
  unfolding count_members
  count_members-Permitted m [] tally = search call_rules
  count_members-Permitted m (member ∷ members) tally =
      Emits-bind _ _ (search call_rules) (λ t. count_members-Permitted m members _)

  update_status-Permitted :
      (roll : MemberRoll) (status : RollStatus)
      → ((get_condition "Ready" status.conditions).status ≡ "True" → status.pending_members ≡ [])
      → Emits Permitted (update_status env roll status)
  unfolding update_status
  update_status-Permitted roll status h =
      Emits-patch_roll_status env (record roll { status = counted_status env roll status })
        (refl, h)

  ready_of_true :
      (pending : List String) (kiali_error : Option E)
      → bool_to_condition_status (ready_of env pending kiali_error).0 ≡ "True"
      → (pending ≡ []) × (kiali_error ≡ none)
  unfolding ready_of bool_to_condition_status
  ready_of_true (ns ∷ nss) k h = cc ((eq_iff "False" "True").1 h)
  ready_of_true [] (some e) h = cc ((eq_iff "False" "True").1 h)
  ready_of_true [] none h = (refl, refl)

  with_ready_pending :
      (t : ℕ) (kiali_error : Option E) (status : RollStatus)
      → (get_condition "Ready" (with_ready env t kiali_error status).conditions).status ≡ "True"
      → (with_ready env t kiali_error status).pending_members ≡ []
  unfolding with_ready set_ready_condition ready_condition
  with_ready_pending t kiali_error status h =
      let (ready, reason, message) = ready_of env status.pending_members kiali_error in
      (ready_of_true status.pending_members kiali_error
        (sym (ready_status t status ready reason message) ∙ h)).0

  write_status-Permitted :
      (roll : MemberRoll) (m : ControlPlane) (known : List String) (tally : Tally)
      (kiali_error : Option E) (status : RollStatus)
      → Emits Permitted (write_status env roll m known tally kiali_error status)
  unfolding write_status
  write_status-Permitted roll m known tally kiali_error status =
      Emits-bind _ _ (search call_rules) λ t.
        Emits-bind _ _
          (update_status-Permitted roll _
            (with_ready_pending t kiali_error (summed_status env m known tally status)))
          (λ e. search call_rules)

  sum_up-Permitted :
      (roll : MemberRoll) (m : ControlPlane) (scoped : Bool) (wanted : List String)
      (members : List Member) (statuses : StatusMap)
      → Emits Permitted (sum_up env roll m scoped wanted members statuses)
  unfolding sum_up
  sum_up-Permitted roll m scoped wanted members statuses =
      search
        (call_rules, count_members-Permitted, reconcile_kiali-Permitted, write_status-Permitted)
        depth 16

  reconcile_in_mesh-Permitted :
      (roll : MemberRoll) (m : ControlPlane) (members : List Member)
      → Emits Permitted (reconcile_in_mesh env roll m members)
  unfolding reconcile_in_mesh
  reconcile_in_mesh-Permitted roll m members =
      search
        (
          call_rules, wanted_namespaces-Permitted, ensure_members-Permitted,
          delete_members-Permitted, is_obsolete_lem, sum_up-Permitted,
        )
        depth 20

  meshless_not_ready :
      (t : ℕ) (roll : MemberRoll) (reason message : String)
      → (get_condition "Ready"
          (set_ready_condition t
            (meshless_status env reason roll.status)
            false
            reason
            message).conditions).status
        ≡ "True"
      → ⊥
  unfolding ready_condition bool_to_condition_status
  meshless_not_ready t roll reason message h = cc (
      (eq_iff "False" "True").1
        (sym (ready_status t (meshless_status env reason roll.status) false reason message) ∙ h))

  reconcile_for-Permitted :
      (roll : MemberRoll) (members : List Member) (m : Mesh)
      → Emits Permitted (reconcile_for env roll members m)
  unfolding reconcile_for
  reconcile_for-Permitted roll members (mesh m) = reconcile_in_mesh-Permitted roll m members
  reconcile_for-Permitted roll members (no_mesh reason message) =
      Emits-bind _ _ (search call_rules) λ t.
        Emits-bind _ _
          (update_status-Permitted roll _
            (λ h. absurd (meshless_not_ready t roll reason message h)))
          (λ e. search call_rules)

  get_service_mesh_control_plane-Permitted :
      (namespace : String) → Emits Permitted (get_service_mesh_control_plane env namespace)
  unfolding get_service_mesh_control_plane
  get_service_mesh_control_plane-Permitted namespace = search call_rules depth 14

  reconcile_object-Permitted : (roll : MemberRoll) → Emits Permitted (reconcile_object env roll)
  unfolding reconcile_object
  reconcile_object-Permitted roll =
      search (call_rules, get_service_mesh_control_plane-Permitted, reconcile_for-Permitted) depth
        16

  finalize_object-Permitted : (roll : MemberRoll) → Emits Permitted (finalize_object env roll)
  unfolding finalize_object
  finalize_object-Permitted roll =
      search (call_rules, delete_members-Permitted, is_ours_lem, reconcile_kiali-Permitted) depth 20

  add_finalizer-Permitted :
      (roll : MemberRoll) → Emits Permitted (add_finalizer env roll.meta (update_meta env roll))
  unfolding add_finalizer update_meta
  add_finalizer-Permitted roll = search call_rules depth 9

  remove_finalizer-Permitted :
      (roll : MemberRoll) → Emits Permitted (remove_finalizer env roll.meta (update_meta env roll))
  unfolding remove_finalizer update_meta
  remove_finalizer-Permitted roll = search call_rules depth 9

  reconcile_found-Permitted : (roll : MemberRoll) → Emits Permitted (reconcile_found env roll)
  unfolding reconcile_found
  reconcile_found-Permitted roll =
      search
        (
          call_rules, finalize_object-Permitted, reconcile_object-Permitted,
          add_finalizer-Permitted, remove_finalizer-Permitted,
        )
        depth 16

  -- Whatever the API server and its other clients do, if the calls made before are permitted, so are
  -- all calls of a reconciliation of a ServiceMeshMemberRoll: a member is deleted only if it is not
  -- being deleted already and was created by this controller; a member that is created is named
  -- `default` and says who created it; the status that is written is of the roll's generation, and
  -- if its Ready condition is True then no member is pending; and no member or status of a member is
  -- updated, no roll is created or deleted, no namespace or pod network is updated, no role binding,
  -- network policy or network attachment definition is created or deleted, and no access review is
  -- made.
  pub reconcile_roll_writes :
      (request : NamespacedName) (log : List Call)
      → All Permitted log
      → All Permitted (reconcile env request log).1
  unfolding reconcile
  reconcile_roll_writes request log h =
      (Emits-result (call env (get_roll request)) (reconcile_found env) _ (search call_rules)
          reconcile_found-Permitted (λ e. search call_rules)).at
        log h
