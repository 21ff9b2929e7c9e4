-- ===== src/Member/Writes.antt =====
-- The calls of Reconcile of the member controller (pkg/controller/servicemesh/member/controller.go).
use istio_operator.Prelude.{
  ℕ, lookup, All, ap, sym, ◌∙◌, Bool, true, false, ◌≡◌, refl, String, List, [], ◌∷◌, Option, none,
  some, is_some, eq_iff, arith,
}
use istio_operator.Prog.Emits.{Emits, Emits-result}
use istio_operator.Kube.{
  NamespacedName, Env, Call, call, Member, MemberRoll, delete_roll, ControlPlane, call_rules,
  get_member, create_roll,
}
use istio_operator.Common.{created_by_key, get_annotation, add_finalizer, remove_finalizer}
use istio_operator.Status.{Condition, get_condition, set_condition}
use istio_operator.Member.Rolls.{
  may_delete_roll, created_by, is_empty, controller_name, new_roll, create_member_roll_if_needed,
  remove_member_roll_if_needed,
}
use istio_operator.Member.Permitted.{Permitted}
use istio_operator.Member.Safety.{
  remove_namespace_from_mesh-Permitted, reconcile_namespace_in_mesh-Permitted,
  new_namespace_reconciler-Permitted,
}
use istio_operator.Member.Status.{member_condition, update_status, report_error}
use istio_operator.Member.Controller.{
  finalize_object, mark_reconciled, configure, reconcile_member, reconcile_object, update_meta,
  reconcile_found, reconcile,
}
use istio_operator.Status.Conditions.{status-set_condition, get-set_condition_ne}

-- Both conditions have the status of the last reconciliation.
same_status :
    (t u : ℕ) (b : Bool) (reason message : String) (cs : List Condition)
    → let cs' =
        set_condition u
          (member_condition "Ready" b reason message)
          (set_condition t (member_condition "Reconciled" b reason message) cs) in
      (get_condition "Reconciled" cs').status ≡ (get_condition "Ready" cs').status
unfolding member_condition
same_status t u b reason message cs =
    let reconciled : Condition = member_condition "Reconciled" b reason message in
    let ready : Condition = member_condition "Ready" b reason message in
    ap (λ c. c.status)
      (get-set_condition_ne u ready (set_condition t reconciled cs) "Reconciled" refl)
    ∙ status-set_condition t reconciled cs
    ∙ sym (status-set_condition u ready (set_condition t reconciled cs))

new_roll_lem : (namespace : String) → Permitted (create_roll (new_roll namespace))
unfolding new_roll get_annotation lookup
new_roll_lem namespace = (refl, refl)

not_set : {A : Type 0} (o : Option A) → is_some o ≡ false → o ≡ none
not_set none h = refl
not_set (some a) h = cc h

is_empty_lem : (xs : List String) → is_empty xs ≡ true → xs ≡ []
unfolding is_empty
is_empty_lem [] h = refl
is_empty_lem (x ∷ xs) h = cc h

created_by_lem : (name : String) (o : Option String) → created_by name o ≡ true → o ≡ some name
unfolding created_by
created_by_lem name none h = cc h
created_by_lem name (some s) h = ap (λ t. some t) ((eq_iff s name).0 h)

may_delete_roll_lem :
    (roll : MemberRoll) → may_delete_roll roll ≡ true → Permitted (delete_roll roll)
unfolding may_delete_roll
may_delete_roll_lem roll h = (
  is_empty_lem roll.members (ground arith),
  not_set roll.meta.deletion_timestamp (ground arith),
  created_by_lem controller_name (get_annotation roll.meta created_by_key) (ground arith),
)

module _ {E : Type 0} (env : Env E) where
  update_status-Permitted :
      (member : Member) (b : Bool) (reason message : String)
      → Emits Permitted (update_status env member b b reason message)
  unfolding update_status
  update_status-Permitted member b reason message = search (call_rules, same_status) depth 14

  report_error-Permitted :
      (member : Member) (reason : String) (e : E)
      → Emits Permitted (report_error env member reason e)
  unfolding report_error
  report_error-Permitted member reason e = search (call_rules, update_status-Permitted) depth 14

  create_member_roll_if_needed-Permitted :
      (member : Member) → Emits Permitted (create_member_roll_if_needed env member)
  unfolding create_member_roll_if_needed
  create_member_roll_if_needed-Permitted member = search (call_rules, new_roll_lem) depth 14

  remove_member_roll_if_needed-Permitted :
      (member : Member) → Emits Permitted (remove_member_roll_if_needed env member)
  unfolding remove_member_roll_if_needed
  remove_member_roll_if_needed-Permitted member = search (call_rules, may_delete_roll_lem) depth 14

  ruleset rules = (
    call_rules, new_namespace_reconciler-Permitted, remove_namespace_from_mesh-Permitted,
    reconcile_namespace_in_mesh-Permitted, report_error-Permitted, update_status-Permitted,
    create_member_roll_if_needed-Permitted, remove_member_roll_if_needed-Permitted,
  )

  finalize_object-Permitted :
      (cni : Bool) (member : Member) → Emits Permitted (finalize_object env cni member)
  unfolding finalize_object
  finalize_object-Permitted cni member = search rules depth 16

  mark_reconciled-Permitted :
      (member : Member) (smcp : ControlPlane) → Emits Permitted (mark_reconciled env member smcp)
  unfolding mark_reconciled
  mark_reconciled-Permitted member smcp = search rules depth 16

  configure-Permitted :
      (cni : Bool) (member : Member) (smcp : ControlPlane)
      → Emits Permitted (configure env cni member smcp)
  unfolding configure
  configure-Permitted cni member smcp = search (rules, mark_reconciled-Permitted) depth 16

  reconcile_member-Permitted :
      (cni : Bool) (member : Member) → Emits Permitted (reconcile_member env cni member)
  unfolding reconcile_member
  reconcile_member-Permitted cni member = search (rules, configure-Permitted) depth 16

  reconcile_object-Permitted :
      (cni : Bool) (member : Member) → Emits Permitted (reconcile_object env cni member)
  unfolding reconcile_object
  reconcile_object-Permitted cni member = search (rules, reconcile_member-Permitted) depth 16

  add_finalizer-Permitted :
      (member : Member) → Emits Permitted (add_finalizer env member.meta (update_meta env member))
  unfolding add_finalizer update_meta
  add_finalizer-Permitted member = search call_rules depth 9

  remove_finalizer-Permitted :
      (member : Member)
      → Emits Permitted (remove_finalizer env member.meta (update_meta env member))
  unfolding remove_finalizer update_meta
  remove_finalizer-Permitted member = search call_rules depth 9

  reconcile_found-Permitted :
      (cni : Bool) (member : Member) → Emits Permitted (reconcile_found env cni member)
  unfolding reconcile_found
  reconcile_found-Permitted cni member =
      search
        (
          rules, finalize_object-Permitted, reconcile_object-Permitted, add_finalizer-Permitted,
          remove_finalizer-Permitted,
        )
        depth 16

  -- Whatever the API server and its other clients do, if the calls made before are permitted, so are
  -- all calls of a reconciliation of a ServiceMeshMember: a member roll is deleted only if it lists
  -- no members, is not being deleted and was created by this controller; a roll that is created lists
  -- no members and says who created it; the status of the member that is written is of its
  -- generation and has equal Reconciled and Ready conditions; a role binding or network policy that
  -- is copied is labelled as belonging to a mesh and has none of the pruner's labels, and a role
  -- binding that is copied does not refer to a Role; a network attachment definition that is created
  -- is labelled as belonging to a mesh; and no member is created or deleted, no roll or status of a
  -- roll is updated, no Kiali resource is patched and no access review is made.
  pub reconcile_member_writes :
      (cni : Bool) (request : NamespacedName) (log : List Call)
      → All Permitted log
      → All Permitted (reconcile env cni request log).1
  unfolding reconcile
  reconcile_member_writes cni request log h =
      (Emits-result (call env (get_member request)) (reconcile_found env cni) _ (search call_rules)
          (reconcile_found-Permitted cni) (λ e. search call_rules)).at
        log h
