-- ===== src/Member/Cleanups.antt =====
-- Errors of the member controller (pkg/controller/servicemesh/member/controller.go): a failed cleanup
-- of a namespace, and the creation of the member roll.
use istio_operator.Prelude.{
  String, Bool, true, false, ◌≡◌, refl, Option, none, some, is_some, List, ◌∷◌,
}
use istio_operator.Prog.{ok, pure, ◌>>=◌, on_result, on_error, when}
use istio_operator.Prog.Returns.{Returns, returns_rules}
use istio_operator.Errors.Conflict.{is_conflict}
use istio_operator.Kube.{Env, Call, call, now, Member, patch_member_status, update_member}
use istio_operator.Common.{has_finalizer, without_finalizer, remove_finalizer}
use istio_operator.Member.Reconciler.{NamespaceReconciler, new_namespace_reconciler}
use istio_operator.Member.Namespaces.{remove_namespace_from_mesh}
use istio_operator.Member.Status.{update_status, report_error}
use istio_operator.Member.Rolls.{create_member_roll_if_needed}
use istio_operator.Member.Controller.{finalize_object, reconcile_found, update_meta}

module _ {E : Type 0} (env : Env E) where
  open env use {errors, reply}

  -- There is no error, or one that errors.IsNotFound does not accept.
  abbrev pub IsOther : Option E → Type 0
  IsOther none = Unit
  IsOther (some e) = errors.is_not_found e ≡ false

  -- Where wrapping hides that an object is missing, createMemberRollIfNeeded never returns an error
  -- that errors.IsNotFound accepts.
  pub create_member_roll_if_needed_lem :
      ((s : String) (e : E) → errors.is_not_found (errors.wrap s e) ≡ false)
      → (member : Member) (log : List Call)
      → IsOther (create_member_roll_if_needed env member log).0
  create_member_roll_if_needed_lem opaque member log = (returned member).at log
    where
      returned : (member : Member) → Returns IsOther (create_member_roll_if_needed env member)
      returned member =
          unfold create_member_roll_if_needed in search (returns_rules, opaque) depth 16

  -- Every patch of the status of a member is accepted.
  abbrev pub AcceptsPatches : Type 0
  AcceptsPatches = (log : List Call) (m : Member) → reply log (patch_member_status m) ≡ none

  report_error-none :
      AcceptsPatches
      → (member : Member) (reason : String) (e : E) (log : List Call) → is_conflict errors e ≡ false
      → (report_error env member reason e log).0 ≡ none
  unfolding report_error update_status when ◌>>=◌ call now pure
  report_error-none accepts member reason e log h = rw (h, accepts _ _) refl

  -- Where a member is being deleted and has the finalizer, the removal of its namespace from the mesh
  -- fails with an error that is no conflict, and the API server accepts the patch of the status,
  -- Reconcile goes on to the update that removes the finalizer.
  pub failed_cleanup_lem :
      AcceptsPatches
      → (cni : Bool) (member : Member) (log log1 log2 : List Call) (r : NamespaceReconciler) (e : E)
      → is_some member.meta.deletion_timestamp ≡ true
      → has_finalizer member.meta ≡ true
      → new_namespace_reconciler env member.control_plane_ref.namespace none cni log ≡ (ok r, log1)
      → remove_namespace_from_mesh env r member.meta.namespace log1 ≡ (some e, log2)
      → is_conflict errors e ≡ false
      → (reconcile_found env cni member log).1
        ≡ update_member (record member { meta = without_finalizer env member.meta })
          ∷ (report_error env member "ErrorRemovingNamespace" e log2).1
  unfolding reconcile_found finalize_object remove_finalizer update_meta when ◌>>=◌ call pure
      on_error on_result
  failed_cleanup_lem accepts cni member log log1 log2 r e deleted finalized made removed h =
      rw
        (
          deleted,
          finalized,
          made,
          removed,
          report_error-none accepts member "ErrorRemovingNamespace" e log2 h,
        )
        refl
