-- ===== src/Member/Status.antt =====
-- The status of a member: updateStatus and reportError
-- (pkg/controller/servicemesh/member/controller.go).
use istio_operator.Prelude.{Bool, false, String, [], ◌∷◌, Option, none, some, if◌then◌else◌, concat}
use istio_operator.Errors.Conflict.{is_conflict}
use istio_operator.Prog.{Prog, pure, ◌>>=◌, ◌>>◌, when}
use istio_operator.Status.{Condition, set_condition}
use istio_operator.Kube.{Env, Call, call, now, Member, patch_member_status, record_event}
use istio_operator.Common.{bool_to_condition_status}

-- The two conditions that updateStatus sets.
unfoldable pub member_condition : String → Bool → String → String → Condition
member_condition type b reason message = record {
  type = type;
  status = bool_to_condition_status b;
  reason = reason;
  message = message;
  last_transition_time = 0;
}

module _ {E : Type 0} (env : Env E) where
  open env use {errors}

  -- The error of a status patch: a member that is gone is no error.
  patch_error : Member → Option E → Option E
  patch_error member none = none
  patch_error member (some e) =
      if errors.is_not_found e
      then none
      else some (
          errors.wrap
            (concat (
              "Could not update status of ServiceMeshMember " ∷ member.meta.namespace ∷ "/"
              ∷ member.meta.name ∷ []))
            e)

  -- updateStatus; the two calls of metav1.Now() see times `t` and `u`
  unfoldable pub update_status : Member → Bool → Bool → String → String → Prog Call (Option E)
  unfolding patch_error
  update_status member reconciled ready reason message = do
    t ← now env
    u ← now env
    let status = member.status
    let conditions = set_condition u (member_condition "Ready" ready reason message) (
        set_condition t (member_condition "Reconciled" reconciled reason message) status.conditions)
    e ← call env (
        patch_member_status (record member {
          status = record status {
            observed_generation = member.meta.generation;
            conditions = conditions;
          };
        }))
    pure (patch_error member e)

  -- reportError
  unfoldable pub report_error : Member → String → E → Prog Call (Option E)
  report_error member reason e = when (is_conflict errors e) (pure (some e)) (do
    call env (record_event "Warning" "FailedReconcile" (errors.message e))
    update_status member false false reason (errors.message e))
