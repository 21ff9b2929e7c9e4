-- ===== src/Webhooks/Members.antt =====
-- MemberValidator.Handle (pkg/controller/servicemesh/webhooks/validation/member.go).
use istio_operator.Prelude.{not, ◌&&◌, ◌==◌, String, [], ◌∷◌, is_some, concat, if◌then◌else◌, Bool}
use istio_operator.Prog.{Prog, pure, ◌>>=◌, on_result, when}
use istio_operator.Kube.{
  Env, Call, call, Member, ControlPlaneRef, AccessReview, AccessStatus, review_access,
}
use istio_operator.Common.{member_name}
use istio_operator.Webhooks.Admission.{Request, Response, allowed, errored, bad_request}

-- `sar.Status.Allowed && !sar.Status.Denied`
unfoldable pub is_allowed : AccessStatus → Bool
is_allowed status = status.allowed && not status.denied

-- The review of the user's access to the control plane of a member.
unfoldable pub control_plane_review : ControlPlaneRef → AccessReview
control_plane_review ref = record {
  verb = "use";
  group = "maistra.io";
  resource = "servicemeshcontrolplanes";
  name = ref.name;
  namespace = ref.namespace;
}

unfoldable pub same_ref : ControlPlaneRef → ControlPlaneRef → Bool
same_ref a b = a.name == b.name && a.namespace == b.namespace

module _ {E : Type 0} (env : Env E) where
  open env use {errors, operator_namespace}

  -- The last part of Handle: the user may use the control plane.
  unfoldable pub check_user : String → Member → Prog Call (Response E)
  check_user username smm = do
    let ref = smm.control_plane_ref
    reviewed ← call env (review_access (control_plane_review ref))
    on_result reviewed
        (λ status. pure (
          if is_allowed status
          then allowed
          else errored 403 (
              errors.errorf (
                concat (
                  "user '" ∷ username ∷ "' does not have permission to use ServiceMeshControlPlane "
                  ∷ ref.namespace ∷ "/" ∷ ref.name ∷ [])))))
        (λ e. pure (errored 500 e))

  -- Handle, for an object that is not being deleted.
  unfoldable pub check_member : Request E Member → Member → Prog Call (Response E)
  check_member request smm =
      when (not (smm.meta.name == member_name))
        (pure
          (errored 400 (errors.errorf "the ServiceMeshMember resource must be named \"default\"")))
        (when (smm.meta.namespace == operator_namespace)
          (pure (bad_request "namespace where operator is installed cannot be added to any mesh"))
          (when request.is_update
            (on_result request.old_object
              (λ old.
                when (same_ref smm.control_plane_ref old.control_plane_ref)
                  (check_user request.username smm)
                  (pure (
                    errored 400 (errors.errorf "mutation of .spec.controlPlaneRef isn't allowed"))))
              (λ e. pure (errored 400 e)))
            (check_user request.username smm)))

  -- Handle
  unfoldable pub handle : Request E Member → Prog Call (Response E)
  handle request =
      on_result request.object
        (λ smm.
          when (is_some smm.meta.deletion_timestamp) (pure allowed) (check_member request smm))
        (λ e. pure (errored 400 e))
