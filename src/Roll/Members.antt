-- ===== src/Roll/Members.antt =====
-- ServiceMeshMembers of a roll: ensureMemberExists, the deletion of obsolete ones, and finalizeObject
-- (pkg/controller/servicemesh/memberroll/controller.go).
use istio_operator.Prelude.{
  Bool, not, ◌&&◌, String, List, [], ◌∷◌, Option, none, some, is_some, has, if◌then◌else◌, concat,
}
use istio_operator.Prog.{Prog, Result, ok, err, pure, ◌>>=◌, on_result, on_error, when}
use istio_operator.Kube.{
  Member, Env, Call, call, get_member, get_namespace, create_member, delete_member,
}
use istio_operator.Common.{created_by_key, member_name}
use istio_operator.Roll.Membership.{controller_name, is_created_by_this_controller}

-- The member that ensureMemberExists creates.
unfoldable pub new_member : String → String → String → Member
new_member ns mesh_name mesh_namespace = record {
  meta = record {
    name = member_name;
    namespace = ns;
    labels = none;
    annotations = some ((created_by_key, controller_name) ∷ []);
    finalizers = [];
    deletion_timestamp = none;
    generation = 0;
  };
  control_plane_ref = record { name = mesh_name; namespace = mesh_namespace };
  status = record {
    annotations = none;
    observed_generation = 0;
    mesh_generation = 0;
    mesh_reconciled_version = "";
    conditions = [];
  };
}

-- Whether finalizeObject deletes a member.
unfoldable pub is_ours : Member → Bool
is_ours member =
    not (is_some member.meta.deletion_timestamp) && is_created_by_this_controller member

-- Whether step 4 of reconcileObject deletes a member.
unfoldable pub is_obsolete : List String → Member → Bool
unfolding is_ours
is_obsolete member_set member = is_ours member && not (has member.meta.namespace member_set)

module _ {E : Type 0} (env : Env E) where
  open env use {errors}

  -- ensureMemberExists; no member and no error if the namespace does not exist or is being deleted
  unfoldable pub ensure_member_exists :
      String → String → String → Prog Call (Result E (Option Member))
  ensure_member_exists ns mesh_name mesh_namespace = do
    let member = new_member ns mesh_name mesh_namespace
    got ← call env (get_member (record { namespace = ns; name = member_name }))
    on_result got (λ found. pure (ok (some found)))
        (λ e.
          when (errors.is_not_found e)
            (do
              got_namespace ← call env (get_namespace ns)
              on_result got_namespace
                  (λ namespace.
                    when (is_some namespace.meta.deletion_timestamp) (pure (ok none)) (do
                      created ← call env (create_member member)
                      on_error created
                          (λ x. pure (
                            if errors.is_not_found x
                            then ok none
                            else err (
                                errors.wrap
                                  (concat (
                                    "Could not create ServiceMeshMember " ∷ ns ∷ "/" ∷ member_name
                                    ∷ []))
                                  x)))
                          (pure (ok (some member)))))
                  (λ x. pure (if errors.is_not_found x then ok none else err x)))
            (pure (
              err (
                errors.wrap
                  (concat ("Could not get ServiceMeshMember " ∷ ns ∷ "/" ∷ member_name ∷ [])) e))))

  -- The loops that delete members stop at the first error, but for an object that is gone.
  unfoldable pub delete_members :
      (Member → Bool) → (Member → E → E) → List Member → Prog Call (Option E)
  delete_members test wrap [] = pure none
  delete_members test wrap (member ∷ members) =
      let rest = delete_members test wrap members in
      when (test member)
        (do
          e ← call env (delete_member member)
          on_error e (λ x. when (errors.is_not_found x) rest (pure (some (wrap member x)))) rest)
        rest
