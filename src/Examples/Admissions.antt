-- ===== src/Examples/Admissions.antt =====
-- Admissions of member rolls and members.
use istio_operator.Prelude.{
  none, some, ltb, if◌then◌else◌, ◌≡◌, refl, true, false, set_insert, set_insert_all, not, ◌&&◌,
  ◌==◌, String, List, [], ◌∷◌, All, has, ◌⊎◌,
}
use istio_operator.Prog.{ok, err, pure, ◌>>=◌, on_result, on_error, when}
use istio_operator.Kube.{ControlPlane, Member, MemberRoll, list_rolls, review_access, call}
use istio_operator.Common.{member_name}
use istio_operator.Roll.Membership.{is_cluster_scoped}
use istio_operator.Webhooks.Admission.{Request, watching}
use istio_operator.Webhooks.Members.{
  control_plane_review, handle, check_member, check_user, same_ref, is_allowed,
}
use istio_operator.Webhooks.Access.{
  pod_review, find_newly_added_namespaces, is_user_allowed_to_update_pods_in_all_namespaces,
  is_user_allowed_to_update_pods_in_namespace,
}
use istio_operator.Webhooks.MemberRolls as MemberRolls
use istio_operator.Webhooks.Mutation.{filtered_members}
use istio_operator.Webhooks.Guards.{Admits}
use istio_operator.Webhooks.Admitted.{handle-Admits, IsAdmissible}
use istio_operator.Webhooks.Permissions.{
  IsReviewed, has-filtered_members, check_user-Admits, update-Admits,
}
use istio_operator.Versions.{v2_1, v2_3, ver_eq, to_int, all_versions}
use istio_operator.Webhooks.Upgrades.{Strategies, validate_path}
use istio_operator.Webhooks.Chain.{first_error, between, newest_first, validate_path_lem}
use istio_operator.Examples.Failures.{Failure, missing, failed}
use istio_operator.Examples.World.{mesh_in, member_in, roll_in, world}

abbrev roll : MemberRoll
roll = roll_in "istio-system" ("app" ∷ "web" ∷ [])

abbrev creation : Request Failure MemberRoll
creation = record {
  object = ok roll;
  old_object = err missing;
  is_update = false;
  username = "admin";
}

abbrev update : Request Failure Member
update = record {
  object = ok (member_in "app");
  old_object = ok (member_in "app");
  is_update = true;
  username = "admin";
}

handle-Admits_example :
    (rolls : List MemberRoll) × (world.reply [] list_rolls ≡ ok rolls)
    × IsAdmissible world roll rolls
    × Admits (MemberRolls.check_user world (λ e. false) (λ s. s) creation roll) (list_rolls ∷ [])
unfolding watching MemberRolls.handle on_result when MemberRolls.check_roll on_error
    MemberRolls.names_error is_cluster_scoped MemberRolls.invalid_member
    MemberRolls.duplicates_error set_insert_all ◌>>=◌ call MemberRolls.members_error
    MemberRolls.namespaces_in_other_member_rolls MemberRolls.same_roll MemberRolls.check_user has
    set_insert is_user_allowed_to_update_pods_in_all_namespaces
    is_user_allowed_to_update_pods_in_namespace is_allowed pure
handle-Admits_example =
    handle-Admits world (λ e. false) (λ s. s) creation "" roll [] refl refl refl refl

check_user-Admits_example :
    IsReviewed world (pod_review "") []
    ⊎ ((is_cluster_scoped roll.members ≡ false)
        × ((added : List String) × (find_newly_added_namespaces roll creation ≡ ok added)
            × All
                (λ ns. IsReviewed world (pod_review ns) (review_access (pod_review "") ∷ []))
                added))
unfolding MemberRolls.check_user ◌>>=◌ on_result is_user_allowed_to_update_pods_in_all_namespaces
    is_user_allowed_to_update_pods_in_namespace call when is_allowed
check_user-Admits_example = check_user-Admits world (λ e. false) (λ s. s) creation roll [] refl

update-Admits_example :
    let smm = member_in "app" in
    (smm.meta.name ≡ member_name)
    × (smm.control_plane_ref.name ≡ smm.control_plane_ref.name)
    × (smm.control_plane_ref.namespace ≡ smm.control_plane_ref.namespace)
    × IsReviewed world (control_plane_review smm.control_plane_ref) []
unfolding handle on_result when check_member same_ref check_user ◌>>=◌ call is_allowed
update-Admits_example =
    update-Admits world update (member_in "app") (member_in "app") [] refl refl refl refl refl

has-filtered_members_example :
    has "istio-system" (filtered_members "istio-system" ("app" ∷ "istio-system" ∷ []))
    ≡ (not ("istio-system" == "istio-system") && has "istio-system" ("app" ∷ "istio-system" ∷ []))
has-filtered_members_example =
    has-filtered_members "istio-system" "istio-system" ("app" ∷ "istio-system" ∷ [])

-- Nothing can be upgraded to version 2.3, and all else is allowed.
abbrev no_upgrade : Strategies Failure ControlPlane
no_upgrade = record {
  validate_upgrade =
      λ v object. pure (if ver_eq v v2_3 then some (failed "extensions are used") else none);
  validate_downgrade = λ v object. pure none;
  validate_update = λ v old new. pure none;
}

validate_path_lem_example : validate_path no_upgrade (mesh_in "istio-system") v2_1 v2_3 ≡ (
    if ltb (to_int v2_1) (to_int v2_3)
    then first_error
        (λ v. no_upgrade.validate_upgrade v (mesh_in "istio-system"))
        (between v2_1 v2_3 all_versions)
    else first_error
        (λ v. no_upgrade.validate_downgrade v (mesh_in "istio-system"))
        (between v2_3 v2_1 newest_first))
validate_path_lem_example = validate_path_lem no_upgrade (mesh_in "istio-system") v2_1 v2_3
