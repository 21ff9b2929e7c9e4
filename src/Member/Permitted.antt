-- ===== src/Member/Permitted.antt =====
-- What the member controller may write to the cluster.
use istio_operator.Prelude.{◌≡◌, ◌≢◌, [], none, some}
use istio_operator.Kube.{
  ObjectMeta, Call, create_member, delete_member, patch_member_status, create_roll, update_roll,
  delete_roll, patch_roll_status, create_role_binding, create_network_policy, create_nad,
  patch_kiali, review_access,
}
use istio_operator.Common.{
  member_of_key, owner_key, owner_name_key, kubernetes_app_version_key, created_by_key, get_label,
  get_annotation,
}
use istio_operator.Status.{get_condition}
use istio_operator.Member.Rolls.{controller_name}

-- An object that was copied into a member's namespace: it is labelled as belonging to a mesh, and
-- the pruner of control planes does not take it for one of its own.
pub record IsCopy (o : ObjectMeta) : Type 0 where
  pub labelled : get_label o member_of_key ≢ none
  pub no_owner : get_label o owner_key ≡ none
  pub no_owner_name : get_label o owner_name_key ≡ none
  pub no_version : get_label o kubernetes_app_version_key ≡ none

-- The writes of the member controller.
abbrev pub Permitted : Call → Type 0
Permitted (delete_roll roll) =
    (roll.members ≡ [])
    × (roll.meta.deletion_timestamp ≡ none)
    × (get_annotation roll.meta created_by_key ≡ some controller_name)
Permitted (create_roll roll) =
    (roll.members ≡ []) × (get_annotation roll.meta created_by_key ≡ some controller_name)
Permitted (patch_member_status m) =
    (m.status.observed_generation ≡ m.meta.generation)
    × ((get_condition "Reconciled" m.status.conditions).status
        ≡ (get_condition "Ready" m.status.conditions).status)
Permitted (create_role_binding rb) = IsCopy rb.meta × (rb.role_ref_kind ≢ "Role")
Permitted (create_network_policy np) = IsCopy np.meta
Permitted (create_nad nad) = get_label nad.meta member_of_key ≢ none
Permitted (create_member m) = ⊥
Permitted (delete_member m) = ⊥
Permitted (update_roll roll) = ⊥
Permitted (patch_roll_status roll) = ⊥
Permitted (patch_kiali k a e) = ⊥
Permitted (review_access r) = ⊥
Permitted _ = Unit {0}
