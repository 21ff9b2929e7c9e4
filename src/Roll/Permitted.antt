-- ===== src/Roll/Permitted.antt =====
-- What the member roll controller may write to the cluster.
use istio_operator.Prelude.{◌≡◌, [], none, some}
use istio_operator.Kube.{
  Call, create_member, update_member, delete_member, patch_member_status, create_roll, delete_roll,
  patch_roll_status, update_namespace, create_role_binding, create_network_policy, create_nad,
  delete_role_binding, delete_network_policy, delete_nad, update_net_namespace, review_access,
}
use istio_operator.Common.{created_by_key, member_name, get_annotation}
use istio_operator.Status.{get_condition}
use istio_operator.Roll.Membership.{controller_name}

-- The writes of the member roll controller.
abbrev pub Permitted : Call → Type 0
Permitted (create_member m) =
    (get_annotation m.meta created_by_key ≡ some controller_name) × (m.meta.name ≡ member_name)
Permitted (delete_member m) =
    (m.meta.deletion_timestamp ≡ none)
    × (get_annotation m.meta created_by_key ≡ some controller_name)
Permitted (patch_roll_status r) =
    (r.status.observed_generation ≡ r.meta.generation)
    × ((get_condition "Ready" r.status.conditions).status ≡ "True" → r.status.pending_members ≡ [])
Permitted (update_member m) = ⊥
Permitted (patch_member_status m) = ⊥
Permitted (create_roll r) = ⊥
Permitted (delete_roll r) = ⊥
Permitted (update_namespace n) = ⊥
Permitted (create_role_binding rb) = ⊥
Permitted (create_network_policy np) = ⊥
Permitted (create_nad n) = ⊥
Permitted (delete_role_binding s n) = ⊥
Permitted (delete_network_policy s n) = ⊥
Permitted (delete_nad s n) = ⊥
Permitted (update_net_namespace n) = ⊥
Permitted (review_access r) = ⊥
Permitted _ = Unit {0}
