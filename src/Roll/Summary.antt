-- ===== src/Roll/Summary.antt =====
-- The status that a member roll gives of its members: setMemberCondition,
-- getMemberReconciliationStatus and step 5 of reconcileObject
-- (pkg/controller/servicemesh/memberroll/controller.go).
use istio_operator.Prelude.{
  ℕ, Bool, not, ◌&&◌, String, List, [], ◌∷◌, Option, none, some, is_some, Map, lookup, insert, ◌==◌,
  if◌then◌else◌, set_insert,
}
use istio_operator.Prog.{Prog, pure, ◌>>=◌}
use istio_operator.Status.{Condition, get_condition, set_condition, compose_reconciled_version}
use istio_operator.Kube.{Member, MemberStatusSummary, ControlPlane, Env, Call, now}

abbrev pub StatusMap : Type 0
StatusMap = Map MemberStatusSummary

-- The summary of a namespace, or a new one without conditions.
unfoldable pub summary_or_new : String → Option MemberStatusSummary → MemberStatusSummary
summary_or_new ns none = record { namespace = ns; conditions = [] }
summary_or_new ns (some s) = s

-- setMemberCondition, at the time `t`
unfoldable pub set_member_condition : ℕ → StatusMap → String → Condition → StatusMap
set_member_condition t statuses ns condition =
    let summary = summary_or_new ns (lookup ns statuses) in
    insert ns (record summary { conditions = set_condition t condition summary.conditions })
      statuses

-- The map that reconcileObject makes of status.memberStatuses.
unfoldable pub index_statuses : List MemberStatusSummary → StatusMap → StatusMap
index_statuses [] statuses = statuses
index_statuses (s ∷ ss) statuses = index_statuses ss (insert s.namespace s statuses)

-- The list that reconcileObject makes of the map.
unfoldable pub list_statuses : StatusMap → List String → List MemberStatusSummary
list_statuses statuses [] = []
list_statuses statuses (ns ∷ nss) =
    summary_or_new ns (lookup ns statuses) ∷ list_statuses statuses nss

-- What step 5 gathers of the members.
pub record Tally : Type 0 where
  pub configured : List String
  pub up_to_date : List String
  pub terminating : List String
  pub statuses : StatusMap

module _ {E : Type 0} (env : Env E) (mesh : ControlPlane) where
  open env use {print_int}

  -- GetReconciledVersion of the mesh
  unfoldable pub mesh_version : String
  mesh_version = compose_reconciled_version print_int mesh.operator_version mesh.observed_generation

  -- getMemberReconciliationStatus, its two results
  unfoldable pub is_configured : Member → Bool
  is_configured member =
      member.control_plane_ref.name == mesh.meta.name
      && (member.control_plane_ref.namespace == mesh.meta.namespace
          && (get_condition "Reconciled" member.status.conditions).status == "True")

  unfoldable pub is_up_to_date : Member → Bool
  is_up_to_date member = member.status.mesh_reconciled_version == mesh_version

  -- The body of the loop of step 5, at the time `t`.
  unfoldable pub count_member : ℕ → Member → Tally → Tally
  unfolding is_configured is_up_to_date mesh_version
  count_member t member tally =
      let ns = member.meta.namespace in
      let deleting = is_some member.meta.deletion_timestamp in
      record {
        configured =
            if not deleting && is_configured member
            then set_insert ns tally.configured
            else tally.configured;
        up_to_date =
            if not deleting && (is_configured member && is_up_to_date member)
            then set_insert ns tally.up_to_date
            else tally.up_to_date;
        terminating = if deleting then set_insert ns tally.terminating else tally.terminating;
        statuses =
            set_member_condition t tally.statuses ns
              (get_condition "Reconciled" member.status.conditions);
      }

  -- The loop of step 5.
  unfoldable pub count_members : List Member → Tally → Prog Call Tally
  unfolding count_member
  count_members [] tally = pure tally
  count_members (member ∷ members) tally = do
    t ← now env
    count_members members (count_member t member tally)
