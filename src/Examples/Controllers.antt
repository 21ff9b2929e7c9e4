-- ===== src/Examples/Controllers.antt =====
-- Runs of the two controllers.
use istio_operator.Prelude.{
  ◌≡◌, ◌≢◌, refl, true, false, not, ◌&&◌, ◌==◌, String, List, [], ◌∷◌, none, All, has, is_some,
  set_insert_all,
}
use istio_operator.Prog.{ok, ◌>>=◌, on_result, when}
use istio_operator.Errors.Conflict.{is_conflict}
use istio_operator.Kube.{
  Call, Member, RollStatus, NamespacedName, get_network, list_role_bindings, get_namespace,
  update_member, get_kiali, call,
}
use istio_operator.Common.{
  name_set, finalizer_name, owner_key, without_finalizer, with_finalizer, has_finalizer,
}
use istio_operator.Common.Finalizers.{without_finalizer_lem, with_finalizer_lem}
use istio_operator.Member.Controller as MemberController
use istio_operator.Member.Permitted as MemberPermitted
use istio_operator.Member.Writes.{reconcile_member_writes}
use istio_operator.Member.Networking.{subnet}
use istio_operator.Member.Reconciler.{
  NamespaceReconciler, new_namespace_reconciler, initialize_networking_strategy,
  metas_of_role_bindings,
}
use istio_operator.Member.Namespaces.{remove_namespace_from_mesh}
use istio_operator.Member.Status.{report_error}
use istio_operator.Member.Rolls.{create_member_roll_if_needed}
use istio_operator.Member.RoleBindings.{add_role_bindings}
use istio_operator.Member.Bindings.{has-add_role_bindings, is_copied}
use istio_operator.Member.Cleanups.{create_member_roll_if_needed_lem, failed_cleanup_lem, IsOther}
use istio_operator.Roll.Controller as RollController
use istio_operator.Roll.Permitted as RollPermitted
use istio_operator.Roll.Writes.{reconcile_roll_writes}
use istio_operator.Roll.Members.{is_ours, delete_members}
use istio_operator.Roll.Summary.{count_members}
use istio_operator.Roll.Sync.{empty_tally, summed_status}
use istio_operator.Roll.Counting.{
  has-summed_status, some_member, counts_as_configured, counts_as_up_to_date, is_deleting,
}
use istio_operator.Roll.Deletion.{delete_members_lem, Outcome, finalize_object_lem}
use istio_operator.Roll.Membership.{
  is_cluster_scoped, cluster_members, is_member, is_excluded_namespace,
}
use istio_operator.Roll.Kiali.{reconcile_kiali}
use istio_operator.Roll.KialiSync.{
  reconcile_kiali_settled, has-cluster_members, is_member-cluster_members, exists,
}
use istio_operator.Examples.Failures.{failed, wrapped}
use istio_operator.Examples.World.{
  member_in, deleted_member_in, roll_in, mesh_in, role_binding, namespace_of, world,
  world-IsSorting, locked_world, meta_of,
}

abbrev request : NamespacedName
request = record { namespace = "app"; name = "default" }

reconcile_member_writes_example :
    All MemberPermitted.Permitted (MemberController.reconcile world true request []).1
reconcile_member_writes_example = reconcile_member_writes world true request [] tt

reconcile_roll_writes_example :
    All RollPermitted.Permitted (RollController.reconcile world request []).1
reconcile_roll_writes_example = reconcile_roll_writes world request [] tt

abbrev members : List Member
members = member_in "app" ∷ deleted_member_in "old" ∷ []

abbrev empty_status : RollStatus
empty_status = (roll_in "istio-system" []).status

has-summed_status_example :
    let tally = (count_members world (mesh_in "istio-system") members (empty_tally []) []).0 in
    let written =
      summed_status world (mesh_in "istio-system") ("app" ∷ "new" ∷ []) tally empty_status in
    (has "app" written.configured_members
      ≡ some_member (counts_as_configured world (mesh_in "istio-system")) "app" members)
    × (has "app" written.terminating_members ≡ some_member is_deleting "app" members)
    × (has "app" written.members ≡ has "app" ("app" ∷ "new" ∷ []))
    × (has "app" written.pending_members ≡ (
        has "app" ("app" ∷ "new" ∷ [])
        && (not (some_member (counts_as_up_to_date world (mesh_in "istio-system")) "app" members)
            && not (some_member is_deleting "app" members))))
has-summed_status_example =
    has-summed_status world (mesh_in "istio-system") world-IsSorting members ("app" ∷ "new" ∷ []) []
      empty_status [] "app"

abbrev broken_reconciler : NamespaceReconciler
broken_reconciler = record {
  mesh_namespace = "istio-system";
  mesh_version = none;
  is_cni_enabled = true;
  networking_strategy = subnet;
  role_bindings_list = [];
  required_role_bindings = [];
}

abbrev log1 : List Call
log1 = list_role_bindings "istio-system" owner_key "istio-system" ∷ get_network ∷ []

made : new_namespace_reconciler world "istio-system" none true [] ≡ (ok broken_reconciler, log1)
unfolding new_namespace_reconciler ◌>>=◌ on_result initialize_networking_strategy call when name_set
    metas_of_role_bindings
made = refl

failed_cleanup_lem_example :
    (MemberController.reconcile_found world true (deleted_member_in "broken") []).1
    ≡ update_member (
        let member = deleted_member_in "broken" in
        record member { meta = without_finalizer world member.meta })
      ∷ (report_error world
          (deleted_member_in "broken")
          "ErrorRemovingNamespace"
          (failed "the server is not available")
          (get_namespace "broken" ∷ log1)).1
unfolding has_finalizer has set_insert_all remove_namespace_from_mesh ◌>>=◌ on_result call
    is_conflict
failed_cleanup_lem_example =
    failed_cleanup_lem world (λ log m. refl) true (deleted_member_in "broken") [] log1
      (get_namespace "broken" ∷ log1) broken_reconciler (failed "the server is not available") refl
      refl made refl refl

create_member_roll_if_needed_lem_example :
    IsOther world (create_member_roll_if_needed world (member_in "app") []).0
create_member_roll_if_needed_lem_example =
    create_member_roll_if_needed_lem world (λ s e. refl) (member_in "app") []

delete_members_lem_example :
    let wrap = λ (m : Member). wrapped "" in
    Outcome locked_world is_ours wrap members []
      (delete_members locked_world is_ours wrap members [])
delete_members_lem_example =
    delete_members_lem locked_world is_ours (λ (m : Member). wrapped "") members []

finalize_object_lem_example :
    let (finalized, failure) =
      (RollController.finalize_object locked_world (roll_in "istio-system" []) []).0 in
    finalized ≡ not (is_some failure)
finalize_object_lem_example = finalize_object_lem locked_world (roll_in "istio-system" []) []

has-add_role_bindings_example :
    let rbs = role_binding "ClusterRole" "admin" ∷ role_binding "Role" "viewer" ∷ [] in
    let (added, es) = (add_role_bindings world "istio-system" "app" [] rbs []).0 in
    (es ≡ []) × ((name : String) → has name added ≡ is_copied [] name rbs)
has-add_role_bindings_example =
    has-add_role_bindings world (λ log rb. refl) "istio-system" "app" []
      (role_binding "ClusterRole" "admin" ∷ role_binding "Role" "viewer" ∷ []) []

reconcile_kiali_settled_example :
    reconcile_kiali world "kiali" "istio-system" ("app" ∷ []) [] []
    ≡ (none, get_kiali (record { namespace = "istio-system"; name = "kiali" }) ∷ [])
unfolding set_insert_all
reconcile_kiali_settled_example =
    reconcile_kiali_settled world world-IsSorting "kiali" "istio-system" ("app" ∷ []) [] [] refl

has-cluster_members_example :
    has "app" (cluster_members world "istio-system" (namespace_of "app" ∷ namespace_of "kube" ∷ []))
    ≡ (exists "app" (namespace_of "app" ∷ namespace_of "kube" ∷ [])
        && (not ("app" == "istio-system") && not (is_excluded_namespace world "app")))
has-cluster_members_example =
    has-cluster_members world "istio-system" "app" (namespace_of "app" ∷ namespace_of "kube" ∷ [])

is_member-cluster_members_example : is_member world "app" (roll_in "istio-system" ("*" ∷ [])) ≡ true
unfolding is_cluster_scoped cluster_members is_excluded_namespace has
is_member-cluster_members_example =
    is_member-cluster_members world (roll_in "istio-system" ("*" ∷ [])) "istio-system" "app"
      (namespace_of "app" ∷ []) refl refl

without_finalizer_lem_example :
    (has_finalizer (without_finalizer world (meta_of "default" "app")) ≡ false)
    × ((other : String)
        → other ≢ finalizer_name
        → has other (without_finalizer world (meta_of "default" "app")).finalizers
          ≡ has other (meta_of "default" "app").finalizers)
without_finalizer_lem_example =
    without_finalizer_lem world world-IsSorting (meta_of "default" "app")

with_finalizer_lem_example :
    (has_finalizer (with_finalizer world (meta_of "default" "app")) ≡ true)
    × ((other : String)
        → other ≢ finalizer_name
        → has other (with_finalizer world (meta_of "default" "app")).finalizers
          ≡ has other (meta_of "default" "app").finalizers)
with_finalizer_lem_example = with_finalizer_lem world world-IsSorting (meta_of "default" "app")
