-- ===== src/Examples/World.antt =====
-- A concrete cluster.
use istio_operator.Prelude.{
  true, false, ◌||◌, ◌==◌, refl, String, List, [], ◌∷◌, none, some, concat, if◌then◌else◌, nat_eq,
}
use istio_operator.Prog.{ok, err}
use istio_operator.Status.{Condition}
use istio_operator.Kube
use istio_operator.Kube.{
  ObjectMeta, NamespacedName, Namespace, Member, MemberRoll, ControlPlane, RoleBinding, Env, Call,
  Reply, IsSorting, unset,
}
use istio_operator.Common.{finalizer_name, created_by_key}
use istio_operator.Examples.Failures.{Failure, missing, failed, failures}

abbrev pub meta_of : String → String → ObjectMeta
meta_of name namespace = record {
  name = name;
  namespace = namespace;
  labels = none;
  annotations = some ((created_by_key, "servicemeshmemberroll-controller") ∷ []);
  finalizers = finalizer_name ∷ [];
  deletion_timestamp = none;
  generation = 2;
}

abbrev pub reconciled : Condition
reconciled = record {
  type = "Reconciled";
  status = "True";
  reason = "";
  message = "";
  last_transition_time = 5;
}

abbrev pub member_in : String → Member
member_in namespace = record {
  meta = meta_of "default" namespace;
  control_plane_ref = record { name = "basic"; namespace = "istio-system" };
  status = record {
    annotations = none;
    observed_generation = 1;
    mesh_generation = 3;
    mesh_reconciled_version = "2.3.0-3";
    conditions = reconciled ∷ [];
  };
}

abbrev pub deleted_member_in : String → Member
deleted_member_in namespace =
    let member = member_in namespace in
    record member { meta = record member.meta { deletion_timestamp = some 7 } }

abbrev pub roll_in : String → List String → MemberRoll
roll_in namespace members = record {
  meta = meta_of "default" namespace;
  members = members;
  status = record {
    annotations = none;
    observed_generation = 0;
    mesh_generation = 0;
    mesh_reconciled_version = "";
    members = [];
    configured_members = [];
    pending_members = [];
    terminating_members = [];
    conditions = [];
    member_statuses = [];
  };
}

abbrev pub mesh_in : String → ControlPlane
mesh_in namespace = record {
  meta = meta_of "basic" namespace;
  version = "v2.3";
  control_plane_mode = unset;
  observed_generation = 3;
  operator_version = "2.3.0";
  applied_addons = none;
}

abbrev pub role_binding : String → String → RoleBinding
role_binding kind name = record {
  meta = meta_of name "istio-system";
  role_ref_kind = kind;
  body = "";
}

abbrev pub namespace_of : String → Namespace
namespace_of name = record { meta = meta_of name "" }

-- The API server cannot read the namespace `broken`, finds no member roll in `istio-system`, no
-- network configuration and no role bindings, and accepts every write.
abbrev pub answer : List Call → (c : Call) → Reply Failure c
answer log (Kube.get_member k) = ok (member_in k.namespace)
answer log (Kube.list_members ns) = ok (member_in "app" ∷ deleted_member_in "old" ∷ [])
answer log (Kube.get_roll k) =
    if k.namespace == "istio-system" then err missing else ok (roll_in k.namespace ("app" ∷ []))
answer log Kube.list_rolls = ok (roll_in "other-mesh" ("shop" ∷ []) ∷ [])
answer log (Kube.get_namespace ns) =
    if ns == "broken" then err (failed "the server is not available") else ok (namespace_of ns)
answer log Kube.list_namespaces = ok (namespace_of "app" ∷ [])
answer log (Kube.get_control_plane k) = ok (mesh_in k.namespace)
answer log (Kube.list_control_planes ns) = ok (mesh_in ns ∷ [])
answer log (Kube.list_role_bindings ns k v) = ok []
answer log (Kube.list_network_policies ns k v) = ok []
answer log (Kube.list_nads ns k v) = ok []
answer log Kube.get_network = err missing
answer log Kube.get_cluster_network = err missing
answer log (Kube.get_net_namespace ns) = err missing
answer log (Kube.get_kiali k) =
    ok (record { accessible_namespaces = some ("app" ∷ []); excluded_namespaces = some [] })
answer log (Kube.record_event t r m) = tt
answer log (Kube.review_access r) = ok (record { allowed = true; denied = false })
answer log _ = none

abbrev pub world : Env Failure
world = record {
  errors = failures;
  reply = answer;
  clock = λ log. 9;
  sorted = λ s. s;
  print_int = λ n. if nat_eq n 3 then "3" else "0";
  print_list = concat;
  to_lower = λ s. s;
  matches_regexp = λ pattern s.
      pattern == "^[a-z0-9]([-a-z0-9]*[a-z0-9])?$" || pattern == concat ("^" ∷ s ∷ "$" ∷ []);
  operator_namespace = "openshift-operators";
}

pub world-IsSorting : IsSorting world
world-IsSorting = record { has-sorted = λ x s. refl }

-- The same cluster, which refuses to delete members.
abbrev pub refuse : List Call → (c : Call) → Reply Failure c
refuse log (Kube.delete_member m) = some (failed "forbidden")
refuse log c = answer log c

abbrev pub locked_world : Env Failure
locked_world = record world { reply = refuse }
