-- ===== src/Roll/Membership.antt =====
-- Which namespaces belong to a member roll (pkg/controller/servicemesh/memberroll/controller.go and
-- pkg/apis/maistra/v1/servicemeshmemberroll_types.go).
use istio_operator.Prelude.{
  Bool, true, false, not, ◌&&◌, ◌||◌, String, List, [], ◌∷◌, Option, none, some, ◌==◌,
  if◌then◌else◌, concat, set_insert,
}
use istio_operator.Prog.{Prog, Result, ok, err, pure, ◌>>=◌, on_result}
use istio_operator.Kube.{
  NamespacedName, Namespace, Member, MemberRoll, ControlPlane, ModeField, unset, text, not_text,
  Env, Call, call, list_rolls,
}
use istio_operator.Common.{created_by_key, get_annotation, to_namespaced_name}

abbrev pub controller_name : String
controller_name = "servicemeshmemberroll-controller"

-- ServiceMeshMemberRollSpec.IsClusterScoped, of spec.members
unfoldable pub is_cluster_scoped : List String → Bool
is_cluster_scoped [] = false
is_cluster_scoped (ns ∷ nss) = if ns == "*" then true else is_cluster_scoped nss

-- contains
unfoldable pub contains : List String → String → Bool
contains [] ns = false
contains (member ∷ members) ns = if member == ns then true else contains members ns

unfoldable pub created_by : Option String → Bool
created_by none = false
created_by (some s) = s == controller_name

-- isCreatedByThisController
unfoldable pub is_created_by_this_controller : Member → Bool
unfolding created_by
is_created_by_this_controller member = created_by (get_annotation member.meta created_by_key)

-- getNamespaces, without the sorting
unfoldable pub namespaces_of : List Member → List String
namespaces_of [] = []
namespaces_of (m ∷ ms) = set_insert m.meta.namespace (namespaces_of ms)

module _ {E : Type 0} (env : Env E) where
  open env use {errors, matches_regexp, operator_namespace}

  -- getExcludedNamespaces
  unfoldable pub get_excluded_namespaces : List String
  get_excluded_namespaces =
      concat ("^" ∷ operator_namespace ∷ "$" ∷ [])
      ∷ "^kube$"
      ∷ "^openshift$"
      ∷ "^kube-.*"
      ∷ "^openshift-.*"
      ∷ []

  unfoldable pub matches_any : List String → String → Bool
  matches_any [] ns = false
  matches_any (regex ∷ regexes) ns =
      if matches_regexp regex ns then true else matches_any regexes ns

  -- isExcludedNamespace
  unfoldable pub is_excluded_namespace : String → Bool
  unfolding matches_any get_excluded_namespaces
  is_excluded_namespace ns = matches_any get_excluded_namespaces ns

  -- isMember
  unfoldable pub is_member : String → MemberRoll → Bool
  is_member namespace smmr =
      (is_cluster_scoped smmr.members && not (is_excluded_namespace namespace))
      || contains smmr.members namespace

  requests_of : String → List MemberRoll → List NamespacedName
  requests_of namespace [] = []
  requests_of namespace (smmr ∷ smmrs) =
      let rest = requests_of namespace smmrs in
      if is_member namespace smmr then to_namespaced_name smmr.meta ∷ rest else rest

  -- toRequests; an error is logged, and the list that came with it is empty
  unfoldable pub to_requests : String → Prog Call (List NamespacedName)
  unfolding requests_of
  to_requests namespace = do
    listed ← call env list_rolls
    on_result listed (λ smmrs. pure (requests_of namespace smmrs)) (λ e. pure [])

  mode_is_cluster_scoped : ModeField → Result E Bool
  mode_is_cluster_scoped unset = ok false
  mode_is_cluster_scoped (text mode) = ok (mode == "ClusterScoped")
  mode_is_cluster_scoped not_text =
      err (errors.errorf "controlPlaneMode accessor error: the value is not a string")

  -- ControlPlaneSpec.IsClusterScoped
  unfoldable pub control_plane_is_cluster_scoped : ControlPlane → Result E Bool
  unfolding mode_is_cluster_scoped
  control_plane_is_cluster_scoped mesh = mode_is_cluster_scoped mesh.control_plane_mode

-- The namespaces of a cluster-scoped roll: all but the mesh's own and the excluded ones.
unfoldable pub cluster_members : {E : Type 0} → Env E → String → List Namespace → List String
cluster_members env mesh_namespace [] = []
cluster_members env mesh_namespace (ns ∷ nss) =
    let rest = cluster_members env mesh_namespace nss in
    if not (ns.meta.name == mesh_namespace) && not (is_excluded_namespace env ns.meta.name)
    then ns.meta.name ∷ rest
    else rest
