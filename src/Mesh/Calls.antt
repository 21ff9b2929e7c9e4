-- ===== src/Mesh/Calls.antt =====
-- The calls that the controller of control planes makes, with their answers. Rendering the charts,
-- installing the resource definitions, CNI and RBAC objects, applying the manifests of a component
-- and patching addons are calls too: what they return is arbitrary.
use istio_operator.Prelude.{ℕ, ◌≡◌, Bool, String, List, ◌∷◌, Option, Map, has}
use istio_operator.Errors.{Errors}
use istio_operator.Prog.{Result, Prog, perform, observe, ◌>>=◌}
use istio_operator.Prog.Emits.{Emits, Emits-perform, Emits-observe}
use istio_operator.Prog.Returns.{Returns}
use istio_operator.Kube.{NamespacedName, ObjectMeta, Namespace, MemberRoll}
use istio_operator.Mesh.Objects.{
  GroupVersionKind, Crd, Requirement, Deployment, StatefulSet, DaemonSet, MeshStatus, Mesh,
  Manifest, ObjectName,
}

-- Renderings by chart name: Go's `map[string][]manifest.Manifest`
abbrev pub Renderings : Type 0
Renderings = Map (List Manifest)

pub data MeshCall : Type 0 where
  get_mesh : NamespacedName → MeshCall
  update_mesh : Mesh → MeshCall
  -- Status().Patch, which answers with the status that is stored
  patch_mesh_status : NamespacedName → MeshStatus → MeshCall
  get_smmr : NamespacedName → MeshCall
  get_mesh_namespace : String → MeshCall
  update_mesh_namespace : Namespace → MeshCall
  list_crds : MeshCall
  list_objects : GroupVersionKind → List Requirement → MeshCall
  delete_object : GroupVersionKind → ObjectMeta → MeshCall
  -- DeleteAllOf
  delete_all_of : GroupVersionKind → List Requirement → MeshCall
  -- a namespace and the value of the owner label
  list_deployments list_stateful_sets list_daemon_sets : String → String → MeshCall
  -- the daemon sets labelled istio=cni
  list_cni_daemon_sets : String → MeshCall
  -- Strategy().Render of a version, which also sets the applied spec and values
  render : Mesh → MeshCall
  install_crds install_cni : String → MeshCall
  reconcile_rbac : Mesh → MeshCall
  -- ManifestProcessor.ProcessManifests and then processNewComponent, of the named component and for
  -- a generation: whether it made changes, the first maistra-version label that preprocessObject
  -- saw (or the empty string), and the error
  process_manifests : List Manifest → String → String → MeshCall
  -- PatchAddons: the seconds of RequeueAfter, and the error
  patch_addons : Mesh → MeshCall
  mesh_event : String → String → String → MeshCall

abbrev pub MeshReply : Type 0 → MeshCall → Type 0
MeshReply E (get_mesh _) = Result E Mesh
MeshReply E (patch_mesh_status _ _) = Result E MeshStatus
MeshReply E (get_smmr _) = Result E MemberRoll
MeshReply E (get_mesh_namespace _) = Result E Namespace
MeshReply E list_crds = Result E (List Crd)
MeshReply E (list_objects _ _) = Result E (List ObjectMeta)
MeshReply E (list_deployments _ _) = Result E (List Deployment)
MeshReply E (list_stateful_sets _ _) = Result E (List StatefulSet)
MeshReply E (list_daemon_sets _ _) = Result E (List DaemonSet)
MeshReply E (list_cni_daemon_sets _) = Result E (List DaemonSet)
MeshReply E (render _) = (Option Renderings × String) × Option E
MeshReply E (process_manifests _ _ _) = Bool × String × Option E
MeshReply E (patch_addons _) = ℕ × Option E
MeshReply E (mesh_event _ _ _) = Unit {0}
MeshReply E _ = Option E

pub record MeshEnv (E : Type 0) : Type 0 where
  pub errors : Errors E
  pub reply : List MeshCall → (c : MeshCall) → MeshReply E c
  pub clock : List MeshCall → ℕ
  -- sets.String's List, which sorts
  pub sorted : List String → List String
  -- `%d` and `%s` of a slice
  pub print_int : ℕ → String
  pub print_list : List String → String
  -- strings.Split(s, ",")
  pub split_commas : String → List String
  -- path.Split's second result, and strings.HasPrefix(s, "istio/")
  pub file_name : String → String
  pub is_istio_chart : String → Bool
  -- releaseutil.SplitManifests and yaml.Unmarshal
  pub parse_objects : String → List (Option ObjectName)
  -- labels.NewRequirement, which checks the value
  pub check_requirement : Requirement → Option E
  -- reflect.DeepEqual of two statuses
  pub same_status : MeshStatus → MeshStatus → Bool
  -- versions.IsValidationError, and IsDependencyMissingError with GetMissingDependency
  pub is_validation_error : E → Bool
  pub missing_dependency : E → Option String
  -- errors.Cause, which is the error itself if it has no other cause
  pub root_cause : E → E
  -- GetChartInstallOrder of a version's strategy
  pub chart_install_order : String → List (List String)
  -- versions.ParseVersion's error
  pub version_error : String → Option E
  -- the runtime error of reading through a nil pointer, which ends a reconciliation
  pub nil_dereference : E
  -- cniConfig.Enabled, buildinfo.Info.Version, common.GetOperatorNamespace()
  pub cni_enabled : Bool
  pub operator_version : String
  pub operator_namespace : String

module _ {E : Type 0} (env : MeshEnv E) where
  unfoldable pub ask : (c : MeshCall) → Prog MeshCall (MeshReply E c)
  unfolding perform
  ask c = perform c (λ log. env.reply log c)

  unfoldable pub mesh_now : Prog MeshCall ℕ
  unfolding observe
  mesh_now = observe env.clock

-- What sets.String's List promises: it holds the elements of the set.
pub record IsMeshSorting {E : Type 0} (env : MeshEnv E) : Type 0 where
  pub has-sorted : (x : String) (s : List String) → has x (env.sorted s) ≡ has x s

module _ {E : Type 0} {Q : MeshCall → Type 0} where
  pub Emits-ask : (env : MeshEnv E) (c : MeshCall) → Q c → Emits Q (ask env c)
  unfolding ask
  Emits-ask env c q = Emits-perform c (λ log. env.reply log c) q

  pub Emits-mesh_now : (env : MeshEnv E) → Emits Q (mesh_now env)
  unfolding mesh_now
  Emits-mesh_now env = Emits-observe env.clock

  -- A call whose answers are known to satisfy `P`.
  pub Emits-answered :
      {A : Type 0} (env : MeshEnv E) (c : MeshCall) (f : MeshReply E c → Prog MeshCall A)
      (P : MeshReply E c → Type 0)
      → ((log : List MeshCall) → P (env.reply log c))
      → Q c
      → ((a : MeshReply E c) → P a → Emits Q (f a))
      → Emits Q (ask env c >>= f)
  unfolding ask perform ◌>>=◌
  Emits-answered env c f P known q hf = record {
    at = λ log h. (hf (env.reply log c) (known log)).at (c ∷ log) (q, h);
  }

module _ {E : Type 0} where
  -- A call whose answer is known.
  pub Returns-ask :
      (env : MeshEnv E) (c : MeshCall) (a : MeshReply E c)
      → ((log : List MeshCall) → env.reply log c ≡ a)
      → Returns (λ r. r ≡ a) (ask env c)
  unfolding ask perform
  Returns-ask env c a known = record { at = known }
