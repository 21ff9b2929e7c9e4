-- ===== src/Examples/MeshWorld.antt =====
-- A cluster with one control plane.
use istio_operator.Prelude.{
  true, false, List, [], ◌∷◌, Option, none, some, All, ap, subst, concat, if◌then◌else◌, ◌==◌,
  nat_eq,
}
use istio_operator.Prog.{Result, ok, err}
use istio_operator.Status.{Condition}
use istio_operator.Kube.{ObjectMeta}
use istio_operator.Mesh.Objects.{Mesh, MeshStatus, Deployment, Manifest, no_error}
use istio_operator.Mesh.Calls
use istio_operator.Mesh.Calls.{MeshEnv, MeshCall, MeshReply, Renderings}
use istio_operator.Mesh.Installation.{Instance}
use istio_operator.Mesh.Stale.{IsSelecting, Meets}
use istio_operator.Mesh.Prepared.{RendersAll}
use istio_operator.Examples.Failures.{Failure, failed, failures}
use istio_operator.Examples.World.{meta_of, roll_in}

abbrev pub reconciling : Condition
reconciling = record {
  type = "Reconciled";
  status = "False";
  reason = "SpecUpdated";
  message = "";
  last_transition_time = 5;
}

abbrev pub deleting : Condition
deleting = record reconciling { reason = "Deleting" }

abbrev pub mesh_status : List Condition → MeshStatus
mesh_status conditions = record {
  annotations = none;
  conditions = conditions;
  component_status = record { resource = "istio-discovery"; conditions = [] } ∷ [];
  observed_generation = 2;
  operator_version = "2.3.0";
  chart_version = "";
  readiness = none;
  applied = "";
}

abbrev pub basic_mesh : List Condition → Mesh
basic_mesh conditions = record {
  meta = meta_of "basic" "istio-system";
  version = "v2.3";
  gateways = none;
  errored_message = no_error;
  status = mesh_status conditions;
}

abbrev pub manifests : List Manifest
manifests = record { name = "deployment.yaml"; content = ""; kind = "Deployment" } ∷ []

abbrev pub renderings : Renderings
renderings =
    ("istio-control/istio-discovery", manifests)
    ∷ ("istio/grafana", [])
    ∷ ("maistra-threescale", [])
    ∷ []

abbrev pub istiod : Deployment
istiod =
    let m = meta_of "istiod" "istio-system" in
    record {
      meta = record m { labels = some (("app.kubernetes.io/component", "istio-discovery") ∷ []) };
      observed_generation = 2;
      replicas = 1;
      ready_replicas = 1;
      conditions = record { type = "Available"; status = "True" } ∷ [];
    }

abbrev pub instance_of : Option Renderings → List Condition → Instance
instance_of rendered conditions = record {
  mesh = basic_mesh conditions;
  status = mesh_status conditions;
  mesh_generation = "2.3.0-2";
  chart_version = "";
  renderings = rendered;
  wait_for_components = "istio-discovery" ∷ [];
  earliest = none;
}

-- The API server has one deployment, and accepts every write but the deletion of namespace labels.
abbrev pub mesh_answer : List MeshCall → (c : MeshCall) → MeshReply Failure c
mesh_answer log (Calls.get_mesh k) = ok (basic_mesh (reconciling ∷ []))
mesh_answer log (Calls.patch_mesh_status k s) = ok s
mesh_answer log (Calls.get_smmr k) = ok (roll_in k.namespace [])
mesh_answer log (Calls.get_mesh_namespace ns) = err (failed "the server is not available")
mesh_answer log Calls.list_crds = ok []
mesh_answer log (Calls.list_objects gvk rs) = ok []
mesh_answer log (Calls.list_deployments ns owner) = ok (istiod ∷ [])
mesh_answer log (Calls.list_stateful_sets ns owner) = ok []
mesh_answer log (Calls.list_daemon_sets ns owner) = ok []
mesh_answer log (Calls.list_cni_daemon_sets ns) = ok []
mesh_answer log (Calls.render mesh) = ((some renderings, "applied"), none)
mesh_answer log (Calls.process_manifests ms component g) = (true, "", none)
mesh_answer log (Calls.mesh_event t r m) = tt
mesh_answer log (Calls.patch_addons mesh) = (0, none)
mesh_answer log _ = none

abbrev pub mesh_world : MeshEnv Failure
mesh_world = record {
  errors = failures;
  reply = mesh_answer;
  clock = λ log. 9;
  sorted = λ s. s;
  print_int = λ n. if nat_eq n 2 then "2" else "0";
  print_list = concat;
  split_commas = λ s. s ∷ [];
  file_name = λ s. if s == "istio-control/istio-discovery" then "istio-discovery" else s;
  is_istio_chart = λ s. s == "istio/grafana";
  parse_objects = λ s. [];
  check_requirement = λ r. none;
  same_status = λ a b. false;
  is_validation_error = λ e. false;
  missing_dependency = λ e. none;
  root_cause = λ e. e;
  chart_install_order = λ v. ("istio-control/istio-discovery" ∷ []) ∷ [];
  version_error = λ v. none;
  nil_dereference = failed "nil pointer";
  cni_enabled = true;
  operator_version = "2.3.0";
  operator_namespace = "openshift-operators";
}

items_of : Result Failure (List ObjectMeta) → List ObjectMeta
items_of (ok os) = os
items_of (err e) = []

pub mesh_world-IsSelecting : IsSelecting mesh_world
unfolding items_of
mesh_world-IsSelecting = record {
  selected = λ log gvk rs os e. subst (All (λ o. All (Meets o) rs)) (ap items_of e) tt;
}

pub mesh_world-RendersAll : RendersAll mesh_world
mesh_world-RendersAll = record { nothing_rendered = λ log mesh e. cc }
