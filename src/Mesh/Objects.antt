-- ===== src/Mesh/Objects.antt =====
-- The objects that the controller of control planes handles, with the fields that it reads or
-- writes: pkg/apis/maistra/v2/servicemeshcontrolplane_types.go, and objects of the cluster.
-- Replica counts (`int32`) and generations (`int64`) are natural numbers.
use istio_operator.Prelude.{ℕ, Bool, String, List, Option}
use istio_operator.Status.{Annotations, Condition, ComponentStatus}
use istio_operator.Kube.{ObjectMeta}

-- schema.GroupVersionKind
pub record GroupVersionKind : Type 0 where
  pub group : String
  pub version : String
  pub kind : String

-- An element of apiextensions' Spec.Versions
pub record CrdVersion : Type 0 where
  pub name : String
  pub served : Bool

-- apiextensions' CustomResourceDefinition
pub record Crd : Type 0 where
  pub group : String
  pub kind : String
  pub versions : List CrdVersion

-- selection.Operator, and labels.Requirement with one value
pub data Operator : Type 0 where
  equals not_equals : Operator

pub record Requirement : Type 0 where
  pub key : String
  pub operator : Operator
  pub value : String

-- An element of a Deployment's Status.Conditions
pub record DeploymentCondition : Type 0 where
  pub type : String
  pub status : String

pub record Deployment : Type 0 where
  pub meta : ObjectMeta
  pub observed_generation : ℕ
  pub replicas : ℕ
  pub ready_replicas : ℕ
  pub conditions : List DeploymentCondition

pub record StatefulSet : Type 0 where
  pub meta : ObjectMeta
  pub replicas : ℕ
  pub ready_replicas : ℕ

pub record DaemonSet : Type 0 where
  pub meta : ObjectMeta
  pub number_unavailable : ℕ

-- The three keys of a ReadinessMap that the operator writes
pub record ReadinessMap : Type 0 where
  pub ready : List String
  pub unready : List String
  pub pending : List String

-- ControlPlaneStatus
pub record MeshStatus : Type 0 where
  pub annotations : Annotations
  pub conditions : List Condition
  pub component_status : List ComponentStatus
  pub observed_generation : ℕ
  pub operator_version : String
  pub chart_version : String
  -- Readiness.Components, `none` for a nil map
  pub readiness : Option ReadinessMap
  -- AppliedSpec and AppliedValues, which the controller copies without reading them
  pub applied : String

-- What the controller reads of Spec.Gateways: the namespaces of clusterIngress, clusterEgress, the
-- ingress gateways and the egress gateways, each with its own nil pointer or list.
pub record Gateways : Type 0 where
  pub cluster_ingress : Option String
  pub cluster_egress : Option String
  pub ingress_gateways : List String
  pub egress_gateways : List String

-- What Spec.TechPreview holds under the key of a conversion error.
pub data ErrorField : Type 0 where
  no_error : ErrorField
  conversion_error : String → ErrorField
  -- the text of the error that reading it ends in
  unreadable : String → ErrorField

-- ServiceMeshControlPlane
pub record Mesh : Type 0 where
  pub meta : ObjectMeta
  pub version : String
  pub gateways : Option Gateways
  pub errored_message : ErrorField
  pub status : MeshStatus

-- manifest.Manifest of Helm, with the kind of its head
pub record Manifest : Type 0 where
  pub name : String
  pub content : String
  pub kind : String

-- What validateManifests reads of an object: its namespace and its name. `none` is a text that does
-- not parse.
pub record ObjectName : Type 0 where
  pub namespace : String
  pub name : String
