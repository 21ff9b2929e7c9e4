-- ===== src/Kube/Objects.antt =====
-- The Kubernetes objects that the controllers handle, with the fields that they read or write:
-- pkg/apis/maistra/v1/servicemeshmember_types.go, servicemeshmemberroll_types.go,
-- pkg/apis/maistra/v2/servicemeshcontrolplane_types.go, and objects of the cluster itself.
-- Times are seconds, and `int64` generations are natural numbers.
use istio_operator.Prelude.{ℕ, Bool, String, Option, List, Map}
use istio_operator.Status.{Condition, Annotations}

pub record NamespacedName : Type 0 where
  pub namespace : String
  pub name : String

pub record ObjectMeta : Type 0 where
  pub name : String
  pub namespace : String
  -- `none` is a nil map
  pub labels : Option (Map String)
  pub annotations : Option (Map String)
  pub finalizers : List String
  pub deletion_timestamp : Option ℕ
  pub generation : ℕ

-- corev1.Namespace
pub record Namespace : Type 0 where
  pub meta : ObjectMeta

-- ServiceMeshControlPlaneRef
pub record ControlPlaneRef : Type 0 where
  pub name : String
  pub namespace : String

-- ServiceMeshMemberStatus
pub record MemberStatus : Type 0 where
  pub annotations : Annotations
  pub observed_generation : ℕ
  pub mesh_generation : ℕ
  pub mesh_reconciled_version : String
  pub conditions : List Condition

-- ServiceMeshMember
pub record Member : Type 0 where
  pub meta : ObjectMeta
  pub control_plane_ref : ControlPlaneRef
  pub status : MemberStatus

-- ServiceMeshMemberStatusSummary
pub record MemberStatusSummary : Type 0 where
  pub namespace : String
  pub conditions : List Condition

-- ServiceMeshMemberRollStatus
pub record RollStatus : Type 0 where
  pub annotations : Annotations
  pub observed_generation : ℕ
  pub mesh_generation : ℕ
  pub mesh_reconciled_version : String
  pub members : List String
  pub configured_members : List String
  pub pending_members : List String
  pub terminating_members : List String
  pub conditions : List Condition
  pub member_statuses : List MemberStatusSummary

-- ServiceMeshMemberRoll
pub record MemberRoll : Type 0 where
  pub meta : ObjectMeta
  pub members : List String
  pub status : RollStatus

-- What Spec.TechPreview holds under `controlPlaneMode`.
pub data ModeField : Type 0 where
  unset : ModeField
  text : String → ModeField
  not_text : ModeField

pub record KialiAddon : Type 0 where
  pub enabled : Option Bool
  pub name : String

pub record Addons : Type 0 where
  pub kiali : Option KialiAddon

-- ServiceMeshControlPlane
pub record ControlPlane : Type 0 where
  pub meta : ObjectMeta
  pub version : String
  pub control_plane_mode : ModeField
  pub observed_generation : ℕ
  pub operator_version : String
  -- Status.AppliedSpec.Addons
  pub applied_addons : Option Addons

-- rbac.RoleBinding; `body` is what the code copies without reading it
pub record RoleBinding : Type 0 where
  pub meta : ObjectMeta
  pub role_ref_kind : String
  pub body : String

-- networking.NetworkPolicy
pub record NetworkPolicy : Type 0 where
  pub meta : ObjectMeta
  pub body : String

-- multusv1.NetworkAttachmentDefinition
pub record NetworkAttachment : Type 0 where
  pub meta : ObjectMeta

-- network.NetNamespace, with the pod network change that its annotation asks for
pub data PodNetworkAction : Type 0 where
  join_pod_network isolate_pod_network global_pod_network : PodNetworkAction

pub record NetNamespace : Type 0 where
  pub name : String
  pub net_id : ℕ
  pub pending : Option (PodNetworkAction × String)

-- What reconcileKiali reads of a Kiali resource: the slices at deployment.accessible_namespaces and
-- api.namespaces.exclude, if they are found.
pub record Kiali : Type 0 where
  pub accessible_namespaces : Option (List String)
  pub excluded_namespaces : Option (List String)
