-- ===== src/Mesh.antt =====
-- The controller of control planes: pkg/controller/servicemesh/controlplane, and the labelling of
-- the objects that it creates (pkg/controller/common/helm/manifestprocessing.go).
pub mod Objects
pub mod Calls
pub mod Pruning
pub mod Stale
pub mod Labelling
pub mod Labelled
pub mod Readiness
pub mod Reported
pub mod Cluster
pub mod Conditions
pub mod Posting
pub mod Installation
pub mod Namespaces
pub mod Preparation
pub mod Reconciler
pub mod Deleter
pub mod Controller
pub mod Ready
pub mod Allowed
pub mod Reconciling
pub mod Resumed
pub mod Prepared
pub mod Writes
pub mod Held
pub mod Lifecycle
pub mod Charts
pub mod Deletion
pub mod Pauses
pub mod Labels
