-- ===== src/Roll.antt =====
-- pkg/controller/servicemesh/memberroll/controller.go: the controller of ServiceMeshMemberRoll
-- objects, which keeps a ServiceMeshMember in every namespace of the roll and sums up their status.
pub mod Membership
pub mod Members
pub mod Kiali
pub mod Summary
pub mod Status
pub mod Sync
pub mod Controller
pub mod Permitted
pub mod Writes
pub mod Counting
pub mod Deletion
pub mod KialiSync
