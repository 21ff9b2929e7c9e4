-- ===== src/Member.antt =====
-- pkg/controller/servicemesh/member: the controller of ServiceMeshMember objects, which makes a
-- namespace a member of a mesh and takes it out again.
pub mod Cleanup
pub mod Networking
pub mod Reconciler
pub mod RoleBindings
pub mod Attachments
pub mod Namespaces
pub mod Status
pub mod Rolls
pub mod Controller
pub mod Cleanups
pub mod Bindings
pub mod Permitted
pub mod Safety
pub mod Writes
