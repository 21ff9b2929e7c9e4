-- ===== src/Webhooks.antt =====
-- pkg/controller/servicemesh/webhooks: the admission webhooks for members, member rolls and the
-- updates of control planes.
pub mod Admission
pub mod Members
pub mod MemberRolls
pub mod Access
pub mod Mutation
pub mod Guards
pub mod Duplicates
pub mod Admitted
pub mod Permissions
pub mod Upgrades
pub mod Chain
