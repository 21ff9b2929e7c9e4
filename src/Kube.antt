-- ===== src/Kube.antt =====
-- The objects of the cluster that the controllers read and write, and the calls of the API server.
mod Objects
mod Api
mod Emission
pub use Objects.*
unfoldable pub use Api.*
pub use Emission.*
