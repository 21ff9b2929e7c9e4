-- ===== src/Profiles.antt =====
-- The profiles of a control plane: pkg/controller/versions/template.go.
pub mod Values
pub mod Applying
pub mod Kept
pub mod Finished
