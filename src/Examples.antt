-- ===== src/Examples.antt =====
-- Concrete clusters, errors and objects, on which the theorems are applied.
mod Failures
mod World
mod MeshWorld
mod Controllers
mod Meshes
mod Admissions
mod Profiling
mod Libraries
