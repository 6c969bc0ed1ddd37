-- ===== src/Resource.antt =====
-- Resources: controllers/resource_controller.go over api/v1alpha1/resource_types.go, and
-- pkg/snapshot/generate_snapshot_name.go.
pub mod Types
pub mod Controller
pub mod Reported
pub mod Watch
