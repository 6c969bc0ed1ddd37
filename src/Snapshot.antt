-- ===== src/Snapshot.antt =====
-- Snapshots: api/v1alpha1/snapshot_types.go, controllers/snapshot_controller.go, the predicates that
-- react to changed snapshots and versions, and pkg/snapshot/snapshot_writer.go.
pub mod Types
pub mod Predicates
pub mod Delete
pub mod Deleted
pub mod Controller
pub mod Settled
pub mod Tar
pub mod Archive
pub mod Writer
pub mod Written
pub mod Uncached
