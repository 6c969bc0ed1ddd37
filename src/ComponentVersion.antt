-- ===== src/ComponentVersion.antt =====
-- The ComponentVersion controller: controllers/componentversion_controller.go, over the types of
-- api/v1alpha1/componentversion_types.go.
pub mod Types
pub mod Services
pub mod Version
pub mod Expand
pub mod Nested
pub mod Ends
pub mod Controller
pub mod Verified
pub mod Settled
pub mod Client
pub mod Watch
