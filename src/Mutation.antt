-- ===== src/Mutation.antt =====
-- The mutation of resources: controllers/mutation_reconcile_looper.go.
pub mod Values
pub mod Subpath
pub mod Types
pub mod Services
pub mod Access
pub mod Rules
pub mod Sources
pub mod Patch
pub mod Mapping
pub mod Populated
pub mod Looper
pub mod Mutated
pub mod Patched
pub mod Agreement
pub mod Overrides
