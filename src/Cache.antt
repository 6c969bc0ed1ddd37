-- ===== src/Cache.antt =====
-- The cache in an OCI registry: pkg/oci/repository.go, which implements the interface of
-- pkg/cache/cache.go.
pub mod Contract
pub mod Registry
pub mod Repository
pub mod Client
pub mod Laws
pub mod Opened
pub mod Pushed
pub mod Stored
