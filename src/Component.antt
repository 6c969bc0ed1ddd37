-- ===== src/Component.antt =====
-- pkg/component, and the names and references of api/v1alpha1 that every controller shares.
pub mod Names
pub mod References
