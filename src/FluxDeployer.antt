-- ===== src/FluxDeployer.antt =====
-- controllers/fluxdeployer_controller.go over api/v1alpha1/fluxdeployer_types.go: a FluxDeployer
-- hands a snapshot to Flux, by an OCI or Helm repository that serves it and a Kustomization or
-- HelmRelease that deploys it.
pub mod Types
pub mod Sources
pub mod Url
pub mod Controller
pub mod Stalled
pub mod Watch
