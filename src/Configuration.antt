-- ===== src/Configuration.antt =====
-- Configurations: controllers/configuration_controller.go over api/v1alpha1/configuration_types.go. Its
-- Reconcile, reconcile, checkReadiness and checkFluxSourceReadiness are, statement by statement, those
-- of controllers/localization_controller.go, on objects of the other kind.
pub mod Controller
pub mod Watch
