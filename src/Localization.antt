-- ===== src/Localization.antt =====
-- Localizations: controllers/localization_controller.go, and with the mutation looper behind it
-- (Client).
pub mod Types
pub mod Readiness
pub mod Controller
pub mod Requests
pub mod Watch
pub mod Prepared
pub mod Reported
pub mod Finished
pub mod Client
pub mod Written
pub mod Concerned
