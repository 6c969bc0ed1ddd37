-- ===== src/Configuration/Controller.antt =====
-- Reconcile and reconcile of controllers/configuration_controller.go, which are those of
-- controllers/localization_controller.go.
use ocm_controller.Prelude.{Option}
use ocm_controller.Status.Runtime.{Runtime}
use ocm_controller.Status.World.{Exit}
use ocm_controller.Component.Names.{NamespacedName}
use ocm_controller.Localization.Types.{LocalizationServices}
use ocm_controller.Localization.Controller as Localization
use ocm_controller.Localization.Controller.{Here, Step}

module _ (r : Runtime) (s : LocalizationServices r) where
  abbrev pub reconcile : Step r s (Unit {0})
  reconcile = Localization.reconcile r s

  -- Reconcile, after the deferred update is set up
  abbrev pub reconcile_configuration : Step r s (Unit {0})
  reconcile_configuration = Localization.reconcile_localization r s

  abbrev pub reconcile_request : NamespacedName → s.Cluster → Exit (Unit {0}) × Option (Here r s)
  reconcile_request = Localization.reconcile_request r s
