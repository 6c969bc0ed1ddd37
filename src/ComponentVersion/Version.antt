-- ===== src/ComponentVersion/Version.antt =====
-- checkVersion of controllers/componentversion_controller.go.
use ocm_controller.Prelude.{String, Bool, true, false, ◌||◌, [], if◌then◌else◌, str_eq}
use ocm_controller.Prelude.Outcome.{ok, Op, ◌>>=◌, pure, lift, context}
use ocm_controller.Status.Runtime.{Runtime}
use ocm_controller.Status.World.{World}
use ocm_controller.Status.Mark.{new_event, info}
use ocm_controller.ComponentVersion.Types.{ComponentVersion}
use ocm_controller.ComponentVersion.Services.{Services}

module _ (r : Runtime) (s : Services r) where
  open s use {
    Cluster, Octx, Semver, get_latest_valid_component_version, parse_semver, semver_equal,
    semver_greater,
  }

  abbrev pub reconciled_or_zero : ComponentVersion → String
  reconciled_or_zero cv = if str_eq cv.reconciled_version "" then "0.0.0" else cv.reconciled_version

  abbrev pub up_to_date : Semver → Semver → Bool
  up_to_date latest current = semver_equal latest current || semver_greater current latest

  -- Whether to update, and the latest version.
  unfoldable pub check_version :
      Octx → Op (World r.Conditions Cluster ComponentVersion) (Bool × String)
  check_version octx w =
      (do
        latest ← lift (
            context "failed to get latest component version"
              (get_latest_valid_component_version w.cluster octx w.obj))
        latest_semver ← lift (context "failed to parse latest version" (parse_semver latest))
        current ←
            lift (
              context "failed to parse reconciled version"
                (parse_semver (reconciled_or_zero w.obj)))
        (if up_to_date latest_semver current then pure (false, latest) else λ w'.
            (ok (true, latest), new_event r info [] w')))
        w
