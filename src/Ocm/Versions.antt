-- ===== src/Ocm/Versions.antt =====
-- ListComponentVersions, GetLatestValidComponentVersion and GetComponentVersion of pkg/ocm/ocm.go.
use ocm_controller.Prelude.{String, Option, none, some, List, [], ◌∷◌, if◌then◌else◌}
use ocm_controller.Prelude.Outcome.{Result, ok, err, panic, plain, context}
use ocm_controller.ComponentVersion.Types.{ComponentVersion}
use ocm_controller.Ocm.Library.{Library}
use ocm_controller.Ocm.Credentials.{◌>>=◌}

module _ (l : Library) where
  open l use {
    Cluster, Octx, Access, Semver, Constraint, repository_for_spec, lookup_component, list_versions,
    lookup_component_version, new_version, greater_than, new_constraint, validate,
  }

  -- Version: the parsed version beside the text it was parsed from, which may start with a `v`
  pub record Version : Type 0 where
    pub semver : Semver
    pub version : String

  -- the loop of ListComponentVersions: versions that are not semver are left out
  abbrev pub parse_all : List String → List Version
  parse_all [] = []
  parse_all (v ∷ vs) =
      let rest = parse_all vs in
      elim (new_version v) [
        | none ↦ rest
        | some parsed ↦ (record { semver = parsed; version = v }) ∷ rest
      ]

  unfoldable pub list_component_versions : Cluster → Octx → ComponentVersion → Result (List Version)
  list_component_versions k octx obj = do
    repo ←
        context "failed to get repository for spec"
          (repository_for_spec k octx obj.spec.repository.url)
    component ← context "component error" (lookup_component k repo obj.spec.component)
    versions ← context "failed to list versions for component" (list_versions k component)
    ok (parse_all versions)

  -- sort.SliceStable by GreaterThan, the greatest first
  unfoldable pub insert_version : Version → List Version → List Version
  insert_version v [] = v ∷ []
  insert_version v (x ∷ xs) =
      let rest = insert_version v xs in
      if greater_than x.semver v.semver then x ∷ rest else v ∷ x ∷ xs

  unfoldable pub sort_versions : List Version → List Version
  sort_versions [] = []
  sort_versions (v ∷ vs) = insert_version v (sort_versions vs)

  -- the loop over the sorted versions
  unfoldable pub first_valid : Constraint → List Version → Result String
  first_valid c [] = err (plain "no matching versions found for constraint")
  first_valid c (v ∷ vs) =
      let rest = first_valid c vs in if validate c v.semver then ok v.version else rest

  abbrev pub some_versions : List Version → Result (List Version)
  some_versions [] = err (plain "no versions found for component")
  some_versions vs = ok vs

  unfoldable pub get_latest_valid_component_version :
      Cluster → Octx → ComponentVersion → Result String
  get_latest_valid_component_version k octx obj = do
    listed ← context "failed to get component versions" (list_component_versions k octx obj)
    versions ← some_versions listed
    constraint ← context "failed to parse constraint version" (new_constraint obj.spec.semver)
    first_valid constraint (sort_versions versions)

  -- GetComponentVersion calls a method of the context, which panics where that is nil.
  unfoldable pub get_component_version :
      Cluster → Option Octx → ComponentVersion → String → String → Result Access
  get_component_version k none obj name version = panic
  get_component_version k (some octx) obj name version = do
    repo ←
        context "failed to get repository for spec"
          (repository_for_spec k octx obj.spec.repository.url)
    context "failed to look up component Version" (lookup_component_version k repo name version)
