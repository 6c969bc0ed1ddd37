-- ===== src/Snapshot/Predicates.antt =====
-- The event filters of controllers/: component_version_predicate.go, snapshot_predicate.go and
-- source_predicate.go. An object of an event is nil, or of some type.
use ocm_controller.Prelude.{
  String, ◌≡◌, ◌≢◌, ◌↔◌, Bool, true, false, not, ◌&&◌, Option, none, some, arith, str_eq, eq_iff,
  if◌then◌else◌,
}

-- the objects that the filters tell apart; a component version by its reconciled version, a snapshot
-- by its digest, and a source by its artifact
pub data Object (Artifact : Type 0) : Type 0 where
  component_version : String → Object Artifact
  snapshot : String → Object Artifact
  source : Option Artifact → Object Artifact
  other : Object Artifact

-- the two tests that both filters of texts make
abbrev pub text_changed : String → String → Bool
text_changed old new =
    if str_eq old "" && not (str_eq new "")
    then true
    else not (str_eq old "") && not (str_eq new "") && not (str_eq old new)

module _ {Artifact : Type 0} where
  unfoldable pub component_version_update :
      Option (Object Artifact) → Option (Object Artifact) → Bool
  component_version_update (some (component_version old)) (some (component_version new)) =
      text_changed old new
  component_version_update _ _ = false

  unfoldable pub snapshot_update : Option (Object Artifact) → Option (Object Artifact) → Bool
  snapshot_update (some (snapshot old)) (some (snapshot new)) = text_changed old new
  snapshot_update _ _ = false

  -- `same` is HasRevision with the revision of the other artifact.
  unfoldable pub source_update :
      (Artifact → Artifact → Bool) → Option (Object Artifact) → Option (Object Artifact) → Bool
  source_update same (some (source none)) (some (source (some new))) = true
  source_update same (some (source (some old))) (some (source (some new))) = not (same old new)
  source_update same _ _ = false

module _ (Artifact : Type 0) where
  -- A snapshot event passes its filter exactly if the new digest is there and is not the old one,
  -- and a component version event in the same way by the reconciled version.
  update-changed :
      (old new : String)
      → ((snapshot_update {Artifact = Artifact} (some (snapshot old)) (some (snapshot new)) ≡ true)
          ↔ ((new ≢ "") × (new ≢ old)))
        × ((component_version_update {Artifact = Artifact}
                (some (component_version old))
                (some (component_version new))
              ≡ true)
            ↔ ((new ≢ "") × (new ≢ old)))
  unfolding snapshot_update component_version_update
  update-changed old new = ground (arith, eq_iff old "", eq_iff new "", eq_iff old new)
