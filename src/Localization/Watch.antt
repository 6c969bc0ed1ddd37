-- ===== src/Localization/Watch.antt =====
-- findObjects and findObjectsForGitRepository of controllers/localization_controller.go: the
-- localizations that a change of another object concerns.
use Prim.Native.String.{◌++◌}
use ocm_controller.Prelude.{
  String, ◌≡◌, ◌↔◌, ◌⊎◌, inr, Option, none, some, List, [], ◌∷◌, ◌++◌ as list_append, arith, In,
}
use ocm_controller.Prelude.Outcome.{Result, ok, err}
use ocm_controller.Component.Names.{NamespacedName}
use ocm_controller.Localization.Requests.{
  key_text, texts, Increasing, make_requests, make_requests-Increasing,
}

-- the objects that findObjects tells apart: a component version, a snapshot with the names of its
-- owners, and any other
pub data Watched : Type 0 where
  component_version : NamespacedName → Watched
  snapshot : NamespacedName → List String → Watched
  other : Watched

-- selectorTerm, where there is one
unfoldable pub selector_term : Watched → Option String
selector_term (component_version key) = some (key_text key)
selector_term (snapshot key (owner ∷ [])) = some (key.namespace ++ ("/" ++ owner))
selector_term (snapshot key owners) = none
selector_term other = none

-- `list` is client.List by an index of the manager: the field, and the term it has to equal.
module _ (list : String → String → Result (List NamespacedName)) where
  abbrev pub both_lists :
      Result (List NamespacedName) → Result (List NamespacedName) → Result (List NamespacedName)
  both_lists (ok sources) (ok configs) = ok (make_requests (list_append sources configs))
  both_lists (ok sources) (err e) = ok []
  both_lists (ok sources) failed = failed
  both_lists (err e) configs = ok []
  both_lists failed configs = failed

  unfoldable pub find_objects : String → String → Watched → Result (List NamespacedName)
  find_objects source_key config_key obj = elim (selector_term obj) [
    | none ↦ ok []
    | some term ↦ both_lists (list source_key term) (list config_key term)
  ]

  abbrev pub requests_of : Result (List NamespacedName) → Result (List NamespacedName)
  requests_of (ok keys) = ok (make_requests keys)
  requests_of (err e) = ok []
  requests_of failed = failed

  unfoldable pub find_objects_for_git_repository :
      String → NamespacedName → Result (List NamespacedName)
  find_objects_for_git_repository key obj = requests_of (list key (key_text obj))

  In-append :
      (t : String) (xs ys : List NamespacedName)
      → In t (texts (list_append xs ys)) ↔ (In t (texts xs) ⊎ In t (texts ys))
  In-append t [] ys = (λ h. inr h, λ h. ground arith)
  In-append t (x ∷ xs) ys = ground (arith, In-append t xs ys)

  -- Where the object has a term, the answer is what the two lists have for that term, each key once and
  -- in order.
  pub find_objects-Increasing :
      (source_key config_key term : String) (obj : Watched) (sources configs : List NamespacedName)
      → selector_term obj ≡ some term
      → list source_key term ≡ ok sources
      → list config_key term ≡ ok configs
      → (found : List NamespacedName) × (find_objects source_key config_key obj ≡ ok found)
        × Increasing (texts found)
        × ((t : String) → In t (texts found) ↔ (In t (texts sources) ⊎ In t (texts configs)))
  unfolding find_objects
  find_objects-Increasing source_key config_key term obj sources configs h hs hc =
      let (increasing, members) = make_requests-Increasing (list_append sources configs) in
      (
        make_requests (list_append sources configs),
        ground arith,
        increasing,
        λ t.
            let (f, g) = members t in
            let (f', g') = In-append t sources configs in (λ x. f' (f x), λ x. g (g' x)),
      )
