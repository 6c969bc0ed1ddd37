-- ===== src/Component/References/Search.antt =====
-- GetComponentDescriptor against a plain description: the first reference, in preorder, that the
-- reference path selects.
use ocm_controller.Prelude.{
  ◌≡◌, refl, Bool, ◌||◌, Option, none, some, List, [], ◌∷◌, ◌++◌, arith, if◌then◌else◌,
}
use ocm_controller.Prelude.Outcome.{Result, ok}
use ocm_controller.Component.Names.{NamespacedName, Identity}
use ocm_controller.Component.References.{
  Reference, References, reference, no_more, also, ref_name, descriptor_ref, is_empty,
  reference_path_contains_name, get_component_descriptor_object, get_component_descriptor,
  search_references,
}

-- the references of a tree, each before those below it
unfoldable mutual
  pub preorder : Reference → List Reference
  preorder (reference n v rs x d) = reference n v rs x d ∷ preorder_all rs

  pub preorder_all : References → List Reference
  preorder_all no_more = []
  preorder_all (also r rs) = preorder r ++ preorder_all rs

-- An empty path selects any reference, another one those whose name it holds.
abbrev pub selects : List Identity → Reference → Bool
selects path r = is_empty path || reference_path_contains_name (ref_name r) path

abbrev pub first : (Reference → Bool) → List Reference → Option Reference
first p [] = none
first p (r ∷ rs) = let later = first p rs in if p r then some r else later

first-append :
    (p : Reference → Bool) (xs ys : List Reference)
    → first p (xs ++ ys) ≡ elim (first p xs) [ none ↦ first p ys | some r ↦ some r ]
first-append p [] ys = refl
first-append p (x ∷ xs) ys = ground (arith, first-append p xs ys)

module _ {D : Type 0} (get : NamespacedName → Result D) where
  abbrev pub fetch_found : Option Reference → Result (Option D)
  fetch_found none = ok none
  fetch_found (some r) = get_component_descriptor_object get (descriptor_ref r)

  mutual
    unfolding get_component_descriptor preorder get_component_descriptor_object

    search_lem :
        (path : List Identity) (r : Reference)
        → get_component_descriptor get path r ≡ fetch_found (first (selects path) (preorder r))
    search_lem path (reference n v rs x d) = ground (arith, search_all_lem path rs)

    search_all_lem :
        (path : List Identity) (rs : References)
        → search_references get path rs ≡ fetch_found (first (selects path) (preorder_all rs))
    search_all_lem path no_more = refl
    search_all_lem path (also r rs) = ground (
      arith,
      search_lem path r,
      search_all_lem path rs,
      first-append (selects path) (preorder r) (preorder_all rs),
    )

  -- GetComponentDescriptor answers with the object of the first reference, in preorder, whose name the
  -- path holds, or of the root where the path is empty; with nothing where there is none.
  pub get_component_descriptor-first :
      (path : List Identity) (root : Reference)
      → get_component_descriptor get path root ≡ fetch_found (first (selects path) (preorder root))
  get_component_descriptor-first = search_lem
