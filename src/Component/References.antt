-- ===== src/Component/References.antt =====
-- Reference of api/v1alpha1/componentversion_types.go, a tree of referenced components, and
-- GetComponentDescriptor of pkg/component/get_component_descriptor.go, which searches it.
pub mod Search
use ocm_controller.Prelude.{
  String, Bool, true, false, ◌&&◌, ◌||◌, Option, none, some, List, [], ◌∷◌, str_eq, if◌then◌else◌,
}
use ocm_controller.Prelude.Outcome.{Result, ok, err, panic, out_of_fuel, wrap}
use ocm_controller.Component.Names.{NamespacedName, Identity}

mutual
  pub data Reference : Type 0 where
    reference :
        (name version : String)
        → References
        → (extra_identity : Identity) → (component_descriptor_ref : NamespacedName) → Reference

  pub data References : Type 0 where
    no_more : References
    also : Reference → References → References

abbrev pub ref_name : Reference → String
ref_name (reference n v rs x d) = n

abbrev pub ref_version : Reference → String
ref_version (reference n v rs x d) = v

abbrev pub descriptor_ref : Reference → NamespacedName
descriptor_ref (reference n v rs x d) = d

-- the inner loop: compdesc.SystemIdentityName is "name"
unfoldable pub identity_has_name : String → Identity → Bool
identity_has_name name [] = false
identity_has_name name ((k, v) ∷ id) = str_eq k "name" && str_eq name v || identity_has_name name id

unfoldable pub reference_path_contains_name : String → List Identity → Bool
unfolding identity_has_name
reference_path_contains_name name [] = false
reference_path_contains_name name (id ∷ path) =
    identity_has_name name id || reference_path_contains_name name path

abbrev pub is_empty : List Identity → Bool
is_empty [] = true
is_empty (x ∷ xs) = false

-- `get` is client.Get of a ComponentDescriptor; `none` is the nil descriptor.
module _ {D : Type 0} (get : NamespacedName → Result D) where
  unfoldable pub get_component_descriptor_object : NamespacedName → Result (Option D)
  get_component_descriptor_object key = elim (get key) [
    | ok d ↦ ok (some d)
    | err e ↦ err (wrap "failed to find component descriptor" e)
    | panic ↦ panic
    | out_of_fuel ↦ out_of_fuel
  ]

  -- the answer for one of the references, or else the answer for those after it
  abbrev pub or_next : Result (Option D) → Result (Option D) → Result (Option D)
  or_next (ok none) later = later
  or_next found later = found

  unfoldable mutual
    pub get_component_descriptor : List Identity → Reference → Result (Option D)
    get_component_descriptor path (reference name version refs extra key) =
        let deeper = search_references path refs in
        if is_empty path
        then get_component_descriptor_object key
        else if reference_path_contains_name name path
        then get_component_descriptor_object key
        else deeper

    -- the loop over obj.References
    pub search_references : List Identity → References → Result (Option D)
    search_references path no_more = ok none
    search_references path (also ref refs) =
        or_next (get_component_descriptor path ref) (search_references path refs)
