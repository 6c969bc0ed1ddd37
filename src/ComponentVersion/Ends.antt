-- ===== src/ComponentVersion/Ends.antt =====
-- The expansion of references ends, if no component refers to itself, directly or by others.
use ocm_controller.Prelude.{
  ℕ, zero, suc, ◌+◌, ◌<◌, String, ◌≡◌, ◌≢◌, false, none, some, Option, List, [], ◌∷◌, arith,
}
use ocm_controller.Prelude.Outcome.{
  ◌>>=◌, pure, context, Result, ok, out_of_fuel, bind_ends, context_ends, context-ok,
}
use ocm_controller.Status.Runtime.{Runtime}
use ocm_controller.Component.Names.{NamingScheme, construct_unique_name}
use ocm_controller.ComponentVersion.Types.{ComponentVersion}
use ocm_controller.ComponentVersion.Services.{Services, ComponentReference, DescriptorObject}
use ocm_controller.ComponentVersion.Expand.{
  parse_references, construct_for_reference, create_component_descriptor, own_if_new, spec_or,
  reference_to,
}

-- one more for each reference than what lies below it
abbrev pub total : (ComponentReference → ℕ) → List ComponentReference → ℕ
total weight [] = 0
total weight (ref ∷ refs) = suc (weight ref + total weight refs)

module _ (r : Runtime) (s : Services r) where
  open s use {
    Cluster, Octx, Access, Spec, get_component_version, references, create_or_update,
    set_owner_reference, convert, hash, converted_spec,
  }

  -- No call into a library or a service is a recursion of the model.
  pub record CallsEnd : Type 0 where
    pub get_ends :
        (k : Cluster) (o : Option Octx) (cv : ComponentVersion) (n v : String)
        → get_component_version k o cv n v ≢ out_of_fuel
    pub convert_ends : (a : Access) → convert a ≢ out_of_fuel
    pub hash_ends : (n : NamingScheme) → hash n ≢ out_of_fuel
    pub owner_ends :
        (cv : ComponentVersion) (d : DescriptorObject Spec) → set_owner_reference cv d ≢ out_of_fuel
    pub write_ends :
        (d : DescriptorObject Spec) (f : DescriptorObject Spec → Result (DescriptorObject Spec))
        (k : Cluster)
        → ((x : DescriptorObject Spec) → f x ≢ out_of_fuel)
        → (create_or_update d f k).0 ≢ out_of_fuel

  -- References are well founded: what a component refers to weighs less than a reference to it.
  abbrev pub IsAcyclic : (ComponentReference → ℕ) → Type 0
  IsAcyclic weight =
      (k : Cluster) (o : Option Octx) (cv : ComponentVersion) (ref : ComponentReference)
      (a : Access)
      → get_component_version k o cv ref.component_name ref.version ≡ ok a
      → total weight (references a) < weight ref

  module _ (ends : CallsEnd) where
    owner_step_ends :
        (cv : ComponentVersion) (d : DescriptorObject Spec) → own_if_new r s cv d ≢ out_of_fuel
    owner_step_ends cv d = ground (
      arith,
      context_ends "failed to set owner reference" (set_owner_reference cv d)
          (ends.owner_ends cv d),
    )

    name_ends :
        (n v : String) (i : List (String × String)) → construct_unique_name hash n v i ≢ out_of_fuel
    unfolding construct_unique_name
    name_ends n v i =
        ground (arith, ends.hash_ends (record { component_name = n; version = v; identity = i }))

    spec_ends : (msg : String) (o : Option Spec) → spec_or r s msg o ≢ out_of_fuel
    spec_ends msg none = λ x. cc
    spec_ends msg (some spec) = λ x. cc

    create_ends :
        (a : Access) (cv : ComponentVersion) (ref : ComponentReference) (k : Cluster)
        → (create_component_descriptor r s a cv ref k).0 ≢ out_of_fuel
    unfolding create_component_descriptor
    create_ends a cv ref k = bind_ends _ _ k (context_ends _ _ (ends.convert_ends a)) λ cd _.
        bind_ends _ _ k (context_ends _ _ (name_ends _ _ _)) λ name _.
          bind_ends (spec_or r s "object was not a component descriptor" (converted_spec cd)) _ k
            (spec_ends "object was not a component descriptor" (converted_spec cd))
            λ spec _. context_ends "failed to create/update component descriptor" _ (
              ends.write_ends
                (record {
                  key = record { namespace = cv.key.namespace; name = name };
                  created = false;
                  owners = [];
                  spec = spec;
                  version = ref.version;
                })
                _ k (owner_step_ends cv))

    module _ (weight : ComponentReference → ℕ) (acyclic : IsAcyclic weight) where
      mutual
        unfolding parse_references

        references_end :
            (fuel : ℕ) (o : Option Octx) (cv : ComponentVersion) (refs : List ComponentReference)
            (k : Cluster)
            → total weight refs < fuel
            → (parse_references r s fuel o cv refs k).0 ≢ out_of_fuel
        references_end zero o cv refs k h = absurd (omega arith)
        references_end (suc fuel) o cv [] k h = λ x. cc
        references_end (suc fuel) o cv (ref ∷ refs) k h =
            bind_ends _ _ _ (context_ends _ _ (reference_ends fuel o cv ref k (omega arith)))
              λ one _.
                bind_ends _ _ _ (references_end fuel o cv refs _ (omega arith)) λ others _. λ x. cc

        reference_ends :
            (fuel : ℕ) (o : Option Octx) (cv : ComponentVersion) (ref : ComponentReference)
            (k : Cluster)
            → weight ref < fuel
            → (construct_for_reference r s fuel o cv ref k).0 ≢ out_of_fuel
        reference_ends zero o cv ref k h = absurd (omega arith)
        reference_ends (suc fuel) o cv ref k h =
            bind_ends _ _ k (context_ends _ _ (ends.get_ends k o cv _ _)) λ a got.
              let lighter = acyclic k o cv ref a (context-ok _ _ got) in
              bind_ends
                (context "failed to create component descriptor"
                  (create_component_descriptor r s a cv ref k).0)
                (λ d. parse_references r s fuel none cv (references a) >>= λ below.
                  pure (reference_to r s ref d below))
                _ (context_ends _ _ (create_ends a cv ref k))
                λ d _.
                  bind_ends _ _ _ (references_end fuel none cv (references a) _ (omega arith))
                    λ below _ x. cc

      -- With more fuel than the references weigh, the expansion of acyclic references ends by itself:
      -- with a tree, an error, or a panic.
      pub parse_references_ends :
          (fuel : ℕ) (o : Option Octx) (cv : ComponentVersion) (refs : List ComponentReference)
          (k : Cluster)
          → total weight refs < fuel
          → (parse_references r s fuel o cv refs k).0 ≢ out_of_fuel
      parse_references_ends = references_end
