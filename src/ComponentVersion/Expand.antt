-- ===== src/ComponentVersion/Expand.antt =====
-- parseReferences, constructComponentDescriptorsForReference and createComponentDescriptor of
-- controllers/componentversion_controller.go: the tree of references below a component, with a
-- ComponentDescriptor object for each. The recursion follows what the remote repository says, so it
-- takes fuel.
use ocm_controller.Prelude.{
  ℕ, zero, suc, String, false, Option, none, some, List, [], ◌∷◌, if◌then◌else◌,
}
use ocm_controller.Prelude.Outcome.{
  ◌>>=◌, Result, ok, err, out_of_fuel, plain, Op, pure, lift, context, in_context,
}
use ocm_controller.Status.Runtime.{Runtime}
use ocm_controller.Component.Names.{construct_unique_name}
use ocm_controller.Component.References.{Reference, References, reference, no_more, also}
use ocm_controller.ComponentVersion.Types.{ComponentVersion}
use ocm_controller.ComponentVersion.Services.{Services, ComponentReference, DescriptorObject}

module _ (r : Runtime) (s : Services r) where
  open s use {
    Cluster, Octx, Access, Spec, create_or_update, set_owner_reference, get_component_version,
    references, convert, converted_spec, hash,
  }

  -- `componentDescriptor, ok := cd.(*compdesc.ComponentDescriptor)`
  abbrev pub spec_or : String → Option Spec → Result Spec
  spec_or msg (some spec) = ok spec
  spec_or msg none = err (plain msg)

  -- the function handed to CreateOrUpdate: an object that is not there yet gets its owner
  abbrev pub own_if_new : ComponentVersion → DescriptorObject Spec → Result (DescriptorObject Spec)
  own_if_new parent d =
      if d.created
      then ok d
      else context "failed to set owner reference" (set_owner_reference parent d)

  unfoldable pub create_component_descriptor :
      Access → ComponentVersion → ComponentReference → Op Cluster (DescriptorObject Spec)
  create_component_descriptor rcv parent ref = do
    cd ← lift (context "failed to convert component descriptor" (convert rcv))
    name ← lift (
        context "failed to generate name"
          (construct_unique_name hash ref.component_name ref.version ref.extra_identity))
    spec ← lift (spec_or "object was not a component descriptor" (converted_spec cd))
    in_context "failed to create/update component descriptor" (
        create_or_update
          (record {
            key = record { namespace = parent.key.namespace; name = name };
            created = false;
            owners = [];
            spec = spec;
            version = ref.version;
          })
          (own_if_new parent))

  abbrev pub reference_to : ComponentReference → DescriptorObject Spec → References → Reference
  reference_to ref d below = reference ref.name ref.version below ref.extra_identity d.key

  -- The nested call passes nil for the context.
  unfoldable mutual
    pub parse_references :
        ℕ → Option Octx → ComponentVersion → List ComponentReference → Op Cluster References
    parse_references zero octx parent refs = λ k. (out_of_fuel, k)
    parse_references (suc fuel) octx parent [] = pure no_more
    parse_references (suc fuel) octx parent (ref ∷ refs) = do
      one ←
          in_context "failed to construct component descriptor"
            (construct_for_reference fuel octx parent ref)
      others ← parse_references fuel octx parent refs
      pure (also one others)

    pub construct_for_reference :
        ℕ → Option Octx → ComponentVersion → ComponentReference → Op Cluster Reference
    construct_for_reference zero octx parent ref = λ k. (out_of_fuel, k)
    construct_for_reference (suc fuel) octx parent ref = do
      rcv ← λ k. (
        context "failed to get component version"
            (get_component_version k octx parent ref.component_name ref.version),
        k,
      )
      descriptor ←
          in_context "failed to create component descriptor"
            (create_component_descriptor rcv parent ref)
      below ← parse_references fuel none parent (references rcv)
      pure (reference_to ref descriptor below)
