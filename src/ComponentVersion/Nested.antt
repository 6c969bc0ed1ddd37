-- ===== src/ComponentVersion/Nested.antt =====
-- What the expansion of references builds, and what becomes of references below references.
use ocm_controller.Prelude.{
  ℕ, zero, suc, String, ◌≡◌, ap, ◌∙◌, none, Option, List, [], ◌∷◌, map, arith,
}
use ocm_controller.Prelude.Outcome.{ok, panic, context, bind-ok, context-ok}
use ocm_controller.Status.Runtime.{Runtime}
use ocm_controller.Component.Names.{Identity}
use ocm_controller.Component.References.{Reference, References, reference, no_more, also}
use ocm_controller.ComponentVersion.Types.{ComponentVersion}
use ocm_controller.ComponentVersion.Services.{Services, ComponentReference, DescriptorObject}
use ocm_controller.ComponentVersion.Expand.{
  parse_references, construct_for_reference, create_component_descriptor,
}

-- the name and version of each reference, and its extra identity
abbrev pub listed : References → List (String × String × Identity)
listed no_more = []
listed (also (reference n v below extra key) rs) = (n, v, extra) ∷ listed rs

abbrev pub asked : ComponentReference → String × String × Identity
asked ref = (ref.name, ref.version, ref.extra_identity)

module _ (r : Runtime) (s : Services r) where
  open s use {Cluster, Octx, Access, Spec, get_component_version, references}

  construct-asked :
      (fuel : ℕ) (octx : Option Octx) (cv : ComponentVersion) (ref : ComponentReference)
      (k : Cluster) (x : Reference) (rs : References)
      → (construct_for_reference r s fuel octx cv ref k).0 ≡ ok x
      → listed (also x rs) ≡ asked ref ∷ listed rs
  unfolding construct_for_reference
  construct-asked zero octx cv ref k x rs h = cc
  construct-asked (suc fuel) octx cv ref k x rs h = ground arith

  -- The references that are built are those that the descriptor lists, in its order.
  pub parse_references-asked :
      (fuel : ℕ) (octx : Option Octx) (cv : ComponentVersion) (refs : List ComponentReference)
      (k : Cluster) (built : References)
      → (parse_references r s fuel octx cv refs k).0 ≡ ok built
      → listed built ≡ map asked refs
  unfolding parse_references
  parse_references-asked zero octx cv refs k built h = cc
  parse_references-asked (suc fuel) octx cv [] k built h = ground arith
  parse_references-asked (suc fuel) octx cv (ref ∷ refs) k built h =
      let (c, k₁) = construct_for_reference r s fuel octx cv ref k in
      let (one, h₁, h₂) = bind-ok (context "failed to construct component descriptor" c) _ k₁ h in
      let (others, h₃, h₄) = bind-ok (parse_references r s fuel octx cv refs k₁).0 _ _ h₂ in
      let ih = parse_references-asked fuel octx cv refs k₁ others h₃ in
      let e : also one others ≡ built = ground arith in
      rw (← e) (
        construct-asked fuel octx cv ref k one others (context-ok _ c h₁)
        ∙ ap (λ l. asked ref ∷ l) ih)

  -- A client that cannot work without a context panics on the first reference of a reference, once
  -- its own descriptor is written.
  pub nested_panics :
      (fuel : ℕ) (octx : Option Octx) (cv : ComponentVersion) (ref sub : ComponentReference)
      (subs : List ComponentReference) (k k' : Cluster) (a : Access) (d : DescriptorObject Spec)
      → ((c : Cluster) (x : ComponentVersion) (n v : String)
          → get_component_version c none x n v ≡ panic)
      → get_component_version k octx cv ref.component_name ref.version ≡ ok a
      → create_component_descriptor r s a cv ref k ≡ (ok d, k')
      → references a ≡ sub ∷ subs
      → construct_for_reference r s (suc (suc (suc fuel))) octx cv ref k ≡ (panic, k')
  unfolding construct_for_reference
  nested_panics fuel octx cv ref sub subs k k' a d needs got wrote has =
      ground (arith, needs k' cv sub.component_name sub.version)
