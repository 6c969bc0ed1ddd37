-- ===== src/ComponentVersion/Client.antt =====
-- The ComponentVersion controller with the client of pkg/ocm, as main.go puts them together: the four
-- calls of the Contract are the client's, and the rest of the services are parameters.
use ocm_controller.Prelude.{ℕ, suc, String, ◌≡◌, refl, ◌⊎◌, inl, inr, Bool, Option, List, ◌∷◌}
use ocm_controller.Prelude.Outcome.{Error, Result, ok, panic}
use ocm_controller.Status.Runtime.{Runtime}
use ocm_controller.Status.World.{World}
use ocm_controller.Component.Names.{NamespacedName, NamingScheme}
use ocm_controller.ComponentVersion.Types.{ComponentVersion}
use ocm_controller.ComponentVersion.Services.{
  Services, ComponentReference, DescriptorObject, Stored,
}
use ocm_controller.ComponentVersion.Expand.{construct_for_reference, create_component_descriptor}
use ocm_controller.ComponentVersion.Nested.{nested_panics}
use ocm_controller.ComponentVersion.Controller.{Here, reconcile_object}
use ocm_controller.ComponentVersion.Verified.{reconcile_object-IsChecked}
use ocm_controller.Ocm.Library.{Library}
use ocm_controller.Ocm.Credentials.{create_authenticated_ocm_context}
use ocm_controller.Ocm.Versions.{
  Version, get_latest_valid_component_version, get_component_version, list_component_versions,
}
use ocm_controller.Ocm.Latest.{IsOrder, IsGreatest, get_latest-IsGreatest}
use ocm_controller.Ocm.Verify.{verify_component}
use ocm_controller.Ocm.Verified.{IsVerified, verify_component-IsVerified}

-- What the controller calls besides the client.
pub record Rest (r : Runtime) (l : Library) : Type 1 where
  pub Spec : Type 0
  pub Converted : Type 0
  pub Semver : Type 0
  pub get_object : l.Cluster → NamespacedName → Result (Stored r.Conditions ComponentVersion)
  pub patch : World r.Conditions l.Cluster ComponentVersion → Option Error × l.Cluster
  pub create_or_update :
      DescriptorObject Spec
      → (DescriptorObject Spec → Result (DescriptorObject Spec))
      → l.Cluster
      → Result (DescriptorObject Spec) × l.Cluster
  pub set_owner_reference :
      ComponentVersion → DescriptorObject Spec → Result (DescriptorObject Spec)
  pub empty_spec : Spec
  pub references : l.Access → List ComponentReference
  pub convert : l.Access → Result Converted
  pub converted_name : Converted → String
  pub converted_version : Converted → String
  pub converted_spec : Converted → Option Spec
  pub hash : NamingScheme → Result ℕ
  pub parse_semver : String → Result Semver
  pub semver_equal : Semver → Semver → Bool
  pub semver_greater : Semver → Semver → Bool

abbrev pub client_services : (r : Runtime) (l : Library) → Rest r l → Services r
client_services r l rest = record {
  Cluster = l.Cluster;
  Octx = l.Octx;
  Access = l.Access;
  Spec = rest.Spec;
  Converted = rest.Converted;
  Semver = rest.Semver;
  get_object = rest.get_object;
  patch = rest.patch;
  create_or_update = rest.create_or_update;
  set_owner_reference = rest.set_owner_reference;
  empty_spec = rest.empty_spec;
  create_authenticated_ocm_context = create_authenticated_ocm_context l;
  get_latest_valid_component_version = get_latest_valid_component_version l;
  verify_component = verify_component l;
  get_component_version = get_component_version l;
  references = rest.references;
  convert = rest.convert;
  converted_name = rest.converted_name;
  converted_version = rest.converted_version;
  converted_spec = rest.converted_spec;
  hash = rest.hash;
  parse_semver = rest.parse_semver;
  semver_equal = rest.semver_equal;
  semver_greater = rest.semver_greater;
}

module _ (r : Runtime) (l : Library) (rest : Rest r l) where
  -- What stands behind a version that is recorded.
  pub record IsTrusted (k : l.Cluster) (cv : ComponentVersion) (v : String) : Type 0 where
    pub octx : l.Octx
    pub versions : List (Version l)
    pub constraint : l.Constraint
    pub listed : list_component_versions l k octx cv ≡ ok versions
    pub parsed : l.new_constraint cv.spec.semver ≡ ok constraint
    pub latest : IsGreatest l constraint versions v
    pub verified : IsVerified l k octx cv v

  -- A reconciliation leaves spec and status of the component version as they were, or it records a
  -- version that is a greatest one of those that the repository lists and the constraint allows,
  -- and all of whose demanded signatures check against the digests in its descriptor.
  pub reconcile_object-IsTrusted :
      (order : IsOrder l.greater_than) (fuel : ℕ) (w : Here r (client_services r l rest) fuel)
      → ((reconcile_object r (client_services r l rest) fuel w).1.obj ≡ w.obj)
        ⊎ IsTrusted w.cluster w.obj
            (reconcile_object r (client_services r l rest) fuel w).1.obj.reconciled_version
  reconcile_object-IsTrusted order fuel w =
      let s = client_services r l rest in
      elim (reconcile_object-IsChecked r s fuel w) [
        | inl same ↦ inl same
        | inr checked ↦
            let v = (reconcile_object r s fuel w).1.obj.reconciled_version in
            let (vs, c, listed, parsed, latest) =
              get_latest-IsGreatest l order w.cluster checked.octx w.obj v
                checked.newer.is_latest in
            inr (record {
              octx = checked.octx;
              versions = vs;
              constraint = c;
              listed = listed;
              parsed = parsed;
              latest = latest;
              verified =
                  (verify_component-IsVerified l w.cluster checked.octx w.obj v).0.0
                    checked.verified;
            })
      ]

  -- With the program's own client, a reference that has references itself is never expanded: once
  -- its descriptor is written, the nested call panics.
  pub client-nested_panics :
      (fuel : ℕ) (octx : Option l.Octx) (cv : ComponentVersion) (ref sub : ComponentReference)
      (subs : List ComponentReference) (k k' : l.Cluster) (a : l.Access)
      (d : DescriptorObject rest.Spec)
      → get_component_version l k octx cv ref.component_name ref.version ≡ ok a
      → create_component_descriptor r (client_services r l rest) a cv ref k ≡ (ok d, k')
      → rest.references a ≡ sub ∷ subs
      → construct_for_reference r (client_services r l rest) (suc (suc (suc fuel))) octx cv ref k
        ≡ (panic, k')
  unfolding get_component_version
  client-nested_panics fuel octx cv ref sub subs k k' a d =
      nested_panics r (client_services r l rest) fuel octx cv ref sub subs k k' a d λ c x n v. refl
