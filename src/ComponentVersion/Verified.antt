-- ===== src/ComponentVersion/Verified.antt =====
-- A version is applied only after it was found newer and its signatures were verified.
use ocm_controller.Prelude.{
  refl, if_either, ℕ, String, ◌≡◌, ◌⊎◌, true, false, Bool, arith, ap, ◌∙◌, sym, inl, inr,
}
use ocm_controller.Prelude.Outcome.{Result, ok, err, panic, out_of_fuel, lift-bind-ok}
use mathlib.Core.Path.{subst}
use ocm_controller.Status.Runtime.{Runtime}
use ocm_controller.Status.Finish.{fail_with, fail, stall, succeed}
use ocm_controller.Status.World.{World}
use ocm_controller.Status.Mark.{mark_not_ready, mark_as_stalled, mark_ready, progress, new_event}
use ocm_controller.ComponentVersion.Types.{ComponentVersion}
use ocm_controller.ComponentVersion.Services.{Services}
use ocm_controller.ComponentVersion.Version.{check_version, up_to_date, reconciled_or_zero}
use ocm_controller.ComponentVersion.Controller.{
  expand_references, Step, reconcile, update_component, Here, after_check, checked_version,
  reconcile_object,
}
use ocm_controller.Status.World.{
  next, Exit, return, panics, unfinished, go_on, world-ending, or_else, ◌>>=◌,
}
use ocm_controller.Status.Effects.{keeps-update_status}

module _ (r : Runtime) (s : Services r) where
  open s use {
    Cluster, Octx, Semver, create_authenticated_ocm_context, get_latest_valid_component_version,
    parse_semver, verify_component,
  }

  -- What `check_version` found when it asks for an update.
  pub record IsNewer (octx : Octx) (k : Cluster) (cv : ComponentVersion) (v : String) : Type 0 where
    pub latest : Semver
    pub current : Semver
    pub is_latest : get_latest_valid_component_version k octx cv ≡ ok v
    pub parsed : parse_semver v ≡ ok latest
    pub parsed_current : parse_semver (reconciled_or_zero r s cv) ≡ ok current
    pub newer : up_to_date r s latest current ≡ false

  pub check_version-IsNewer :
      (octx : Octx) (w : World r.Conditions Cluster ComponentVersion) (v : String)
      → (check_version r s octx w).0 ≡ ok (true, v)
      → IsNewer octx w.cluster w.obj v
  unfolding check_version
  check_version-IsNewer octx w v h =
      let (l, is_latest, h₁) =
        lift-bind-ok _ (get_latest_valid_component_version w.cluster octx w.obj) _ w h in
      let (a, parsed, h₂) = lift-bind-ok _ (parse_semver l) _ w h₁ in
      let (b, parsed_current, h₃) =
        lift-bind-ok _ (parse_semver (reconciled_or_zero r s w.obj)) _ w h₂ in
      let e : l ≡ v = ground arith in
      record {
        latest = a;
        current = b;
        is_latest = is_latest ∙ ap ok e;
        parsed = ap parse_semver (sym e) ∙ parsed;
        parsed_current = parsed_current;
        newer = ground arith;
      }

  pub obj-check_version :
      (octx : Octx) (w : World r.Conditions Cluster ComponentVersion)
      → ((check_version r s octx w).1.obj ≡ w.obj)
        × ((check_version r s octx w).1.cluster ≡ w.cluster)
  unfolding check_version new_event
  obj-check_version octx w = ground arith

module _ (r : Runtime) (s : Services r) (fuel : ℕ) where
  open s use {Cluster, Octx, create_authenticated_ocm_context, verify_component}

  pub version-reconcile :
      (octx : Octx) (v : String) (w : Here r s fuel)
      → ((reconcile r s fuel octx v w).1.obj ≡ w.obj)
        ⊎ ((reconcile r s fuel octx v w).1.obj.reconciled_version ≡ v)
  unfolding reconcile expand_references fail fail_with succeed mark_not_ready mark_ready progress
      new_event
  version-reconcile octx v w = ground arith

  -- Everything that stood before a new version is recorded.
  pub record IsChecked (k : Cluster) (cv : ComponentVersion) (v : String) : Type 0 where
    pub octx : Octx
    pub authenticated : create_authenticated_ocm_context k cv ≡ ok octx
    pub newer : IsNewer r s octx k cv v
    pub verified : verify_component k octx cv v ≡ ok true

  after_check-cases :
      (octx : Octx) (found : Bool × String) (w : Here r s fuel)
      → ((after_check r s fuel octx found w).1.obj ≡ w.obj)
        ⊎ ((found.0 ≡ true)
            × (verify_component w.cluster octx w.obj found.1 ≡ ok true)
            × ((after_check r s fuel octx found w).1.obj.reconciled_version ≡ found.1))
  unfolding after_check fail_with succeed progress mark_not_ready mark_ready new_event
  after_check-cases octx (update, v) w = ground (arith, version-reconcile octx v (progress r w))

  keeps-checked_version :
      (octx : Octx) (w : Here r s fuel)
      → ((checked_version r s fuel octx w).1.obj ≡ w.obj)
        × ((checked_version r s fuel octx w).1.cluster ≡ w.cluster)
  unfolding checked_version fail_with mark_not_ready new_event
  keeps-checked_version octx w = ground (arith, obj-check_version r s octx w)

  next-checked_version :
      (octx : Octx) (w : Here r s fuel) (found : Bool × String)
      → (checked_version r s fuel octx w).0 ≡ next found
      → (check_version r s octx w).0 ≡ ok found
  unfolding checked_version fail_with
  next-checked_version octx w found h = ground arith

  -- the object that a reconciliation of `w` leaves
  abbrev Kept : Here r s fuel → ComponentVersion → Type 0
  Kept w cv = (cv ≡ w.obj) ⊎ IsChecked w.cluster w.obj cv.reconciled_version

  after_checked_version :
      (octx : Octx) (w : Here r s fuel) (e : Exit (Bool × String))
      → create_authenticated_ocm_context w.cluster w.obj ≡ ok octx
      → (checked_version r s fuel octx w).0 ≡ e
      → Kept w (go_on e (after_check r s fuel octx) (checked_version r s fuel octx w).1).1.obj
  after_checked_version octx w (return q x) h k = inl (keeps-checked_version octx w).0
  after_checked_version octx w panics h k = inl (keeps-checked_version octx w).0
  after_checked_version octx w unfinished h k = inl (keeps-checked_version octx w).0
  after_checked_version octx w (next (update, v)) h k =
      let (same_obj, same_cluster) = keeps-checked_version octx w in
      let found = next-checked_version octx w (update, v) k in
      elim (after_check-cases octx (update, v) (checked_version r s fuel octx w).1) [
        | inl e ↦ inl (e ∙ same_obj)
        | inr (updates, verified, applied) ↦ inr (
            subst (IsChecked w.cluster w.obj) (sym applied) (record {
              octx = octx;
              authenticated = h;
              newer =
                  check_version-IsNewer r s octx w v (found ∙ ap (λ (b : Bool). ok (b, v)) updates);
              verified = cc;
            }))
      ]

  -- Reconcile from the result of CreateAuthenticatedOCMContext on.
  abbrev from_context : Result Octx → Step r s fuel (Unit {0})
  from_context res = do
    octx ← λ w. or_else res (λ e. stall r "AuthenticatedContextCreationFailed") w
    found ← checked_version r s fuel octx
    after_check r s fuel octx found

  from_context-Kept :
      (w : Here r s fuel) (res : Result Octx)
      → create_authenticated_ocm_context w.cluster w.obj ≡ res
      → Kept w (from_context res w).1.obj
  unfolding stall mark_as_stalled new_event
  from_context-Kept w (ok octx) h =
      after_checked_version octx w (checked_version r s fuel octx w).0 h refl
  from_context-Kept w (err e) h = inl refl
  from_context-Kept w panic h = inl refl
  from_context-Kept w out_of_fuel h = inl refl

  update_component-Kept : (w : Here r s fuel) → Kept w (update_component r s fuel w).1.obj
  unfolding update_component progress
  update_component-Kept w = from_context-Kept (progress r w) _ refl

  -- A reconciliation either leaves spec and status of the component version as they were, or it
  -- ends at a version that GetLatestValidComponentVersion gave, that is newer than the reconciled
  -- one, and whose signatures VerifyComponent accepted, all for the object as it was at the start.
  pub reconcile_object-IsChecked :
      (w : Here r s fuel)
      → ((reconcile_object r s fuel w).1.obj ≡ w.obj)
        ⊎ IsChecked w.cluster w.obj (reconcile_object r s fuel w).1.obj.reconciled_version
  unfolding reconcile_object
  reconcile_object-IsChecked w =
      let same_object = (keeps-update_status r _ s.patch (update_component r s fuel w).1).0 in
      let last = world-ending (update_component r s fuel w).0 _ in
      if_either (λ (u : Exit (Unit {0}) × Here r s fuel). Kept w u.1.obj) w.obj.spec.suspend
        (inl refl)
        (subst (Kept w) (sym (ap (λ (v : Here r s fuel). v.obj) last ∙ same_object))
          (update_component-Kept w))
