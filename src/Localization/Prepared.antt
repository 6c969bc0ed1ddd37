-- ===== src/Localization/Prepared.antt =====
-- The data of a localization is mutated only when all its sources are ready.
use ocm_controller.Prelude.{
  ◌≡◌, ◌≢◌, refl, sym, ◌∙◌, ap, ◌⊎◌, inl, inr, true, Option, none, some, arith, eq_iff,
}
use ocm_controller.Prelude.Outcome.{ok}
use ocm_controller.Status.Runtime.{Runtime}
use ocm_controller.Status.World.{Exit, next, return, panics, unfinished, go_on, read, ◌>>=◌, ◌>>◌}
use ocm_controller.Status.Mark.{mark_not_ready, new_event, progress}
use ocm_controller.Status.Finish.{fail, fail_with, requeue}
use ocm_controller.Component.Names.{NamespacedName}
use ocm_controller.Mutation.Types.{DataReference, PatchStrategicMerge}
use ocm_controller.Localization.Types.{LocalizationServices}
use ocm_controller.Localization.Readiness.{complete, check_readiness, check_flux_source_readiness}
use ocm_controller.Localization.Controller.{
  Here, Step, check_source, check_config_ref, check_patch_source, name_or_reconcile,
  reconcile_localization,
}

module _ (r : Runtime) (s : LocalizationServices r) where
  -- Every source of the object is ready, and a name for its snapshot is there.
  pub record IsPrepared (w : Here r s) : Type 0 where
    pub source_ready :
        check_readiness r s w.cluster (complete w.obj.key.namespace w.obj.source_ref.ref) ≡ ok true
    pub config_ready :
        (c : DataReference)
        → w.obj.config_ref ≡ some c
        → check_readiness r s w.cluster (complete w.obj.key.namespace c.ref) ≡ ok true
    pub patch_ready :
        (ref : PatchStrategicMerge)
        → w.obj.patch ≡ some ref
        → check_flux_source_readiness r s w.cluster ref.source_ref ≡ ok true
    pub is_named : w.obj.snapshot_name ≢ ""

  -- What the checks leave alone, all that the later ones read, and what they find.
  same-check_source :
      (w : Here r s)
      → ((check_source r s w).1.cluster ≡ w.cluster)
        × ((check_source r s w).1.obj.key ≡ w.obj.key)
        × ((check_source r s w).1.obj.config_ref ≡ w.obj.config_ref)
        × ((check_source r s w).1.obj.patch ≡ w.obj.patch)
        × ((check_source r s w).1.obj.snapshot_name ≡ w.obj.snapshot_name)
  unfolding check_source fail_with mark_not_ready new_event
  same-check_source w = ground arith

  next-check_source :
      (w : Here r s)
      → (check_source r s w).0 ≡ next tt
      → check_readiness r s w.cluster (complete w.obj.key.namespace w.obj.source_ref.ref) ≡ ok true
  unfolding check_source fail_with mark_not_ready new_event
  next-check_source w h = ground arith

  same-check_config_ref :
      (c : Option DataReference) (w : Here r s)
      → ((check_config_ref r s c w).1.cluster ≡ w.cluster)
        × ((check_config_ref r s c w).1.obj.patch ≡ w.obj.patch)
        × ((check_config_ref r s c w).1.obj.snapshot_name ≡ w.obj.snapshot_name)
  unfolding fail_with mark_not_ready new_event
  same-check_config_ref none w = (refl, refl, refl)
  same-check_config_ref (some c) w = ground arith

  next-check_config_ref :
      (c : DataReference) (w : Here r s)
      → (check_config_ref r s (some c) w).0 ≡ next tt
      → check_readiness r s w.cluster (complete w.obj.key.namespace c.ref) ≡ ok true
  unfolding fail_with mark_not_ready new_event
  next-check_config_ref c w h = ground arith

  same-check_patch_source :
      (ref : Option PatchStrategicMerge) (w : Here r s)
      → ((check_patch_source r s ref w).1.cluster ≡ w.cluster)
        × ((check_patch_source r s ref w).1.obj.snapshot_name ≡ w.obj.snapshot_name)
  unfolding fail_with mark_not_ready new_event
  same-check_patch_source none w = (refl, refl)
  same-check_patch_source (some ref) w = ground arith

  next-check_patch_source :
      (ref : PatchStrategicMerge) (w : Here r s)
      → (check_patch_source r s (some ref) w).0 ≡ next tt
      → check_flux_source_readiness r s w.cluster ref.source_ref ≡ ok true
  unfolding fail_with mark_not_ready new_event
  next-check_patch_source ref w h = ground arith

  named-name_or_reconcile :
      (w : Here r s)
      → ((name_or_reconcile r s w).1.cluster ≡ w.cluster) ⊎ (w.obj.snapshot_name ≢ "")
  unfolding name_or_reconcile fail fail_with requeue mark_not_ready new_event
  named-name_or_reconcile w = ground (arith, eq_iff w.obj.snapshot_name "")

  -- how a block ends, and the world that the rest leaves
  go_on-cases :
      (x : Exit (Unit {0})) (f : Unit {0} → Step r s (Unit {0})) (w : Here r s)
      → ((x ≡ next tt) × ((go_on x f w).1 ≡ (f tt w).1)) ⊎ ((go_on x f w).1 ≡ w)
  go_on-cases (next a) f w = inl (refl, refl)
  go_on-cases (return q e) f w = inr refl
  go_on-cases panics f w = inr refl
  go_on-cases unfinished f w = inr refl

  -- Reconcile from the check of the patch source on, and from that of the configuration on.
  abbrev from_patch : Step r s (Unit {0})
  from_patch = do
    source ← read λ w. w.obj.patch
    check_patch_source r s source
    name_or_reconcile r s

  abbrev from_config : Step r s (Unit {0})
  from_config = do config ← read λ w. w.obj.config_ref; check_config_ref r s config; from_patch

  -- what a world has to offer to the blocks from the patch source on
  abbrev PatchReady : Here r s → Type 0
  PatchReady w =
      ((ref : PatchStrategicMerge)
        → w.obj.patch ≡ some ref
        → check_flux_source_readiness r s w.cluster ref.source_ref ≡ ok true)
      × (w.obj.snapshot_name ≢ "")

  patch_ready_lem :
      (o : Option PatchStrategicMerge) (w : Here r s)
      → (check_patch_source r s o w).0 ≡ next tt
      → (ref : PatchStrategicMerge) → o ≡ some ref
      → check_flux_source_readiness r s w.cluster ref.source_ref ≡ ok true
  patch_ready_lem none w h ref e = cc
  patch_ready_lem (some o) w h ref e =
      next-check_patch_source ref w (ap (λ x. (check_patch_source r s x w).0) (sym e) ∙ h)

  config_ready_lem :
      (o : Option DataReference) (w : Here r s)
      → (check_config_ref r s o w).0 ≡ next tt
      → (c : DataReference) → o ≡ some c
      → check_readiness r s w.cluster (complete w.obj.key.namespace c.ref) ≡ ok true
  config_ready_lem none w h c e = cc
  config_ready_lem (some o) w h c e =
      next-check_config_ref c w (ap (λ x. (check_config_ref r s x w).0) (sym e) ∙ h)

  from_patch-PatchReady : (w : Here r s) → ((from_patch w).1.cluster ≡ w.cluster) ⊎ PatchReady w
  from_patch-PatchReady w =
      let o = w.obj.patch in
      let (x, w') = check_patch_source r s o w in
      let (cluster, name) = same-check_patch_source o w in
      elim (go_on-cases x (λ u. name_or_reconcile r s) w') [
        | inr stopped ↦ inl (ap (λ (v : Here r s). v.cluster) stopped ∙ cluster)
        | inl (passed, rest) ↦ elim (named-name_or_reconcile w') [
          | inl kept ↦ inl (ap (λ (v : Here r s). v.cluster) rest ∙ kept ∙ cluster)
          | inr named ↦ inr (patch_ready_lem o w passed, λ e. named (name ∙ e))
        ]
      ]

  from_config-PatchReady :
      (w : Here r s)
      → ((from_config w).1.cluster ≡ w.cluster)
        ⊎ (PatchReady w
            × ((c : DataReference)
                → w.obj.config_ref ≡ some c
                → check_readiness r s w.cluster (complete w.obj.key.namespace c.ref) ≡ ok true))
  from_config-PatchReady w =
      let o = w.obj.config_ref in
      let (x, w') = check_config_ref r s o w in
      let (cluster, source, name) = same-check_config_ref o w in
      elim (go_on-cases x (λ u. from_patch) w') [
        | inr stopped ↦ inl (ap (λ (v : Here r s). v.cluster) stopped ∙ cluster)
        | inl (passed, rest) ↦ elim (from_patch-PatchReady w') [
          | inl kept ↦ inl (ap (λ (v : Here r s). v.cluster) rest ∙ kept ∙ cluster)
          | inr (patch_ready, named) ↦ inr (
            (
              λ ref e.
                  ap (λ (k : s.Cluster). check_flux_source_readiness r s k ref.source_ref)
                    (sym cluster)
                  ∙ patch_ready ref (source ∙ e),
              λ e. named (name ∙ e),
            ),
            config_ready_lem o w passed,
          )
        ]
      ]

  -- up to the deferred update
  pub reconcile_localization-IsPrepared :
      (w : Here r s) → ((reconcile_localization r s w).1.cluster ≡ w.cluster) ⊎ IsPrepared w
  unfolding reconcile_localization progress
  reconcile_localization-IsPrepared w =
      let w₀ = progress r w in
      let (x, w') = check_source r s w₀ in
      let (cluster, key, config, source, name) = same-check_source w₀ in
      elim (go_on-cases x (λ u. from_config) w') [
        | inr stopped ↦ inl (ap (λ (v : Here r s). v.cluster) stopped ∙ cluster)
        | inl (passed, rest) ↦ elim (from_config-PatchReady w') [
          | inl kept ↦ inl (ap (λ (v : Here r s). v.cluster) rest ∙ kept ∙ cluster)
          | inr ((patch_ready, named), config_ready) ↦ inr (record {
            source_ready = next-check_source w₀ passed;
            config_ready = λ c e.
                ap (λ (k : s.Cluster). check_readiness r s k (complete w.obj.key.namespace c.ref))
                  (sym cluster)
                ∙ ap
                    (λ (n : NamespacedName).
                      check_readiness r s w'.cluster (complete n.namespace c.ref))
                    (sym key)
                ∙ config_ready c (config ∙ e);
            patch_ready = λ ref e.
                ap (λ (k : s.Cluster). check_flux_source_readiness r s k ref.source_ref)
                  (sym cluster)
                ∙ patch_ready ref (source ∙ e);
            is_named = λ e. named (name ∙ e);
          })
        ]
      ]
