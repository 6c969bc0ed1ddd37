-- ===== src/Localization/Written.antt =====
-- What a reconciliation of a localization writes, its last patch included.
use ocm_controller.Prelude.{◌≡◌, refl, ◌∙◌, ◌⊎◌, inl, inr, Bool, true, false, none, if◌then◌else◌}
use ocm_controller.Status.Runtime.{Runtime}
use ocm_controller.Status.World.{Exit, return, no_requeue}
use ocm_controller.Status.Deferred.{IsPatched, handed, cluster-handed, deferred-IsPatched}
use ocm_controller.Mutation.Types.{get_vid}
use ocm_controller.Localization.Types.{LocalizationServices}
use ocm_controller.Localization.Controller.{Here, reconcile_localization, reconcile_object}
use ocm_controller.Localization.Prepared.{IsPrepared, reconcile_localization-IsPrepared}

module _ (r : Runtime) (s : LocalizationServices r) where
  -- The last write is the patch of the object, and any write before it had all sources ready.
  abbrev pub Patched : Here r s → Here r s → Type 0
  Patched w w' =
      (written : Here r s) × IsPatched r s.patch written w'
      × ((written.cluster ≡ w.cluster) ⊎ IsPrepared r s w)

  by_suspend :
      (b : Bool) (w : Here r s) (rest : Exit (Unit {0}) × Here r s)
      → Patched w rest.1
      → ((b ≡ true) × ((if b then (return no_requeue none, w) else rest).1 ≡ w))
        ⊎ Patched w (if b then (return no_requeue none, w) else rest).1
  by_suspend true w rest p = inl (refl, refl)
  by_suspend false w rest p = inr p

  -- A reconciliation of a localization changes nothing if it is suspended. Otherwise it ends with the
  -- patch of the object, and before this patch it has changed the cluster only if it started with its
  -- source, its configuration and its patch source, as far as the spec has them, ready, and with a
  -- name for its snapshot.
  pub localization_object-IsPrepared :
      (w : Here r s)
      → ((w.obj.suspend ≡ true) × ((reconcile_object r s w).1 ≡ w))
        ⊎ Patched w (reconcile_object r s w).1
  unfolding reconcile_object
  localization_object-IsPrepared w =
      let vid = λ (v : Here r s). get_vid v.obj in
      let left = (reconcile_localization r s w).1 in
      by_suspend w.obj.suspend w _ (
        handed r vid s.patch left,
        deferred-IsPatched r vid s.patch (reconcile_localization r s) w,
        elim (reconcile_localization-IsPrepared r s w) [
          | inl same ↦ inl (cluster-handed r vid s.patch left ∙ same)
          | inr prepared ↦ inr prepared
        ],
      )
