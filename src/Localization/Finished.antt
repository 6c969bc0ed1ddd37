-- ===== src/Localization/Finished.antt =====
-- A localization that is Ready at the end has been mutated in this reconciliation.
use ocm_controller.Prelude.{
  ◌≡◌, ◌≢◌, refl, sym, ap, ◌∙◌, Bool, true, false, not, Option, none, some, arith, String,
}
use mathlib.Core.Path.{subst}
use ocm_controller.Prelude.Outcome.{Error, Result, ok, err, panic, out_of_fuel}
use ocm_controller.Status.Runtime.{Runtime, RuntimeLaws, reconciling, holds}
use ocm_controller.Status.World.{
  next, return, Requeue, ◌>>=◌, ◌>>◌, modify, read, when, or_else, try_step,
}
use ocm_controller.Status.Mark.{progress, mark_ready, new_event}
use ocm_controller.Status.Effects.{reconciling-progress}
use ocm_controller.Status.Finish.{succeed, fail, fail_with, requeue}
use ocm_controller.Status.Guarded.{
  IsDone, InProgress, Guarded, Guarded-modify, Guarded-read, Guarded-bind, guard_rules,
  fail_with-Guarded, fail-Guarded, requeue-Guarded,
}
use ocm_controller.Mutation.Types.{DataReference, MutationObject, PatchStrategicMerge}
use ocm_controller.Localization.Types.{LocalizationServices}
use ocm_controller.Localization.Controller.{
  Here, Step, complete_source, complete_config, check_source, check_config_ref, check_patch_source,
  interval, mutation_failed, reconcile, set_snapshot_name, name_or_reconcile,
  reconcile_localization,
}

module _ (r : Runtime) (laws : RuntimeLaws r) (s : LocalizationServices r)
    (keeps : (w : Here r s) → (s.reconcile_mutation_object w).1.conditions ≡ w.conditions) where
  -- The object and the cluster are what a mutation left that ended well.
  pub record IsResult (w : Here r s) : Type 0 where
    pub before : Here r s
    pub mutated : (s.reconcile_mutation_object before).0 ≡ ok tt
    pub obj : w.obj ≡ (s.reconcile_mutation_object before).1.obj
    pub cluster : w.cluster ≡ (s.reconcile_mutation_object before).1.cluster

  -- the rules of this controller
  complete_source-Guarded : Guarded r IsResult (modify (complete_source r s))
  complete_source-Guarded = Guarded-modify _ (λ w. refl)

  complete_config-Guarded :
      (config : DataReference) → Guarded r IsResult (modify (complete_config r s config))
  complete_config-Guarded config = Guarded-modify _ (λ w. refl)

  set_snapshot_name-Guarded :
      (name : String) → Guarded r IsResult (modify (set_snapshot_name r s name))
  set_snapshot_name-Guarded name = Guarded-modify _ (λ w. refl)

  unchanged-Guarded : Guarded r IsResult (modify {W = Here r s} (λ w. w))
  unchanged-Guarded = Guarded-modify _ (λ w. refl)

  check_source-Guarded : Guarded r IsResult (check_source r s)
  unfolding check_source
  check_source-Guarded =
      search (guard_rules, complete_source-Guarded, unchanged-Guarded, fail_with-Guarded r laws)
        depth 20

  check_config_ref-Guarded :
      (config : Option DataReference) → Guarded r IsResult (check_config_ref r s config)
  check_config_ref-Guarded none = unchanged-Guarded
  check_config_ref-Guarded (some config) =
      search (guard_rules, complete_config-Guarded, unchanged-Guarded, fail_with-Guarded r laws)
        depth 20

  check_patch_source-Guarded :
      (patch : Option PatchStrategicMerge) → Guarded r IsResult (check_patch_source r s patch)
  check_patch_source-Guarded none = unchanged-Guarded
  check_patch_source-Guarded (some patch) =
      search (guard_rules, unchanged-Guarded, fail_with-Guarded r laws) depth 20

  mutation_failed-Guarded : (e : Error) → Guarded r IsResult (mutation_failed r s e)
  mutation_failed-Guarded e =
      search (guard_rules, fail-Guarded r laws, requeue-Guarded r laws) depth 20

  progress-InProgress : (w : Here r s) → InProgress r (progress r w)
  progress-InProgress w e = ground (arith, reconciling-progress r laws w, ap holds e)

  progress-Guarded :
      (b : Bool) → Guarded r IsResult (when b (modify (progress r {O = MutationObject})))
  progress-Guarded true = record {
    goes_on = λ w a i e. progress-InProgress w;
    ends = λ w q e i h d. cc;
  }
  progress-Guarded false = record { goes_on = λ w a i e. i; ends = λ w q e i h d. cc }

  -- Reconcilethe block under its error, and MarkReady
  abbrev mutate_and_succeed : Step r s (Unit {0})
  mutate_and_succeed = do
    try_step (s.reconcile_mutation_object) (mutation_failed r s)
    succeed r (interval r s)

  -- what follows the call, with its result
  abbrev after_mutation : Result (Unit {0}) → Step r s (Unit {0})
  after_mutation x = or_else x (mutation_failed r s) >>= λ u. succeed r (interval r s)

  failed_lem : (e : Error) (w : Here r s) → after_mutation (err e) w ≡ mutation_failed r s e w
  unfolding fail fail_with requeue
  failed_lem e w = ground arith

  after_mutation-ends :
      (w₀ : Here r s) (x : Result (Unit {0}))
      → (s.reconcile_mutation_object w₀).0 ≡ x
      → InProgress r (s.reconcile_mutation_object w₀).1
      → (q : Requeue) (e : Option Error)
      → (after_mutation x (s.reconcile_mutation_object w₀).1).0 ≡ return q e
      → IsDone r (after_mutation x (s.reconcile_mutation_object w₀).1).1
      → IsResult (after_mutation x (s.reconcile_mutation_object w₀).1).1
  unfolding succeed mark_ready new_event
  after_mutation-ends w₀ (ok tt) h i q e g d = record {
    before = w₀;
    mutated = h;
    obj = refl;
    cluster = refl;
  }
  after_mutation-ends w₀ (err x) h i q e g d =
      let w' = (s.reconcile_mutation_object w₀).1 in
      let same = failed_lem x w' in
      subst (λ y. IsResult y.1) (sym same)
        ((mutation_failed-Guarded x).ends w' q e i (ap (λ y. y.0) (sym same) ∙ g)
          (subst (λ y. IsDone r y.1) same d))
  after_mutation-ends w₀ panic h i q e g d = cc
  after_mutation-ends w₀ out_of_fuel h i q e g d = cc

  after_mutation_stops :
      (x : Result (Unit {0})) (w : Here r s) (a : Unit {0}) → (after_mutation x w).0 ≢ next a
  unfolding succeed fail fail_with requeue
  after_mutation_stops x w a h = ground arith

  mutate_and_succeed-Guarded : Guarded r IsResult mutate_and_succeed
  mutate_and_succeed-Guarded = record {
    goes_on = λ w a i h. absurd (after_mutation_stops (s.reconcile_mutation_object w).0 _ a h);
    ends = λ w q e i h d.
        after_mutation-ends w (s.reconcile_mutation_object w).0 refl
          (λ x. i (ap (λ c. r.get c reconciling) (sym (keeps w)) ∙ x)) q e h d;
  }

  reconcile-Guarded : Guarded r IsResult (reconcile r s)
  unfolding reconcile
  reconcile-Guarded =
      Guarded-bind _ _ (Guarded-read _)
        (λ same. Guarded-bind _ _ (progress-Guarded (not same)) (λ u. mutate_and_succeed-Guarded))

  name_or_reconcile-Guarded : Guarded r IsResult (name_or_reconcile r s)
  unfolding name_or_reconcile
  name_or_reconcile-Guarded =
      search
        (
          guard_rules,
          fail-Guarded r laws,
          requeue-Guarded r laws,
          set_snapshot_name-Guarded,
          reconcile-Guarded,
        )
        depth 20

  -- Reconcile after its first step, which marks the object as in progress
  checks-Guarded : Guarded r IsResult (do
    check_source r s
    config ← read λ w. w.obj.config_ref
    check_config_ref r s config
    source ← read λ w. w.obj.patch
    check_patch_source r s source
    name_or_reconcile r s)
  checks-Guarded =
      search
        (
          guard_rules, check_source-Guarded, check_config_ref-Guarded, check_patch_source-Guarded,
          name_or_reconcile-Guarded,
        )
        depth 20

  pub reconcile_localization-IsResult :
      (w : Here r s) (q : Requeue) (e : Option Error)
      → (reconcile_localization r s w).0 ≡ return q e
      → IsDone r (reconcile_localization r s w).1
      → IsResult (reconcile_localization r s w).1
  unfolding reconcile_localization
  reconcile_localization-IsResult w q e h d =
      checks-Guarded.ends (progress r w) q e (progress-InProgress w) h d
