-- ===== src/Commit/Fallback.antt =====
-- What a commit has done when it gives a plan.
use iasql.Base.{ℕ, ◌≡◌, ◌⊎◌, inl, inr, refl, String, false, Option, none, some}
use iasql.Plan.{IasqlPlan, CrupdeOperations}
use iasql.Commit.{PhaseError, planned, Session}
use iasql.Commit.Phases.{
  Phase, done, skipped, threw, Setup, run_apply, run_sync, concluded, after_second, after_first,
  first_apply, run_phases, caught_option,
}
use iasql.Reconcile.{Loop, Finish, returned, load_failed, query_failed, progress_halted}

module _ {W E Err : Type 0} (session : Session W E Err) (fuel : ℕ) (setup : Setup) (w : W) where
  abbrev pub first : Option (Phase W Err)
  first = first_apply session fuel false setup w

  -- The applies ended without an error: none was needed, the first succeeded, or the one for all
  -- modules succeeded after the first had thrown.
  abbrev pub Applied : W → CrupdeOperations → Type 0
  Applied v plan =
      (first ≡ some (skipped v plan))
      ⊎ ((p : IasqlPlan) × (first ≡ some (done v plan p)))
      ⊎ ((u : W) × (plan1 : CrupdeOperations) × (e : PhaseError W Err) × (p : IasqlPlan) × (first
            ≡ some (threw u plan1 e))
          × (run_apply session fuel false setup.installed_sorted false plan1 u
              ≡ some (done v plan p)))

  abbrev pub Synced : W → CrupdeOperations → W → IasqlPlan → Type 0
  Synced v plan u p =
      (plan2 : CrupdeOperations) × (run_sync session fuel false setup.installed_sorted plan v
        ≡ some (done u plan2 p))

  sync_planned_by :
      (v : W) (plan : CrupdeOperations) (o : Option (Phase W Err)) (u : W) (p : IasqlPlan)
      → run_sync session fuel false setup.installed_sorted plan v ≡ o
      → concluded session fuel false none none o ≡ some (u, planned p)
      → Synced v plan u p
  sync_planned_by v plan none u p s h = absurd (cc)
  sync_planned_by v plan (some (done v2 plan2 p2)) u p s h =
      let same : (v2 ≡ u) × (p2 ≡ p) = (cc, cc) in (plan2, rw (same.0, same.1) at s)
  sync_planned_by v plan (some (skipped v2 plan2)) u p s h = absurd (cc)
  sync_planned_by v plan (some (threw v2 plan2 e)) u p s h = absurd (cc)

  not_after_error :
      (e : PhaseError W Err) (revert_err : Option (PhaseError W Err)) (o : Option (Phase W Err))
      (u : W) (p : IasqlPlan)
      → concluded session fuel false (some e) revert_err o ≡ some (u, planned p)
      → ⊥
  not_after_error e r none u p h = cc
  not_after_error e r (some (done v plan p2)) u p h = cc
  not_after_error e r (some (skipped v plan)) u p h = cc
  not_after_error e r (some (threw v plan f)) u p h = cc

  was_called :
      (o : Option (Loop W E × Finish W Err)) (v : W) (plan : CrupdeOperations)
      → caught_option o ≡ some (skipped v plan)
      → ⊥
  was_called none v plan h = cc
  was_called (some (st, returned p)) v plan h = cc
  was_called (some (st, load_failed left fs)) v plan h = cc
  was_called (some (st, query_failed)) v plan h = cc
  was_called (some (st, progress_halted c)) v plan h = cc

  -- A commit that is no preview gives a plan only if its applies ended without an error, and then the
  -- plan is the one of the sync that followed them; so it has not reverted anything.
  pub run_phases-planned :
      (transaction_id : Option String) (u : W) (p : IasqlPlan)
      → run_phases session fuel false setup transaction_id w ≡ some (u, planned p)
      → (v : W) × (plan : CrupdeOperations) × Applied v plan × Synced v plan u p
  unfolding run_phases
  run_phases-planned transaction_id u p h = by_first first refl h
    where
      by_second :
          (v : W) (plan1 : CrupdeOperations) (e : PhaseError W Err) (o : Option (Phase W Err))
          → first ≡ some (threw v plan1 e)
          → run_apply session fuel false setup.installed_sorted false plan1 v ≡ o
          → after_second session fuel false setup.installed_sorted transaction_id o
            ≡ some (u, planned p)
          → (v : W) × (plan : CrupdeOperations) × Applied v plan × Synced v plan u p
      by_second v plan1 e none f s g = absurd (cc)
      by_second v plan1 e (some (done v2 plan2 q)) f s g =
          (v2, plan2, inr (inr (v, plan1, e, q, f, s)), sync_planned_by v2 plan2 _ u p refl g)
      by_second v plan1 e (some (skipped v2 plan2)) f s g = absurd (was_called _ v2 plan2 s)
      by_second v plan1 e (some (threw v2 plan2 e2)) f s g = absurd (not_after_error _ _ _ u p g)

      by_first :
          (o : Option (Phase W Err))
          → first ≡ o
          → after_first session fuel false setup.installed_sorted transaction_id o
            ≡ some (u, planned p)
          → (v : W) × (plan : CrupdeOperations) × Applied v plan × Synced v plan u p
      by_first none f g = absurd (cc)
      by_first (some (done v plan q)) f g =
          (v, plan, inr (inl (q, f)), sync_planned_by v plan _ u p refl g)
      by_first (some (skipped v plan)) f g = (v, plan, inl f, sync_planned_by v plan _ u p refl g)
      by_first (some (threw v plan e)) f g = by_second v plan e _ f refl g
