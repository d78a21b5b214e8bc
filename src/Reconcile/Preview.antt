-- ===== src/Reconcile/Preview.antt =====
-- What a dry run of `apply` and of `sync` does: one round of reads.
use iasql.Base.{
  ℕ, suc, ◌≡◌, ◌∙◌, ◌⊎◌, inl, inr, refl, Bool, true, false, none, some, List, [], ◌∷◌, map, filter,
  Bool-cases, Option-cases,
}
use iasql.Base.Members.{All}
use iasql.LazyDep.{Outcome, loaded, halted}
use iasql.Plan.{CrupdeOperations}
use iasql.Reconcile.{Mapper, Context, Finish, Loop, Step, inner_again, stopped, Record}
use iasql.Reconcile.Parts.{run_loops, start_loop}
use iasql.Reconcile.Rounds.{Keeps, load-Keeps, run_loops-inner_again, run_loops-stopped}
use iasql.Reconcile.Apply.{
  close_with_plan, after_db_read, apply_outer, apply_planned, apply_compared, after_cloud_read,
  apply_inner, apply, filtered_records,
}
use iasql.Reconcile.Sync.{
  after_outer_read, sync_outer, sync_compared, after_inner_read, sync_inner, sync,
}

-- The reads and the connection keep a property of the world; nothing is said of the other operations.
module _ {W E Err : Type 0} (P : W → Type 0) where
  abbrev pub ReadsKeep : Mapper W E Err → Type 0
  ReadsKeep m = Keeps P m.db_read × Keeps P m.cloud_read

  abbrev pub ContextKeeps : Context W E Err → Type 0
  ContextKeeps ctx =
      ((w : W) → P w → P (ctx.open_conn w))
      × ((w : W) → P w → P (ctx.drop_conn w))
      × ((w : W) → P w → P (ctx.flush_db w))
      × ((w : W) → P w → P (ctx.flush_cloud w))

  db_reads :
      (mappers : List (Mapper W E Err))
      → All ReadsKeep mappers
      → All (Keeps P) (map (λ m. m.db_read) mappers)
  db_reads [] h = tt
  db_reads (m ∷ ms) h = (h.0.0, db_reads ms h.1)

  cloud_reads :
      (mappers : List (Mapper W E Err))
      → All ReadsKeep mappers
      → All (Keeps P) (map (λ m. m.cloud_read) mappers)
  cloud_reads [] h = tt
  cloud_reads (m ∷ ms) h = (h.0.1, cloud_reads ms h.1)

  chosen :
      (p : Mapper W E Err → Bool) (mappers : List (Mapper W E Err))
      → All ReadsKeep mappers
      → All ReadsKeep (filter p mappers)
  chosen p [] h = tt
  chosen p (m ∷ ms) h = elim (Bool-cases (p m)) [
    | inl e ↦ rw e (h.0, chosen p ms h.1)
    | inr e ↦ rw e (chosen p ms h.1)
  ]

  -- The step stops, in a world with the property.
  abbrev pub Stops : Step W E Err → Type 0
  Stops step = (s : Loop W E) × (f : Finish W Err) × (step ≡ stopped s f) × P s.world

  abbrev pub Enters : Step W E Err → Type 0
  Enters step = (s : Loop W E) × (step ≡ inner_again s) × P s.world

  -- Loops whose inner body stops at once.
  run_loops-once :
      (outer inner : Loop W E → Step W E Err) (close : Loop W E → Loop W E × Finish W Err)
      (fuel : ℕ) (st : Loop W E)
      → Enters (outer st) ⊎ Stops (outer st)
      → ((s : Loop W E) → P s.world → Stops (inner s))
      → (s : Loop W E) × (f : Finish W Err) × (run_loops outer inner close (suc (suc fuel)) true st
          ≡ some (s, f))
        × P s.world
  run_loops-once outer inner close fuel st (inr (s, f, e, p)) stops =
      (s, f, run_loops-stopped close outer inner (suc fuel) true st s f e, p)
  run_loops-once outer inner close fuel st (inl (s, e, p)) stops =
      let (s2, f, e2, p2) = stops s p in
      (
        s2,
        f,
        run_loops-inner_again close outer inner (suc fuel) true st s e
            ∙ run_loops-stopped close outer inner fuel false s s2 f e2,
        p2,
      )

  module _ (ctx : Context W E Err) (keeps : ContextKeeps ctx) (has_changes : Bool) where
    apply_planned-Stops :
        (mappers : List (Mapper W E Err)) (records : List (Record W E Err)) (st : Loop W E)
        → P st.world
        → Stops (apply_planned ctx mappers true has_changes records st)
    unfolding close_with_plan
    apply_planned-Stops mappers records st p = (_, _, refl, keeps.1 st.world p)

    apply_compared-Stops :
        (mappers : List (Mapper W E Err)) (st : Loop W E)
        → P st.world
        → Stops (apply_compared ctx mappers true has_changes st)
    apply_compared-Stops mappers st p = elim (Bool-cases has_changes) [
      | inl e ↦ rw e (elim (Option-cases (ctx.changes_by_entity st.world)) [
        | inl e2 ↦ rw e2 (_, _, refl, p)
        | inr (changes, e2) ↦ rw e2 (
            apply_planned-Stops mappers
              (filtered_records ctx mappers true has_changes st.world (some changes)
                st.changes_after)
              st p)
      ])
      | inr e ↦ rw e (
          apply_planned-Stops mappers
            (filtered_records ctx mappers true has_changes st.world none st.changes_after) st p)
    ]

    after_cloud_read-Stops :
        (mappers : List (Mapper W E Err)) (st : Loop W E) (r : W × Outcome W Err)
        → P r.0
        → Stops (after_cloud_read ctx mappers true has_changes st r)
    after_cloud_read-Stops mappers st (w, halted left failures) p = (_, _, refl, p)
    after_cloud_read-Stops [] st (w, loaded) p = (_, _, refl, keeps.1 w p)
    after_cloud_read-Stops (m ∷ ms) st (w, loaded) p =
        apply_compared-Stops (m ∷ ms) (record st { world = w }) p

    after_db_read-Enters :
        (mappers : List (Mapper W E Err)) (st : Loop W E) (r : W × Outcome W Err)
        → P r.0
        → Enters (after_db_read ctx mappers true has_changes st r)
          ⊎ Stops (after_db_read ctx mappers true has_changes st r)
    after_db_read-Enters mappers st (w, halted left failures) p = inr (_, _, refl, p)
    after_db_read-Enters mappers st (w, loaded) p =
        elim (Option-cases (ctx.changes_after_commit w)) [
          | inl e ↦ inr (rw (e, after_db_read) (_, _, refl, p))
          | inr (after, e) ↦ inl (rw (e, after_db_read) (_, refl, p))
        ]

    -- A dry run of `apply` returns after one round of reads: whatever the reads and the connection
    -- keep, it keeps, whatever the creates, updates and deletes of the mappers would do.
    pub apply-dry_run :
        (mappers : List (Mapper W E Err)) (crupdes : CrupdeOperations) (fuel : ℕ) (w : W)
        → All ReadsKeep mappers
        → P w
        → (s : Loop W E) × (f : Finish W Err) × (apply ctx mappers true has_changes crupdes
              (suc (suc fuel))
              w
            ≡ some (s, f))
          × P s.world
    unfolding apply apply_outer apply_inner
    apply-dry_run mappers crupdes fuel w reads p =
        let own : List (Mapper W E Err) = filter (λ m. m.source_is_db) mappers in
        let own_reads : All ReadsKeep own = chosen (λ m. m.source_is_db) mappers reads in
        run_loops-once (apply_outer ctx own true has_changes) (apply_inner ctx own true has_changes)
          (close_with_plan ctx) fuel (start_loop (ctx.open_conn w) crupdes)
          (after_db_read-Enters own
            (record (start_loop (ctx.open_conn w) crupdes) { ran_full_update = false }) _
            (load-Keeps P _ _ (db_reads own own_reads) (keeps.2 _ (keeps.0 w p))))
          (λ s q.
            after_cloud_read-Stops own s _
              (load-Keeps P _ _ (cloud_reads own own_reads) (keeps.3 _ q)))

  module _ (ctx : Context W E Err) (keeps : ContextKeeps ctx) where
    sync_compared-Stops :
        (mappers : List (Mapper W E Err)) (st : Loop W E)
        → P st.world
        → Stops (sync_compared ctx mappers true st)
    unfolding close_with_plan
    sync_compared-Stops [] st p = (_, _, refl, keeps.1 st.world p)
    sync_compared-Stops (m ∷ ms) st p = (_, _, refl, keeps.1 st.world p)

    after_inner_read-Stops :
        (mappers : List (Mapper W E Err)) (st : Loop W E) (r : W × Outcome W Err)
        → P r.0
        → Stops (after_inner_read ctx mappers true st r)
    after_inner_read-Stops mappers st (w, halted left failures) p = (_, _, refl, p)
    after_inner_read-Stops mappers st (w, loaded) p =
        elim (Option-cases (ctx.changes_after_commit w)) [
          | inl e ↦ rw (e, after_inner_read) (_, _, refl, p)
          | inr (after, e) ↦
              rw (e, after_inner_read)
                (sync_compared-Stops mappers (record st { world = w; changes_after = after }) p)
        ]

    after_outer_read-Enters :
        (mappers : List (Mapper W E Err)) (st : Loop W E) (r : W × Outcome W Err)
        → P r.0
        → Enters (after_outer_read ctx mappers true st r)
          ⊎ Stops (after_outer_read ctx mappers true st r)
    after_outer_read-Enters mappers st (w, halted left failures) p = inr (_, _, refl, p)
    after_outer_read-Enters mappers st (w, loaded) p = inl (_, refl, p)

    -- A dry run of `sync` likewise returns after one round of reads and keeps what they keep.
    pub sync-dry_run :
        (mappers : List (Mapper W E Err)) (crupdes : CrupdeOperations) (fuel : ℕ) (w : W)
        → All ReadsKeep mappers
        → P w
        → (s : Loop W E) × (f : Finish W Err) × (sync ctx mappers true crupdes (suc (suc fuel)) w
            ≡ some (s, f))
          × P s.world
    unfolding sync sync_outer sync_inner
    sync-dry_run mappers crupdes fuel w reads p =
        run_loops-once (sync_outer ctx mappers true) (sync_inner ctx mappers true)
          (close_with_plan ctx) fuel (start_loop (ctx.open_conn w) crupdes)
          (after_outer_read-Enters mappers
            (record (start_loop (ctx.open_conn w) crupdes) { ran_full_update = false }) _
            (load-Keeps P _ _ (cloud_reads mappers reads) (keeps.3 _ (keeps.0 w p))))
          (λ s q.
            after_inner_read-Stops mappers s _
              (load-Keeps P _ _ (db_reads mappers reads) (keeps.2 _ q)))
