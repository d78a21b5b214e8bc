-- ===== src/Reconcile/Settled.antt =====
-- When `apply` (modules/iasql_functions/iasql.ts) returns a plan: nothing that it compared differs any
-- more.
use iasql.Base.{
  ℕ, ◌≡◌, ◌⊎◌, sym, ap, ◌∙◌, inl, inr, refl, Bool, true, false, Option, none, some, List, [], ◌∷◌,
  map, filter,
}
use iasql.Base.Members.{All}
use iasql.Base.Dict.{Dict}
use iasql.LazyDep.{Outcome, loaded, halted}
use iasql.Plan.{CrupdeOperations, IasqlPlan, iasql_plan_v3}
use iasql.Reconcile.{Mapper, Context, returned, query_failed, Loop, inner_again, stopped, Record}
use iasql.Reconcile.Parts.{load, start_loop}
use iasql.Reconcile.NoWork.{IsSettled, round_records, apply_records-returned}
use iasql.Reconcile.Queried.{IsQueried, Reaches-IsQueried}
use iasql.Reconcile.Rounds.{EndsWith, Reaches, begins, LastRound, run_loops-LastRound}
use iasql.Reconcile.Apply.{
  close_with_plan, after_db_read, apply_outer, apply_planned, apply_compared, after_cloud_read,
  apply_inner, apply, filtered_records,
}

module _ {W E Err : Type 0} (ctx : Context W E Err) where
  -- Nothing that is compared in the state `last` is left over, and the plan `p` is returned from there,
  -- in the state `s`.
  abbrev pub ReturnsFrom : List (Mapper W E Err) → Bool → Loop W E → Loop W E → IasqlPlan → Type 0
  ReturnsFrom mappers has_changes last s p =
      All IsSettled (round_records ctx mappers has_changes last)
      × (s.world ≡ ctx.drop_conn last.world)
      × (p ≡ iasql_plan_v3 ctx.snake_case s.plan)

  -- How `apply` may return the plan `p`, in the state `s`: without mappers, or from a round of the
  -- inner loop that it has come to from `start`, after the reads of this round.
  abbrev pub Settles : List (Mapper W E Err) → Bool → Loop W E → Loop W E → IasqlPlan → Type 0
  Settles mappers has_changes start s p =
      (mappers ≡ [])
      ⊎ ((st : Loop W E) × (w : W) × Reaches (apply_outer ctx mappers false has_changes)
            (apply_inner ctx mappers false has_changes) start false st
          × IsQueried ctx mappers has_changes st
          × (load (map (λ m. m.cloud_read) mappers) (ctx.flush_cloud st.world) ≡ (w, loaded))
          × ReturnsFrom mappers has_changes (record st { world = w }) s p)

  apply_planned-returned :
      (mappers : List (Mapper W E Err)) (has_changes : Bool) (records : List (Record W E Err))
      (st s : Loop W E) (p : IasqlPlan)
      → EndsWith
          (close_with_plan ctx)
          (apply_planned ctx mappers false has_changes records st)
          s
          (returned p)
      → All IsSettled records
        × (s.world ≡ ctx.drop_conn st.world)
        × (p ≡ iasql_plan_v3 ctx.snake_case s.plan)
  apply_planned-returned mappers has_changes records st s p h =
      let (settled, world, plan, shown) = apply_records-returned ctx records _ s p h in
      (settled, world, shown ∙ ap (iasql_plan_v3 ctx.snake_case) (sym plan))

  apply_compared-returned :
      (mappers : List (Mapper W E Err)) (has_changes : Bool) (st s : Loop W E) (p : IasqlPlan)
      → EndsWith
          (close_with_plan ctx)
          (apply_compared ctx mappers false has_changes st)
          s
          (returned p)
      → ReturnsFrom mappers has_changes st s p
  apply_compared-returned mappers false st s p h =
      let (settled, world, shown) =
        apply_planned-returned mappers false (round_records ctx mappers false st) st s p h in
      (settled, world, shown)
  apply_compared-returned mappers true st s p h = found (ctx.changes_by_entity st.world) refl h
    where
      found :
          (changes : Option (Dict (List E)))
          → ctx.changes_by_entity st.world ≡ changes
          → EndsWith
              (close_with_plan ctx)
              (elim changes [
                | none ↦ stopped st query_failed
                | some cs ↦
                    apply_planned ctx mappers false true
                      (filtered_records ctx mappers false true st.world (some cs) st.changes_after)
                      st
              ])
              s
              (returned p)
          → ReturnsFrom mappers true st s p
      found none e h2 = let (_, k) : (st ≡ s) × (query_failed ≡ returned p) = h2 in absurd (cc)
      found (some cs) e h2 =
          let (settled, world, shown) =
            apply_planned-returned mappers true
              (filtered_records ctx mappers false true st.world (some cs) st.changes_after) st s p
              h2 in
          (rw e settled, world, shown)

  after_cloud_read-returned :
      (mappers : List (Mapper W E Err)) (has_changes : Bool) (start st s : Loop W E) (p : IasqlPlan)
      (r : W × Outcome W Err)
      → Reaches
          (apply_outer ctx mappers false has_changes)
          (apply_inner ctx mappers false has_changes)
          start
          false
          st
      → load (map (λ m. m.cloud_read) mappers) (ctx.flush_cloud st.world) ≡ r
      → EndsWith
          (close_with_plan ctx)
          (after_cloud_read ctx mappers false has_changes st r)
          s
          (returned p)
      → Settles mappers has_changes start s p
  after_cloud_read-returned mappers has_changes start st s p (w, halted left failures) reached e
        (_, k) =
      absurd (cc)
  after_cloud_read-returned [] has_changes start st s p (w, loaded) reached e h = inl refl
  after_cloud_read-returned (m ∷ ms) has_changes start st s p (w, loaded) reached e h = inr (
    st,
    w,
    reached,
    Reaches-IsQueried ctx (m ∷ ms) has_changes reached refl,
    e,
    apply_compared-returned (m ∷ ms) has_changes (record st { world = w }) s p h,
  )

  after_db_read-returned :
      (mappers : List (Mapper W E Err)) (has_changes : Bool) (st s : Loop W E) (p : IasqlPlan)
      (r : W × Outcome W Err)
      → EndsWith
          (close_with_plan ctx)
          (after_db_read ctx mappers false has_changes st r)
          s
          (returned p)
      → ⊥
  after_db_read-returned mappers has_changes st s p (w, halted left failures) (_, k) = cc
  after_db_read-returned mappers has_changes st s p (w, loaded) h =
      never (ctx.changes_after_commit w) h
    where
      never :
          (after : Option (Dict (List E)))
          → EndsWith
              (close_with_plan ctx)
              (elim after [
                | none ↦ stopped (record st { world = w }) query_failed
                | some cs ↦ inner_again (record st { world = w; changes_after = cs })
              ])
              s
              (returned p)
          → ⊥
      never none (_, k) = cc
      never (some cs) h2 = h2

  -- If `apply` is no dry run and returns a plan, then nothing is left to create, update, replace or
  -- delete of what it compares in its last round, unless no mapper is there: a round of the inner loop
  -- that it has come to from its start, in the world that the reads of this round leave. The changes that
  -- it leaves out are those that were found after a read of the database. The plan shows the entries that it collected.
  pub apply-Settles :
      (all_mappers : List (Mapper W E Err)) (has_changes : Bool) (crupdes : CrupdeOperations)
      (fuel : ℕ) (w : W) (s : Loop W E) (p : IasqlPlan)
      → apply ctx all_mappers false has_changes crupdes fuel w ≡ some (s, returned p)
      → Settles
          (filter (λ m. m.source_is_db) all_mappers)
          has_changes
          (start_loop (ctx.open_conn w) crupdes)
          s
          p
  unfolding apply
  apply-Settles all_mappers has_changes crupdes fuel w s p h =
      let own : List (Mapper W E Err) = filter (λ m. m.source_is_db) all_mappers in
      let start : Loop W E = start_loop (ctx.open_conn w) crupdes in
      by_round own start (
        run_loops-LastRound (close_with_plan ctx) (apply_outer ctx own false has_changes)
          (apply_inner ctx own false has_changes) start fuel true start s (returned p) begins h)
    where
      by_round :
          (own : List (Mapper W E Err)) (start : Loop W E)
          → LastRound
              (close_with_plan ctx)
              (apply_outer ctx own false has_changes)
              (apply_inner ctx own false has_changes)
              start
              s
              (returned p)
          → Settles own has_changes start s p
      by_round own start (true, last, reached, ends) = absurd (
          after_db_read-returned own has_changes (record last { ran_full_update = false }) s p
            (load (map (λ m. m.db_read) own) (ctx.flush_db last.world))
            (unfold apply_outer in ends))
      by_round own start (false, last, reached, ends) =
          after_cloud_read-returned own has_changes start last s p
            (load (map (λ m. m.cloud_read) own) (ctx.flush_cloud last.world)) reached refl
            (unfold apply_inner in ends)
