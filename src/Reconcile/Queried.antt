-- ===== src/Reconcile/Queried.antt =====
-- Where the changes that a round of `apply` leaves out come from (modules/iasql_functions/iasql.ts).
use iasql.Base.{
  ◌+◌, ◌≡◌, refl, sym, ap, subst, ◌∙◌, Bool, true, false, Option, none, some, List, [], ◌∷◌, map,
  beq, if◌then◌else◌, length,
}
use iasql.Base.Dict.{Dict}
use iasql.LazyDep.{Generator, Outcome, loaded, halted}
use iasql.Plan.{Counts, record_count}
use iasql.Reconcile.{
  Mapper, Context, Finish, returned, load_failed, query_failed, progress_halted, Loop, Step,
  inner_again, outer_again, finished, stopped, Record,
}
use iasql.Reconcile.Parts.{
  load, run_generators, after_load, note_counts, counts_of, same_count, same_counts,
}
use iasql.Reconcile.Rounds.{Reaches, begins, into_inner, into_outer}
use iasql.Reconcile.Apply.{
  apply_outer, after_db_read, apply_planned, apply_compared, after_cloud_read, apply_inner,
  filtered_records, apply_generators, apply_records, plan_apply_all,
}

module _ {W E Err : Type 0} where
  -- Another round of the inner loop has the same changes to leave out.
  abbrev SameAfter : Dict (List E) → Step W E Err → Type 0
  SameAfter a (inner_again s) = s.changes_after ≡ a
  SameAfter a (outer_again s) = Unit
  SameAfter a (finished s) = Unit
  SameAfter a (stopped s f) = Unit

module _ {W E : Type 0} where
  note_counts-after :
      (c : Counts) (st : Loop W E) → (note_counts c st).changes_after ≡ st.changes_after
  unfolding note_counts
  note_counts-after c st = rest (same_counts st.counts c)
    where
      rest :
          (b : Bool)
          → (if b
              then record st { spin_count = st.spin_count + 1 }
              else record st { counts = some c; spin_count = 0 }).changes_after
            ≡ st.changes_after
      rest true = refl
      rest false = refl

module _ {W E Err : Type 0} where
  run_generators-SameAfter :
      (gs : List (Generator W Err)) (st : Loop W E)
      → SameAfter st.changes_after (run_generators gs st)
  unfolding run_generators
  run_generators-SameAfter [] st = clear st.ran_full_update
    where
      clear :
          (b : Bool)
          → SameAfter {Err = Err} st.changes_after (if b then outer_again st else finished st)
      clear true = tt
      clear false = tt
  run_generators-SameAfter (g ∷ gs) st = after (load (g ∷ gs) st.world)
    where
      failed :
          (b : Bool) (s1 s2 : Loop W E) (f : Finish W Err)
          → SameAfter {Err = Err} st.changes_after (if b then stopped s1 f else outer_again s2)
      failed true s1 s2 f = tt
      failed false s1 s2 f = tt

      after : (r : W × Outcome W Err) → SameAfter {Err = Err} st.changes_after (after_load st r)
      after (w, loaded) = refl
      after (w, halted left failures) =
          failed (same_count st.failure_count (length left)) _ _ (load_failed left failures)

  module _ (ctx : Context W E Err) where
    apply_records-SameAfter :
        (records : List (Record W E Err)) (st : Loop W E)
        → SameAfter st.changes_after (apply_records ctx records st)
    unfolding apply_records
    apply_records-SameAfter records st =
        let c : Counts = record_count (map (counts_of ctx) records) in
        spin (beq (note_counts c st).spin_count 4) (note_counts c st) _ (note_counts-after c st)
      where
        spin :
            (b : Bool) (st2 st3 : Loop W E)
            → st3.changes_after ≡ st.changes_after
            → SameAfter {Err = Err} st.changes_after (
                if b
                then stopped st2 (progress_halted st2.plan)
                else run_generators (apply_generators ctx records) st3)
        spin true st2 st3 e = tt
        spin false st2 st3 e =
            subst (λ a. SameAfter {Err = Err} a (run_generators (apply_generators ctx records) st3))
              e (run_generators-SameAfter (apply_generators ctx records) st3)

    module _ (mappers : List (Mapper W E Err)) (has_changes : Bool) where
      apply_compared-SameAfter :
          (st : Loop W E)
          → SameAfter st.changes_after (apply_compared ctx mappers false has_changes st)
      apply_compared-SameAfter st = by_changes has_changes (ctx.changes_by_entity st.world)
        where
          planned :
              (changes : Option (Dict (List E)))
              → SameAfter st.changes_after (
                  apply_planned ctx mappers false has_changes
                    (filtered_records ctx mappers false has_changes st.world changes
                      st.changes_after)
                    st)
          planned changes =
              let records : List (Record W E Err) =
                filtered_records ctx mappers false has_changes st.world changes st.changes_after in
              apply_records-SameAfter records
                (record st { plan = plan_apply_all ctx st.world records st.plan })

          by_changes :
              (b : Bool) (o : Option (Dict (List E)))
              → SameAfter st.changes_after (
                  if b
                  then elim o [
                    | none ↦ stopped st query_failed
                    | some changes ↦
                        apply_planned ctx mappers false has_changes
                          (filtered_records ctx mappers false has_changes st.world
                            (some changes)
                            st.changes_after)
                          st
                  ]
                  else apply_planned ctx mappers false has_changes
                      (filtered_records ctx mappers false has_changes st.world none
                        st.changes_after)
                      st)
          by_changes true none = tt
          by_changes true (some changes) = planned (some changes)
          by_changes false o = planned none

      apply_inner-SameAfter :
          (st : Loop W E)
          → SameAfter st.changes_after (apply_inner ctx mappers false has_changes st)
      unfolding apply_inner
      apply_inner-SameAfter st =
          read (load (map (λ m. m.cloud_read) mappers) (ctx.flush_cloud st.world))
        where
          compared :
              (w : W) (ms : List (Mapper W E Err))
              → SameAfter {Err = Err} st.changes_after (elim ms [
                | [] ↦
                    stopped
                      (record st { world = ctx.drop_conn w })
                      (returned (record { iasql_plan_version = 3; rows = [] }))
                | m ∷ ms' ↦ apply_compared ctx mappers false has_changes (record st { world = w })
              ])
          compared w [] = tt
          compared w (m ∷ ms) = apply_compared-SameAfter (record st { world = w })

          read :
              (r : W × Outcome W Err)
              → SameAfter st.changes_after (after_cloud_read ctx mappers false has_changes st r)
          read (w, halted gs failures) = tt
          read (w, loaded) = compared w mappers

      -- The changes to leave out are what getChangesAfterCommitStartedByEntity gave in a world that the
      -- reads of the database side had just left.
      abbrev pub IsQueried : Loop W E → Type 0
      IsQueried st =
          (v u : W) × (load (map (λ m. m.db_read) mappers) (ctx.flush_db v) ≡ (u, loaded))
          × (ctx.changes_after_commit u ≡ some st.changes_after)

      AfterRead : Step W E Err → Type 0
      AfterRead (inner_again s) = IsQueried s
      AfterRead (outer_again s) = Unit
      AfterRead (finished s) = Unit
      AfterRead (stopped s f) = Unit

      apply_outer-AfterRead :
          (st : Loop W E) → AfterRead (apply_outer ctx mappers false has_changes st)
      unfolding apply_outer AfterRead
      apply_outer-AfterRead st =
          read (load (map (λ m. m.db_read) mappers) (ctx.flush_db st.world)) refl
        where
          found :
              (u : W) (o : Option (Dict (List E)))
              → load (map (λ m. m.db_read) mappers) (ctx.flush_db st.world) ≡ (u, loaded)
              → ctx.changes_after_commit u ≡ o
              → AfterRead (elim o [
                | none ↦ stopped (record st { world = u; ran_full_update = false }) query_failed
                | some cs ↦
                    inner_again
                      (record st { world = u; ran_full_update = false; changes_after = cs })
              ])
          found u none e q = tt
          found u (some cs) e q = (st.world, u, e, q)

          read :
              (r : W × Outcome W Err)
              → load (map (λ m. m.db_read) mappers) (ctx.flush_db st.world) ≡ r
              → AfterRead (
                  after_db_read ctx mappers false has_changes
                    (record st { ran_full_update = false })
                    r)
          read (w, halted gs failures) e = tt
          read (w, loaded) e = found w (ctx.changes_after_commit w) e refl

      -- Every round of the inner loop that `apply` comes to leaves out changes that were so found.
      pub Reaches-IsQueried :
          {start : Loop W E} {b : Bool} {st : Loop W E}
          → Reaches
              (apply_outer ctx mappers false has_changes)
              (apply_inner ctx mappers false has_changes)
              start
              b
              st
          → b ≡ false
          → IsQueried st
      unfolding AfterRead
      Reaches-IsQueried begins q = absurd (cc (q))
      Reaches-IsQueried (into_outer r e) q = absurd (cc (q))
      Reaches-IsQueried (into_inner {b = true} {st} r e) q =
          subst AfterRead e (apply_outer-AfterRead st)
      Reaches-IsQueried (into_inner {b = false} {st} {s} r e) q =
          let same : s.changes_after ≡ st.changes_after =
            subst (SameAfter st.changes_after) e (apply_inner-SameAfter st) in
          let (v, u, read, found) = Reaches-IsQueried r refl in
          (v, u, read, found ∙ ap some (sym same))
