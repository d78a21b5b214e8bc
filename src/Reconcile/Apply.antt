-- ===== src/Reconcile/Apply.antt =====
-- `apply` (modules/iasql_functions/iasql.ts): brings the cloud to what the database says.
use mathlib.Core.List.{reverse}
use iasql.Base.{
  ℕ, ◌+◌, String, Bool, true, false, not, Option, none, some, List, [], ◌∷◌, ◌++◌, map, filter, beq,
  if◌then◌else◌, flat_map,
}
use iasql.Base.Dict.{Dict}
use iasql.Diff.{Changed}
use iasql.LazyDep.{Generator, Outcome, loaded, halted}
use iasql.Plan.{
  PlanEntry, Crupde, CrupdeOperations, update_commit_plan, iasql_plan_v3, record_count,
}
use iasql.Reconcile.{
  Mapper, Context, Finish, returned, load_failed, query_failed, progress_halted, Loop, Step,
  inner_again, stopped, Record,
}
use iasql.Reconcile.Parts.{
  load, call_and_assign, call_only, compare_sides, filter_changes, entry_of, counts_of, note_counts,
  run_generators, run_loops, start_loop,
}

-- `if (es.length > 0) updateCommitPlan(…)`
abbrev pub plan_some : {E : Type 0} → (E → PlanEntry) → Crupde → String → List E → Crupde
plan_some entry crupde name [] = crupde
plan_some entry crupde name (e ∷ es) = update_commit_plan entry crupde name (e ∷ es)

module _ {W E Err : Type 0} (ctx : Context W E Err) where
  -- The part of the `forEach` that writes the plan.
  unfoldable pub plan_apply : W → Record W E Err → CrupdeOperations → CrupdeOperations
  plan_apply w r plan =
      let entry : E → PlanEntry = entry_of ctx w r.mapper in
      let table : String = r.mapper.entity_name in
      let updates : Changed E → Bool = λ o. r.mapper.is_update w o.cloud o.db in
      record {
        to_create = plan_some entry plan.to_create table r.diff.entities_in_db_only;
        to_delete = plan_some entry plan.to_delete table r.diff.entities_in_aws_only;
        to_update =
            plan_some entry plan.to_update table
              (map (λ o. o.db) (filter updates r.diff.entities_changed));
        to_replace =
            plan_some entry plan.to_replace table
              (map (λ o. o.db) (filter (λ o. not (updates o)) r.diff.entities_changed));
      }

  abbrev pub plan_apply_all : W → List (Record W E Err) → CrupdeOperations → CrupdeOperations
  plan_apply_all w [] plan = plan
  plan_apply_all w (r ∷ rs) plan = plan_apply_all w rs (plan_apply w r plan)

  -- promiseGenerators: creates, then updates, of one record.
  abbrev pub apply_forward : Record W E Err → List (Generator W Err)
  apply_forward r =
      map (call_and_assign ctx r.mapper.cloud_create) r.diff.entities_in_db_only
      ++ map (λ o. call_and_assign ctx r.mapper.cloud_update o.db) r.diff.entities_changed

  -- reversePromiseGenerators: deletes of one record.
  abbrev pub apply_backward : Record W E Err → List (Generator W Err)
  apply_backward r = map (call_only ctx r.mapper.cloud_delete) r.diff.entities_in_aws_only

  unfoldable pub apply_generators : List (Record W E Err) → List (Generator W Err)
  apply_generators records =
      flat_map apply_forward records ++ flat_map apply_backward (reverse records)

  -- recordsApplied grows by the lengths of the three lists of each record.
  abbrev pub touched : List (Record W E Err) → ℕ
  touched records = let c = record_count (map (counts_of ctx) records) in c.db + c.both + c.cloud

  -- From the counts to the end of the inner body.
  unfoldable pub apply_records : List (Record W E Err) → Loop W E → Step W E Err
  apply_records records st =
      let st' : Loop W E = note_counts (record_count (map (counts_of ctx) records)) st in
      if beq st'.spin_count 4
      then stopped st' (progress_halted st'.plan)
      else run_generators (apply_generators records)
          (record st' { records_touched = st'.records_touched + touched records })

  -- `close` of the loops, and the return of a dry run.
  unfoldable pub close_with_plan : Loop W E → Loop W E × Finish W Err
  close_with_plan st = (
    record st { world = ctx.drop_conn st.world },
    returned (iasql_plan_v3 ctx.snake_case st.plan),
  )

  module _ (mappers : List (Mapper W E Err)) (dry_run has_changes : Bool) where
    -- The outer body down to the inner loop.
    abbrev pub after_db_read : Loop W E → W × Outcome W Err → Step W E Err
    after_db_read st (w, halted left failures) =
        stopped (record st { world = w }) (load_failed left failures)
    after_db_read st (w, loaded) = elim (ctx.changes_after_commit w) [
      | none ↦ stopped (record st { world = w }) query_failed
      | some after ↦ inner_again (record st { world = w; changes_after = after })
    ]

    unfoldable pub apply_outer : Loop W E → Step W E Err
    apply_outer st =
        after_db_read (record st { ran_full_update = false })
          (load (map (λ m. m.db_read) mappers) (ctx.flush_db st.world))

    abbrev pub filtered_records : W → Option (Dict (List E)) → Dict (List E) → List (Record W E Err)
    filtered_records w changes after =
        map (λ m. filter_changes ctx w changes after (compare_sides ctx w m)) mappers

    -- From the filtered records on.
    abbrev pub apply_planned : List (Record W E Err) → Loop W E → Step W E Err
    apply_planned records st =
        let st' : Loop W E = record st { plan = plan_apply_all st.world records st.plan } in
        if dry_run
        then (let (s, f) = close_with_plan st' in stopped s f)
        else apply_records records st'

    -- changesToCommit?.length
    abbrev pub apply_compared : Loop W E → Step W E Err
    apply_compared st =
        if has_changes
        then elim (ctx.changes_by_entity st.world) [
          | none ↦ stopped st query_failed
          | some changes ↦
              apply_planned (filtered_records st.world (some changes) st.changes_after) st
        ]
        else apply_planned (filtered_records st.world none st.changes_after) st

    -- `if (!records.length)`: there is a record for each mapper.
    abbrev pub after_cloud_read : Loop W E → W × Outcome W Err → Step W E Err
    after_cloud_read st (w, halted left failures) =
        stopped (record st { world = w }) (load_failed left failures)
    after_cloud_read st (w, loaded) = elim mappers [
      | [] ↦
          stopped (record st { world = ctx.drop_conn w })
            (returned (record { iasql_plan_version = 3; rows = [] }))
      | m ∷ ms ↦ apply_compared (record st { world = w })
    ]

    unfoldable pub apply_inner : Loop W E → Step W E Err
    apply_inner st =
        after_cloud_read st (load (map (λ m. m.cloud_read) mappers) (ctx.flush_cloud st.world))

  -- `relevantModules` enters as all mappers of its modules, in order.
  unfoldable pub apply :
      List (Mapper W E Err)
      → Bool
      → Bool
      → CrupdeOperations
      → ℕ
      → W
      → Option (Loop W E × Finish W Err)
  apply all_mappers dry_run has_changes crupdes fuel w =
      let mappers : List (Mapper W E Err) = filter (λ m. m.source_is_db) all_mappers in
      run_loops (apply_outer mappers dry_run has_changes) (apply_inner mappers dry_run has_changes)
        close_with_plan fuel true (start_loop (ctx.open_conn w) crupdes)
