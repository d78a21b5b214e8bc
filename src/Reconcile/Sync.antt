-- ===== src/Reconcile/Sync.antt =====
-- `sync` (modules/iasql_functions/iasql.ts): brings the database to what the cloud says.
use mathlib.Core.List.{reverse}
use iasql.Base.{
  ℕ, ◌+◌, String, Bool, true, false, Option, none, some, List, [], ◌∷◌, ◌++◌, map, beq,
  if◌then◌else◌, flat_map,
}
use iasql.Diff.{Changed}
use iasql.LazyDep.{Generator, Outcome, loaded, halted}
use iasql.Plan.{PlanEntry, CrupdeOperations, record_count}
use iasql.Reconcile.{
  Mapper, Context, Finish, returned, load_failed, query_failed, progress_halted, Loop, Step,
  inner_again, stopped, Record,
}
use iasql.Reconcile.Parts.{
  load, call_and_assign, call_only, compare_sides, filter_changes, entry_of, counts_of, note_counts,
  run_generators, run_loops, start_loop,
}
use iasql.Reconcile.Apply.{plan_some, close_with_plan, touched}

module _ {W E Err : Type 0} (ctx : Context W E Err) where
  -- What the database lacks is created there, what the cloud lacks is deleted there.
  unfoldable pub plan_sync : W → Record W E Err → CrupdeOperations → CrupdeOperations
  plan_sync w r plan =
      let entry : E → PlanEntry = entry_of ctx w r.mapper in
      let table : String = r.mapper.entity_name in
      record plan {
        to_delete = plan_some entry plan.to_delete table r.diff.entities_in_db_only;
        to_create = plan_some entry plan.to_create table r.diff.entities_in_aws_only;
        to_update =
            plan_some entry plan.to_update table (map (λ o. o.cloud) r.diff.entities_changed);
      }

  abbrev pub plan_sync_all : W → List (Record W E Err) → CrupdeOperations → CrupdeOperations
  plan_sync_all w [] plan = plan
  plan_sync_all w (r ∷ rs) plan = plan_sync_all w rs (plan_sync w r plan)

  -- The update writes the cloud's entity, under the id of the database's.
  abbrev pub sync_update : Mapper W E Err → Changed E → Generator W Err
  sync_update m o w = call_and_assign ctx m.db_update o.cloud (ctx.copy_id o.db o.cloud w)

  abbrev pub sync_forward : Record W E Err → List (Generator W Err)
  sync_forward r =
      map (call_and_assign ctx r.mapper.db_create) r.diff.entities_in_aws_only
      ++ map (sync_update r.mapper) r.diff.entities_changed

  abbrev pub sync_backward : Record W E Err → List (Generator W Err)
  sync_backward r = map (call_only ctx r.mapper.db_delete) r.diff.entities_in_db_only

  unfoldable pub sync_generators : List (Record W E Err) → List (Generator W Err)
  sync_generators records =
      flat_map sync_forward records ++ flat_map sync_backward (reverse records)

  unfoldable pub sync_records : List (Record W E Err) → Loop W E → Step W E Err
  sync_records records st =
      let st' : Loop W E = note_counts (record_count (map (counts_of ctx) records)) st in
      if beq st'.spin_count 4
      then stopped st' (progress_halted st'.plan)
      else run_generators (sync_generators records)
          (record st' { records_touched = st'.records_touched + touched ctx records })

  module _ (mappers : List (Mapper W E Err)) (dry_run : Bool) where
    abbrev pub after_outer_read : Loop W E → W × Outcome W Err → Step W E Err
    after_outer_read st (w, halted left failures) =
        stopped (record st { world = w }) (load_failed left failures)
    after_outer_read st (w, loaded) = inner_again (record st { world = w })

    unfoldable pub sync_outer : Loop W E → Step W E Err
    sync_outer st =
        after_outer_read (record st { ran_full_update = false })
          (load (map (λ m. m.cloud_read) mappers) (ctx.flush_cloud st.world))

    abbrev pub sync_planned : List (Record W E Err) → Loop W E → Step W E Err
    sync_planned records st =
        let st' : Loop W E = record st { plan = plan_sync_all st.world records st.plan } in
        if dry_run
        then (let (s, f) = close_with_plan ctx st' in stopped s f)
        else sync_records records st'

    abbrev pub sync_compared : Loop W E → Step W E Err
    sync_compared st = elim mappers [
      | [] ↦
          stopped (record st { world = ctx.drop_conn st.world })
            (returned (record { iasql_plan_version = 3; rows = [] }))
      | m ∷ ms ↦
          sync_planned
            (map
              (λ n.
                filter_changes ctx st.world none st.changes_after (compare_sides ctx st.world n))
              (m ∷ ms))
            st
    ]

    abbrev pub after_inner_read : Loop W E → W × Outcome W Err → Step W E Err
    after_inner_read st (w, halted left failures) =
        stopped (record st { world = w }) (load_failed left failures)
    after_inner_read st (w, loaded) = elim (ctx.changes_after_commit w) [
      | none ↦ stopped (record st { world = w }) query_failed
      | some after ↦ sync_compared (record st { world = w; changes_after = after })
    ]

    unfoldable pub sync_inner : Loop W E → Step W E Err
    sync_inner st =
        after_inner_read st (load (map (λ m. m.db_read) mappers) (ctx.flush_db st.world))

  unfoldable pub sync :
      List (Mapper W E Err) → Bool → CrupdeOperations → ℕ → W → Option (Loop W E × Finish W Err)
  sync mappers dry_run crupdes fuel w =
      run_loops (sync_outer mappers dry_run) (sync_inner mappers dry_run) (close_with_plan ctx) fuel
        true (start_loop (ctx.open_conn w) crupdes)
