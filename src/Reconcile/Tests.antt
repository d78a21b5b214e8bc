-- ===== src/Reconcile/Tests.antt =====
-- `apply` on a database of two buckets and a cloud of none.
use iasql.Base.{◌≡◌, refl, String, ◌==◌, true, false, not, none, some, List, [], ◌∷◌, ◌++◌, filter}
use iasql.Base.Dict.{get, set, has, from_entries}
use iasql.Diff.{find_diff, map_segmentation}
use iasql.LazyDep.{lazy_loader, load_loop, run_round}
use iasql.Plan.{
  PlanEntry, CrupdeOperations, no_operations, iasql_plan_v3, update_commit_plan, add_entries,
  record_count,
}
use iasql.Reconcile.{Mapper, Context, Finish, returned, entities, Loop}
use iasql.Reconcile.Parts.{load, note_counts, run_generators, run_loops, compare_sides, start_loop}
use iasql.Reconcile.Apply.{
  apply, apply_outer, apply_inner, apply_records, apply_generators, plan_apply, close_with_plan,
}
use iasql.Reconcile.Sync.{sync}
use iasql.Reconcile.Settled.{Settles, apply-Settles}
use iasql.Reconcile.Preview.{apply-dry_run, sync-dry_run}

-- The tables, and the memos of the context.
record World : Type 0 where
  pub db : List String
  pub cloud : List String
  pub memo_db : List String
  pub memo_cloud : List String

abbrev bucket_mapper : Mapper World String String
bucket_mapper = record {
  entity_name = "Bucket";
  source_is_db = true;
  entity_id = λ w e. e;
  equals = λ w a b. a == b;
  db_read = λ w. (record w { memo_db = w.db }, none);
  cloud_read = λ w. (record w { memo_cloud = w.cloud }, none);
  db_create = λ e w. (record w { db = w.db ++ e ∷ [] }, entities []);
  db_update = λ e w. (w, entities []);
  db_delete = λ e w. (record w { db = filter (λ x. not (x == e)) w.db }, entities []);
  cloud_create = λ e w. (record w { cloud = w.cloud ++ e ∷ [] }, entities []);
  cloud_update = λ e w. (w, entities []);
  cloud_delete = λ e w. (record w { cloud = filter (λ x. not (x == e)) w.cloud }, entities []);
  is_update = λ w c d. true;
}

abbrev context : Context World String String
context = record {
  open_conn = λ w. w;
  drop_conn = λ w. w;
  flush_db = λ w. record w { memo_db = [] };
  flush_cloud = λ w. record w { memo_cloud = [] };
  memo_db = λ w t. w.memo_db;
  memo_cloud = λ w t. w.memo_cloud;
  assign = λ a b w. w;
  copy_id = λ a b w. w;
  id_text = λ w e. "";
  changes_after_commit = λ w. some [];
  changes_by_entity = λ w. some [];
  snake_case = λ s. s;
}

abbrev buckets : List String
buckets = "logs" ∷ "data" ∷ []

abbrev before : World
before = record { db = buckets; cloud = "old" ∷ []; memo_db = []; memo_cloud = [] }

abbrev after : World
after = record { db = buckets; cloud = buckets; memo_db = buckets; memo_cloud = buckets }

abbrev entry : String → PlanEntry
entry name = record { id = ""; description = name }

abbrev done : CrupdeOperations
done = record {
  to_create = ("Bucket", entry "logs" ∷ entry "data" ∷ []) ∷ [];
  to_update = [];
  to_replace = [];
  to_delete = ("Bucket", entry "old" ∷ []) ∷ [];
}

abbrev final : Loop World String
final = record {
  world = after;
  plan = done;
  changes_after = [];
  ran_full_update = false;
  failure_count = none;
  counts = some (record { db = 0; cloud = 0; both = 0 });
  spin_count = 1;
  records_touched = 3;
}

apply_run :
    apply context (bucket_mapper ∷ []) false false no_operations 20 before
    ≡ some (final, returned (iasql_plan_v3 (λ s. s) done))
unfolding apply apply_outer apply_inner apply_records apply_generators plan_apply close_with_plan
    run_loops run_generators note_counts load lazy_loader load_loop run_round compare_sides
    find_diff map_segmentation from_entries get has set update_commit_plan add_entries record_count
    iasql_plan_v3
apply_run = refl

apply-Settles_example :
    Settles context
      (bucket_mapper ∷ [])
      false
      (start_loop before no_operations)
      final
      (iasql_plan_v3 (λ s. s) done)
apply-Settles_example =
    apply-Settles context (bucket_mapper ∷ []) false no_operations 20 before final
      (iasql_plan_v3 (λ s. s) done) apply_run

abbrev IsUntouched : World → Type 0
IsUntouched w = (w.db ≡ buckets) × (w.cloud ≡ "old" ∷ [])

apply-dry_run_example :
    (s : Loop World String) × (f : Finish World String) × (apply context
        (bucket_mapper ∷ [])
        true
        false
        no_operations
        2
        before
      ≡ some (s, f))
    × IsUntouched s.world
apply-dry_run_example =
    apply-dry_run IsUntouched context ((λ w h. h), (λ w h. h), (λ w h. h), (λ w h. h)) false
      (bucket_mapper ∷ []) no_operations 0 before (((λ w h. h), (λ w h. h)), tt) (refl, refl)

sync-dry_run_example :
    (s : Loop World String) × (f : Finish World String) × (sync context
        (bucket_mapper ∷ [])
        true
        no_operations
        2
        before
      ≡ some (s, f))
    × IsUntouched s.world
sync-dry_run_example =
    sync-dry_run IsUntouched context ((λ w h. h), (λ w h. h), (λ w h. h), (λ w h. h))
      (bucket_mapper ∷ []) no_operations 0 before (((λ w h. h), (λ w h. h)), tt) (refl, refl)
