-- ===== src/Commit/Tests.antt =====
-- A commit in a world of buckets that holds the audit log too.
use iasql.Base.{
  ℕ, ◌≡◌, refl, String, ◌==◌, true, false, not, none, some, List, [], ◌∷◌, ◌++◌, filter,
}
use iasql.Modules.{Module}
use iasql.AuditLog.{AuditLog, ChangeType, insert, start_commit, end_commit}
use iasql.AuditLog.Repo.{Table}
use iasql.AuditLog.Memory.{memory_repo}
use iasql.Base.Dict.{get, set, has, from_entries}
use iasql.Diff.{find_diff, map_segmentation}
use iasql.LazyDep.{lazy_loader, load_loop, run_round}
use iasql.Reconcile.Parts.{load, note_counts, run_generators, run_loops, compare_sides}
use iasql.Reconcile.Apply.{
  apply, apply_outer, apply_inner, apply_records, apply_generators, plan_apply, close_with_plan,
}
use iasql.Reconcile.Sync.{sync, sync_outer, sync_inner, sync_records, sync_generators, plan_sync}
use iasql.Plan.{
  create, update_commit_plan, add_entries, record_count, iasql_plan_v3, IasqlPlan, CrupdeOperations,
}
use iasql.Reconcile.{Mapper, Context, entities}
use iasql.Commit.{planned, Session}
use iasql.Commit.Phases.{run_phases, Setup}
use iasql.Commit.Fallback.{Applied, Synced, run_phases-planned}

record World : Type 0 where
  pub db : List String
  pub cloud : List String
  pub memo_db : List String
  pub memo_cloud : List String
  pub log : Table

abbrev bucket_mapper : Mapper World String String
bucket_mapper = record {
  entity_name = "Bucket";
  source_is_db = true;
  entity_id = λ w e. e;
  equals = λ w a b. a == b;
  db_read = λ w. (record w { memo_db = w.db }, none);
  cloud_read = λ w. (record w { memo_cloud = w.cloud }, none);
  db_create = λ e w. (record w { db = w.db ++ e ∷ [] }, entities []);
  db_update = λ e w. (w, entities []);
  db_delete = λ e w. (record w { db = filter (λ x. not (x == e)) w.db }, entities []);
  cloud_create = λ e w. (record w { cloud = w.cloud ++ e ∷ [] }, entities []);
  cloud_update = λ e w. (w, entities []);
  cloud_delete = λ e w. (record w { cloud = filter (λ x. not (x == e)) w.cloud }, entities []);
  is_update = λ w c d. true;
}

abbrev context : Context World String String
context = record {
  open_conn = λ w. w;
  drop_conn = λ w. w;
  flush_db = λ w. record w { memo_db = [] };
  flush_cloud = λ w. record w { memo_cloud = [] };
  memo_db = λ w t. w.memo_db;
  memo_cloud = λ w t. w.memo_cloud;
  assign = λ a b w. w;
  copy_id = λ a b w. w;
  id_text = λ w e. "";
  changes_after_commit = λ w. some [];
  changes_by_entity = λ w. some (("Bucket", w.db) ∷ []);
  snake_case = λ s. s;
}

abbrev aws_s3 : Module
aws_s3 = record { name = "aws_s3"; version = "0.0.1"; dependencies = []; tables = "bucket" ∷ [] }

abbrev session : Session World String String
session = record {
  context = context;
  orm = memory_repo;
  engine = "iasql";
  engine_version = "0.0.1";
  all_modules = aws_s3 ∷ [];
  mappers_of = λ m. bucket_mapper ∷ [];
  audit_log = λ w. w.log;
  set_audit_log = λ t w. record w { log = t };
  connects = λ w. true;
  now = λ w. 50;
  installed_names = λ w. "aws_s3@0.0.1" ∷ [];
  version_string = λ w. "0.0.1";
  upgrading = λ w. none;
  set_start = λ row changes w. w;
  undo_changes = λ ms c w. (w, c, true);
  error_text = λ f. "failed";
}

abbrev changed : AuditLog
changed = record {
  id = 1;
  ts = 20;
  user = "ann";
  table_name = "bucket";
  change_type = insert;
  change = record { original = none; change = none };
  message = none;
  transaction_id = none;
}

abbrev before : World
before = record { db = "logs" ∷ []; cloud = []; memo_db = []; memo_cloud = []; log = changed ∷ [] }

abbrev setup : Setup
setup = record {
  modules_with_changes = some aws_s3 ∷ [];
  with_changes_sorted = aws_s3 ∷ [];
  installed_sorted = aws_s3 ∷ [];
  has_changes = true;
}

abbrev row : ℕ → ChangeType → AuditLog
row id type = record {
  id = id;
  ts = 50;
  user = "iasql";
  table_name = "iasql_audit_log";
  change_type = type;
  change = record { original = none; change = none };
  message = none;
  transaction_id = some "<no-id-found>";
}

abbrev plan : IasqlPlan
plan = record {
  iasql_plan_version = 3;
  rows = record { action = create; table_name = "Bucket"; id = ""; description = "logs" } ∷ [];
}

abbrev after : Table → World
after t = record {
  db = "logs" ∷ [];
  cloud = "logs" ∷ [];
  memo_db = "logs" ∷ [];
  memo_cloud = "logs" ∷ [];
  log = t;
}

abbrev after_commit : Table
after_commit =
    row 5 end_commit
    ∷ row 2 start_commit
    ∷ record changed { transaction_id = some "<no-id-found>" }
    ∷ []

phases_run :
    run_phases session 20 false setup none before ≡ some (after (changed ∷ []), planned plan)
unfolding run_phases apply apply_outer apply_inner apply_records apply_generators plan_apply
    plan_sync close_with_plan sync sync_outer sync_inner sync_records sync_generators run_loops
    run_generators note_counts load lazy_loader load_loop run_round compare_sides find_diff
    map_segmentation from_entries get has set update_commit_plan add_entries record_count
    iasql_plan_v3
phases_run = refl

run_phases-planned_example :
    (v : World) × (c : CrupdeOperations) × Applied session 20 setup before v c
    × Synced session 20 setup before v c (after (changed ∷ [])) plan
run_phases-planned_example =
    run_phases-planned session 20 setup before none (after (changed ∷ [])) plan phases_run
