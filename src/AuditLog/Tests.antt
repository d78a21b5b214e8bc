-- ===== src/AuditLog/Tests.antt =====
-- The audit log of a small database, in memory: a first commit, a change by the user, a second commit.
use iasql.Base.{ℕ, ◌≡◌, ◌↔◌, String, false, none, some, [], ◌∷◌}
use iasql.Base.Members.{In}
use iasql.AuditLog.{ChangeType, insert, start_commit, end_commit, AuditLog}
use iasql.AuditLog.Repo.{Table}
use iasql.AuditLog.Memory.{memory_repo}
use iasql.AuditLog.Query.{is_commit_running, insert_log, get_changes_to_commit}
use iasql.AuditLog.Transactions.{Surroundings}
use iasql.AuditLog.History.{
  created, written, engine_log, is_commit_running-blind, IsUserChange, IsBetween,
  get_changes_to_commit_iff,
}

abbrev row : ℕ → ℕ → String → ChangeType → AuditLog
row id ts user change_type = record {
  id = id;
  ts = ts;
  user = user;
  table_name = "bucket";
  change_type = change_type;
  change = record { original = none; change = none };
  message = none;
  transaction_id = none;
}

abbrev changed : AuditLog
changed = row 3 20 "ann" insert

abbrev second_start : AuditLog
second_start = row 4 30 "iasql" start_commit

abbrev log : Table
log = second_start ∷ changed ∷ row 2 12 "iasql" end_commit ∷ row 1 10 "iasql" start_commit ∷ []

abbrev quiet : Surroundings
quiet = record { clock = λ n. 50; uuid = λ n. "6f1c"; others = λ n t. t }

is_commit_running-blind_example :
    is_commit_running memory_repo "iasql"
      (insert_log memory_repo "iasql" [] 5 start_commit none none).1
    ≡ false
is_commit_running-blind_example =
    is_commit_running-blind memory_repo "iasql"
      (written created (engine_log [] 5 start_commit none none))

get_changes_to_commit_iff_example :
    In changed (
      get_changes_to_commit memory_repo "iasql" log second_start
        (some (row 1 10 "iasql" start_commit)))
    ↔ (IsUserChange memory_repo "iasql" log changed
        × IsBetween memory_repo "iasql" log (some (row 1 10 "iasql" start_commit)) second_start 20)
get_changes_to_commit_iff_example =
    get_changes_to_commit_iff memory_repo "iasql" log second_start
      (some (row 1 10 "iasql" start_commit)) changed
