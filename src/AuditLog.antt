-- ===== src/AuditLog.antt =====
-- The audit log (`iasql_audit_log`): its rows (modules/iasql_platform/entity) and the repository
-- that the engine reads and writes them by.
pub mod Repo
pub mod Memory
pub mod Newest
pub mod Kept
pub mod Locking
pub mod History
pub mod Query
pub mod Transactions
mod Tests
use iasql.Base.{ℕ, String, Bool, true, false, Option, List, [], ◌∷◌, any, ◌≡◌}
use iasql.Json.{Row}

pub data ChangeType : Type 0 where
  insert update delete : ChangeType
  start_commit preview_start_commit end_commit preview_end_commit : ChangeType
  open_transaction close_transaction error start_revert end_revert set_commit_message : ChangeType

pub record Change : Type 0 where
  pub original : Option Row
  pub change : Option Row

-- `ts` is a point in time; `message` and `transaction_id` are nullable columns.
pub record AuditLog : Type 0 where
  pub id : ℕ
  pub ts : ℕ
  pub user : String
  pub table_name : String
  pub change_type : ChangeType
  pub change : Change
  pub message : Option String
  pub transaction_id : Option String

abbrev pub tag : ChangeType → ℕ
tag insert = 0
tag update = 1
tag delete = 2
tag start_commit = 3
tag preview_start_commit = 4
tag end_commit = 5
tag preview_end_commit = 6
tag open_transaction = 7
tag close_transaction = 8
tag error = 9
tag start_revert = 10
tag end_revert = 11
tag set_commit_message = 12
