-- ===== src/Commit.antt =====
-- commit and revert (modules/iasql_functions/iasql.ts): the phases of a commit, on the audit log and
-- on the rest of the world. The world `W` holds the audit log too, which the phases leave alone.
pub mod Phases
pub mod Marks
pub mod Fallback
pub mod Rollback
pub mod Undo
mod Tests
use iasql.Base.{
  ℕ, String, ◌==◌, Bool, true, false, not, ◌&&◌, Option, none, some, List, [], ◌∷◌, map, filter,
  length, dedupe, beq, if◌then◌else◌, flat_map, ◌<>◌,
}
use iasql.Base.Dict.{Dict}
use iasql.Modules.{Module, full_name}
use iasql.AuditLog.{
  AuditLog, ChangeType, start_commit, preview_start_commit, end_commit, preview_end_commit,
  set_commit_message, start_revert, end_revert,
}
use iasql.AuditLog.Repo.{LogRepo, Table}
use iasql.AuditLog.Query.{insert_log, insert_error_log, update_iasql_records_since}
use iasql.Plan.{CrupdeOperations, IasqlPlan}
use iasql.Reconcile.{Context, Mapper, Finish, Loop}
use iasql.Selection.{Refused}

-- What a phase throws. In revert it is the search for the changes, or the inverse queries.
pub data PhaseError (W Err : Type 0) : Type 0 where
  unfinished : Finish W Err → PhaseError W Err
  revert_failed : PhaseError W Err

-- What makes a commit throw; the last are the merged errors of sync, revert and apply.
pub data Failure (W Err : Type 0) : Type 0 where
  refused : Refused → Failure W Err
  not_connected already_running : Failure W Err
  phases_failed : (sync_err revert_err apply_err : Option (PhaseError W Err)) → Failure W Err

pub data Answer (W Err : Type 0) : Type 0 where
  planned : IasqlPlan → Answer W Err
  failed : Failure W Err → Answer W Err

-- mergeErrorMessages (services/logger.ts) on the messages of the errors; an error that is undefined
-- has none, and each message stays once.
abbrev pub defined_messages : List (Option String) → List String
defined_messages [] = []
defined_messages (none ∷ ms) = defined_messages ms
defined_messages (some m ∷ ms) = m ∷ defined_messages ms

abbrev pub join_lines : List String → String
join_lines [] = ""
join_lines (m ∷ []) = m
join_lines (m ∷ n ∷ ms) = m <> "\n" <> join_lines (n ∷ ms)

unfoldable pub merge_error_messages : List (Option String) → String
merge_error_messages ms = join_lines (filter (λ m. not (m == "")) (dedupe (defined_messages ms)))

-- What commit meets outside the functions of the model.
pub record Session (W E Err : Type 0) : Type 0 where
  pub context : Context W E Err
  pub orm : LogRepo
  -- config.db.user, config.version
  pub engine : String
  pub engine_version : String
  -- AllModules, and the mappers of a module
  pub all_modules : List Module
  pub mappers_of : Module → List (Mapper W E Err)
  pub audit_log : W → Table
  pub set_audit_log : Table → W → W
  -- An `ormOpt` is given, or createConn succeeds.
  pub connects : W → Bool
  -- new Date()
  pub now : W → ℕ
  -- orm.find(IasqlModule), the version of the database, and the flag in its metadata
  pub installed_names : W → List String
  pub version_string : W → String
  pub upgrading : W → Option Bool
  -- context.startCommit or context.previewStartCommit, and the user's changes for getChangesByEntity
  pub set_start : AuditLog → Table → W → W
  -- The body of revert's `try`: getChangeLogsSinceLastBegin, recreateQueries and applyInverseQueries;
  -- `false` if it throws.
  pub undo_changes : List Module → CrupdeOperations → W → W × CrupdeOperations × Bool
  pub error_text : Failure W Err → String

-- `dryRun ? PREVIEW_START_COMMIT : START_COMMIT`, and the end
abbrev pub start_mark : Bool → ChangeType
start_mark true = preview_start_commit
start_mark false = start_commit

abbrev pub end_mark : Bool → ChangeType
end_mark true = preview_end_commit
end_mark false = end_commit

module _ {W E Err : Type 0} (session : Session W E Err) where
  open session use {orm, engine, audit_log, set_audit_log, now}

  -- insertLog on the world
  abbrev pub write_log : ChangeType → Option String → Option String → W → AuditLog × W
  write_log type transaction_id message w =
      let (row, t) = insert_log orm engine (audit_log w) (now w) type transaction_id message in
      (row, set_audit_log t w)

  abbrev pub write_error : Failure W Err → Option String → W → W
  write_error f transaction_id w =
      set_audit_log
        (insert_error_log orm engine (audit_log w) (now w) (session.error_text f) transaction_id) w

  abbrev pub update_records : ChangeType → Option String → W → W
  update_records type transaction_id w =
      set_audit_log (update_iasql_records_since orm engine (audit_log w) type transaction_id) w

  -- The `catch` of commit.
  abbrev pub log_failure : Option String → W × Answer W Err → W × Answer W Err
  log_failure transaction_id (w, planned p) = (w, planned p)
  log_failure transaction_id (w, failed f) = (write_error f transaction_id w, failed f)

  -- The `finally` of commit.
  unfoldable pub finish_commit : Bool → Option String → W × Answer W Err → W × Answer W Err
  finish_commit dry_run transaction_id (w, answer) = (
    (write_log (end_mark dry_run) transaction_id none
        (update_records (start_mark dry_run) transaction_id w)).1,
    answer,
  )

  -- revert: the world, the plan, and whether it throws.
  unfoldable pub revert :
      List Module
      → Option String
      → CrupdeOperations
      → W
      → W × CrupdeOperations × Option (PhaseError W Err)
  revert installed transaction_id crupdes w =
      let started = (write_log start_revert transaction_id none w).1 in
      let (undone, plan, ok) = session.undo_changes installed crupdes started in
      let marked = update_records start_revert transaction_id undone in
      (
        (write_log end_revert transaction_id none marked).1,
        plan,
        if ok then none else some revert_failed,
      )
