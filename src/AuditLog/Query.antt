-- ===== src/AuditLog/Query.antt =====
-- The queries of modules/iasql_functions/iasql.ts on the audit log, and what it inserts there.
-- `orm` is the repository, `engine` the database user of the engine (`config.db.user`).
use iasql.Base.{
  ℕ, String, ◌==◌, Bool, true, false, not, ◌&&◌, Option, none, some, List, [], ◌∷◌, head?, take,
  any, beq, ltb, leb, if◌then◌else◌, map,
}
use iasql.AuditLog.{
  ChangeType, insert, update, delete, start_commit, preview_start_commit, end_commit,
  preview_end_commit, open_transaction, close_transaction, error, AuditLog, tag,
}
use iasql.AuditLog.Repo.{LogRepo, Table}

-- changeType: In([…])
abbrev pub is_one_of : List ChangeType → AuditLog → Bool
is_one_of types log = any (λ t. beq (tag t) (tag log.change_type)) types

abbrev pub commit_marks : List ChangeType
commit_marks = start_commit ∷ preview_start_commit ∷ end_commit ∷ preview_end_commit ∷ []

abbrev pub is_none : {A : Type 0} → Option A → Bool
is_none none = true
is_none (some _) = false

module _ (orm : LogRepo) (engine : String) where
  open orm use {find, next_id, save}

  -- isCommitRunning
  unfoldable pub is_commit_running : Table → Bool
  is_commit_running t =
      elim (head? (take 1 (find (λ l. is_one_of commit_marks l && not (l.user == engine)) t))) [
        | none ↦ false
        | some l ↦ is_one_of (start_commit ∷ preview_start_commit ∷ []) l
      ]

  -- `if (transactionId)`, `if (message)`: neither is set where the text is empty.
  abbrev pub unless_empty : Option String → Option String
  unless_empty none = none
  unless_empty (some s) = if s == "" then none else some s

  -- insertLog, with an `orm` that is not null: the new row, with the id that the database generates, and the table with it.
  unfoldable pub insert_log :
      Table → ℕ → ChangeType → Option String → Option String → AuditLog × Table
  insert_log t now change_type transaction_id message =
      let row : AuditLog = record {
        id = next_id t;
        ts = now;
        user = engine;
        table_name = "iasql_audit_log";
        change_type = change_type;
        change = record { original = none; change = none };
        message = unless_empty message;
        transaction_id = unless_empty transaction_id;
      } in
      (row, row ∷ t)

  -- insertErrorLog, with an `orm` that is not null
  unfoldable pub insert_error_log : Table → ℕ → String → Option String → Table
  insert_error_log t now err transaction_id =
      record {
        id = next_id t;
        ts = now;
        user = engine;
        table_name = "iasql_audit_log";
        change_type = error;
        change = record { original = none; change = none };
        message = some err;
        transaction_id = unless_empty transaction_id;
      }
      ∷ t

  -- getPreviousStartCommit
  unfoldable pub get_previous_start_commit : Table → ℕ → Option AuditLog
  get_previous_start_commit t current_ts =
      head? (take 2 (find (λ l. is_one_of (start_commit ∷ []) l && ltb l.ts current_ts) t))

  -- ts: Between(previous, new) or LessThan(new)
  abbrev pub in_window : AuditLog → Option AuditLog → ℕ → Bool
  in_window new_start (some previous) ts = leb previous.ts ts && leb ts new_start.ts
  in_window new_start none ts = ltb ts new_start.ts

  -- getChangesToCommit
  unfoldable pub get_changes_to_commit : Table → AuditLog → Option AuditLog → Table
  get_changes_to_commit t new_start previous =
      find
        (λ l.
          not (is_one_of commit_marks l)
          && in_window new_start previous l.ts
          && not (l.user == engine))
        t

  -- The query of getChangesAfterCommitStartedByEntity; `since` is the start of the commit.
  unfoldable pub get_changes_after_commit : Table → ℕ → Table
  get_changes_after_commit t since =
      find (λ l. not (is_one_of commit_marks l) && ltb since l.ts && not (l.user == engine)) t

  -- getChangeLogsSinceLastBegin; `none` is the error 'No open transaction'. `by_ts_and_id` is the
  -- repository's `find` with the further order `id: 'DESC'`.
  unfoldable pub get_change_logs_since_last_begin :
      ((AuditLog → Bool) → Table → Table) → Table → Option Table
  get_change_logs_since_last_begin by_ts_and_id t =
      elim (head? (find (is_one_of (open_transaction ∷ [])) t)) [
        | none ↦ none
        | some transaction ↦ some (
            by_ts_and_id
              (λ l. is_one_of (insert ∷ update ∷ delete ∷ []) l && ltb transaction.ts l.ts) t)
      ]

  -- isOpenTransaction
  unfoldable pub is_open_transaction : Table → Bool
  is_open_transaction t =
      elim (head? (take 1 (find (is_one_of (open_transaction ∷ close_transaction ∷ [])) t))) [
        | none ↦ false
        | some l ↦ is_one_of (open_transaction ∷ []) l
      ]

  -- getCurrentTransactionId. A transaction row without an id gives `null`, which is `none` here.
  unfoldable pub get_current_transaction_id : Table → Option String
  get_current_transaction_id t = elim (head? (find (is_one_of (open_transaction ∷ [])) t)) [
    | none ↦ some "<no-id-found>"
    | some l ↦ l.transaction_id
  ]

  abbrev pub with_transaction : Option String → AuditLog → AuditLog
  with_transaction none l = l
  with_transaction (some i) l = if i == "" then l else record l { transaction_id = some i }

  -- associateTransaction
  unfoldable pub associate_transaction : Table → Table → Option String → Table
  associate_transaction t changes transaction_id =
      save (map (with_transaction transaction_id) changes) t

  -- updateIasqlRecordsSince
  unfoldable pub update_iasql_records_since : Table → ChangeType → Option String → Table
  unfolding associate_transaction
  update_iasql_records_since t change_type transaction_id =
      elim (head? (find (is_one_of (change_type ∷ [])) t)) [
        | none ↦ t
        | some last ↦
            associate_transaction t
              (find
                (λ l.
                  is_one_of (insert ∷ update ∷ delete ∷ []) l
                  && is_none l.transaction_id
                  && ltb last.ts l.ts
                  && l.user == engine)
                t)
              transaction_id
      ]
