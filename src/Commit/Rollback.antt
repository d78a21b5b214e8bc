-- ===== src/Commit/Rollback.antt =====
-- rollback (modules/iasql_functions/iasql.ts): the log rows and the checks of a commit, around one sync
-- of all installed modules.
use iasql.Base.{
  ◌≡◌, refl, inl, inr, String, Bool, true, false, not, ◌&&◌, Option, none, some, List, ℕ, map,
  if◌then◌else◌, arith,
}
use iasql.Modules.{Module}
use iasql.ModSort.Found.{sort_found}
use iasql.AuditLog.Repo.{Table}
use iasql.AuditLog.Query.{
  is_commit_running, get_current_transaction_id, get_previous_start_commit, get_changes_to_commit,
  associate_transaction,
}
use iasql.AuditLog.Transactions.{passes_upgrade_check}
use iasql.AuditLog.{start_commit}
use iasql.Plan.{no_operations}
use iasql.Selection.{installed_modules, refuses_import, is_upgrading, Refused}
use iasql.Commit.{refused, not_connected, already_running, Answer, failed, Session, write_log}
use iasql.Commit.Phases.{run_sync, concluded, ended}
use iasql.Commit.Marks.{Ends, ended-HasEnded, busy-HasEnded}

module _ {W E Err : Type 0} (session : Session W E Err) (fuel : ℕ) where
  open session use {orm, engine, audit_log, set_audit_log}

  -- The sync of the installed modules in their order; `none` if sorting them does not end.
  abbrev pub sync_sorted : Option (List Module) → W → Option (W × Answer W Err)
  sync_sorted none w = none
  sync_sorted (some sorted) w =
      concluded session fuel false none none (run_sync session fuel false sorted no_operations w)

  unfoldable pub start_and_sync : Option String → W → Option (W × Answer W Err)
  start_and_sync transaction_id w0 =
      let (row, w1) = write_log session start_commit transaction_id none w0 in
      let previous = get_previous_start_commit orm engine (audit_log w1) row.ts in
      let changes = get_changes_to_commit orm engine (audit_log w1) row previous in
      let w2 =
        set_audit_log (associate_transaction orm engine (audit_log w1) changes transaction_id) w1 in
      let w3 = session.set_start row changes w2 in
      let names = session.installed_names w3 in
      sync_sorted (sort_found (map some (installed_modules session.all_modules names)) names) w3

  -- The `try` statement of rollback; without a connection `orm` stays null, and nothing is saved.
  unfoldable pub rollback_checked : Bool → W → Option (W × Answer W Err)
  rollback_checked force w =
      let transaction_id = get_current_transaction_id orm engine (audit_log w) in
      let run = ended session fuel false transaction_id (start_and_sync transaction_id w) in
      let with_orm =
        if not force && is_commit_running orm engine (audit_log w)
        then ended session fuel false none (some (w, failed already_running))
        else run in
      if session.connects w then with_orm else some (w, failed not_connected)

  abbrev pub rollback_imported : Bool → W → Option Refused → Option (W × Answer W Err)
  rollback_imported force w none = rollback_checked force w
  rollback_imported force w (some r) = some (w, failed (refused r))

  -- rollback; throwIfUpgrading and getImportedModules throw before the `try`.
  unfoldable pub rollback : Bool → W → Option (W × Answer W Err)
  rollback force w =
      let accepted = rollback_imported force w (
        refuses_import (session.version_string w) session.engine_version (session.upgrading w)
          force) in
      if passes_upgrade_check (session.upgrading w) force
      then accepted
      else some (w, failed (refused is_upgrading))

  -- A rollback that the checks of version and upgrade refuse, or that gets no connection, leaves the world
  -- as it is. Any other has the mark of the end of a commit as the newest row of the audit log, whether it
  -- succeeds or throws, and if it throws, what it throws stands in the log as an error.
  pub rollback-Ends :
      (force : Bool) (w : W) (r : W × Answer W Err)
      → ((t : Table) (v : W) → session.audit_log (session.set_audit_log t v) ≡ t)
      → rollback force w ≡ some r
      → Ends session fuel false force none w r
  unfolding rollback rollback_checked
  rollback-Ends force w r stored h = upgrade (passes_upgrade_check (session.upgrading w) force) h
    where
      current : Option String
      current = get_current_transaction_id orm engine (audit_log w)

      running :
          (b : Bool)
          → (not force && is_commit_running orm engine (audit_log w)) ≡ b
          → (if b
              then ended session fuel false none (some (w, failed already_running))
              else ended session fuel false current (start_and_sync current w))
            ≡ some r
          → Ends session fuel false force none w r
      running true b e =
          let (answer, ends) = busy-HasEnded session fuel false force none stored w r e in
          inr (inr (inl (ground arith, ground arith, answer, ends)))
      running false b e =
          inr (inr (inr (ended-HasEnded session fuel false force none stored current _ r e)))

      connected :
          (b : Bool)
          → session.connects w ≡ b
          → (if b
              then (if not force && is_commit_running orm engine (audit_log w)
                  then ended session fuel false none (some (w, failed already_running))
                  else ended session fuel false current (start_and_sync current w))
              else some (w, failed not_connected))
            ≡ some r
          → Ends session fuel false force none w r
      connected true b e = running (not force && is_commit_running orm engine (audit_log w)) refl e
      connected false b e = inr (inl (b, cc))

      version :
          (o : Option Refused)
          → rollback_imported force w o ≡ some r
          → Ends session fuel false force none w r
      version none e = connected (session.connects w) refl e
      version (some why) e = inl (why, cc)

      upgrade :
          (b : Bool)
          → (if b
              then rollback_imported force w (
                  refuses_import
                    (session.version_string w)
                    session.engine_version
                    (session.upgrading w)
                    force)
              else some (w, failed (refused is_upgrading)))
            ≡ some r
          → Ends session fuel false force none w r
      upgrade true e =
          version
            (refuses_import (session.version_string w) session.engine_version (session.upgrading w)
              force)
            e
      upgrade false e = inl (is_upgrading, cc)
