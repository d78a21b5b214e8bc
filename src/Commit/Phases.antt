-- ===== src/Commit/Phases.antt =====
-- The phases of commit (modules/iasql_functions/iasql.ts): apply for the modules with changes, apply for
-- all modules, revert, sync. Fuel bounds the rounds of each `apply` and `sync`.
use iasql.Base.{
  ℕ, String, ◌==◌, Bool, false, not, ◌&&◌, Option, none, some, List, map, length, dedupe, ltb,
  if◌then◌else◌, flat_map,
}
use iasql.Modules.{Module}
use iasql.ModSort.Found.{sort_found}
use iasql.AuditLog.{AuditLog, set_commit_message}
use iasql.AuditLog.Repo.{Table}
use iasql.AuditLog.Query.{
  is_commit_running, get_current_transaction_id, get_previous_start_commit, get_changes_to_commit,
  associate_transaction,
}
use iasql.Plan.{CrupdeOperations, IasqlPlan, no_operations}
use iasql.Reconcile.{Finish, returned, Loop}
use iasql.Reconcile.Apply.{apply}
use iasql.Reconcile.Sync.{sync}
use iasql.Selection.{installed_modules, get_modules_with_changes, refuses_import, is_upgrading}
use iasql.AuditLog.Transactions.{passes_upgrade_check}
use mathlib.Core.Option
use iasql.Commit.{
  PhaseError, unfinished, refused, not_connected, already_running, phases_failed, Answer, planned,
  failed, Session, start_mark, write_log, log_failure, finish_commit, revert,
}

-- How an `apply` or a `sync` ended, with the world and the plan so far; `skipped` if it was not called.
pub data Phase (W Err : Type 0) : Type 0 where
  done : W → CrupdeOperations → IasqlPlan → Phase W Err
  skipped : W → CrupdeOperations → Phase W Err
  threw : W → CrupdeOperations → PhaseError W Err → Phase W Err

-- What the setup finds: the modules to work on, in order, and whether the user changed anything.
pub record Setup : Type 0 where
  pub modules_with_changes : List (Option Module)
  pub with_changes_sorted : List Module
  pub installed_sorted : List Module
  pub has_changes : Bool

module _ {W E Err : Type 0} where
  -- The end of an `apply` or a `sync`, caught.
  abbrev pub caught : Loop W E × Finish W Err → Phase W Err
  caught (st, returned p) = done st.world st.plan p
  caught (st, f) = threw st.world st.plan (unfinished f)

  abbrev pub caught_option : Option (Loop W E × Finish W Err) → Option (Phase W Err)
  caught_option none = none
  caught_option (some r) = some (caught r)

  module _ (session : Session W E Err) (fuel : ℕ) (dry_run : Bool) where
    open session use {orm, engine, audit_log, set_audit_log, now, context, mappers_of}

    abbrev pub run_apply : List Module → Bool → CrupdeOperations → W → Option (Phase W Err)
    run_apply modules has_changes crupdes w =
        caught_option
          (apply context (flat_map mappers_of modules) dry_run has_changes crupdes fuel w)

    abbrev pub run_sync : List Module → CrupdeOperations → W → Option (Phase W Err)
    run_sync modules crupdes w =
        caught_option (sync context (flat_map mappers_of modules) dry_run crupdes fuel w)

    -- The errors of the phases, merged, or the plan of sync.
    abbrev pub conclude_phases :
        Option (PhaseError W Err) → Option (PhaseError W Err) → Phase W Err → W × Answer W Err
    conclude_phases none none (done w plan p) = (w, planned p)
    conclude_phases apply_err revert_err (done w plan p) =
        (w, failed (phases_failed none revert_err apply_err))
    conclude_phases apply_err revert_err (skipped w plan) =
        (w, failed (phases_failed none revert_err apply_err))
    conclude_phases apply_err revert_err (threw w plan e) =
        (w, failed (phases_failed (some e) revert_err apply_err))

    abbrev pub concluded :
        Option (PhaseError W Err)
        → Option (PhaseError W Err)
        → Option (Phase W Err)
        → Option (W × Answer W Err)
    concluded apply_err revert_err none = none
    concluded apply_err revert_err (some ph) = some (conclude_phases apply_err revert_err ph)

    -- From revert on: it runs if the last of the applies threw.
    abbrev pub after_applies : List Module → Option String → Phase W Err → Option (W × Answer W Err)
    after_applies installed transaction_id (done w plan p) =
        concluded none none (run_sync installed plan w)
    after_applies installed transaction_id (skipped w plan) =
        concluded none none (run_sync installed plan w)
    after_applies installed transaction_id (threw w plan e) =
        let (w', plan', revert_err) = revert session installed transaction_id plan w in
        concluded (some e) revert_err (run_sync installed plan' w')

    abbrev pub after_second :
        List Module → Option String → Option (Phase W Err) → Option (W × Answer W Err)
    after_second installed transaction_id none = none
    after_second installed transaction_id (some ph) = after_applies installed transaction_id ph

    -- After the first `apply`: a dry run returns; an error is followed by an `apply` for all modules.
    abbrev pub after_first :
        List Module → Option String → Option (Phase W Err) → Option (W × Answer W Err)
    after_first installed transaction_id none = none
    after_first installed transaction_id (some (done w plan p)) =
        let synced = after_applies installed transaction_id (done w plan p) in
        if dry_run then some (w, planned p) else synced
    after_first installed transaction_id (some (skipped w plan)) =
        after_applies installed transaction_id (skipped w plan)
    after_first installed transaction_id (some (threw w plan e)) =
        after_second installed transaction_id (run_apply installed false plan w)

    abbrev pub first_apply : Setup → W → Option (Phase W Err)
    first_apply setup w =
        let run = run_apply setup.with_changes_sorted setup.has_changes no_operations w in
        if ltb 0 (length setup.modules_with_changes) then run else some (skipped w no_operations)

    unfoldable pub run_phases : Setup → Option String → W → Option (W × Answer W Err)
    run_phases setup transaction_id w =
        after_first setup.installed_sorted transaction_id (first_apply setup w)

    -- From the start of the commit to the phases: the log rows, the changes to commit, the modules.
    -- `none` if sorting the modules does not end.
    abbrev pub sort_setup : List (Option Module) → List Module → List String → Bool → Option Setup
    sort_setup changed installed names has_changes = elim (sort_found changed names) [
      | none ↦ none
      | some first ↦
          Option.map
            (λ every. record {
              modules_with_changes = changed;
              with_changes_sorted = first;
              installed_sorted = every;
              has_changes = has_changes;
            })
            (sort_found (map some installed) names)
    ]

    abbrev pub set_up : Table → W → Option Setup
    set_up changes w =
        let names = session.installed_names w in
        let installed = installed_modules session.all_modules names in
        let tables = dedupe (map (λ (c : AuditLog). c.table_name) changes) in
        sort_setup
          (get_modules_with_changes session.all_modules installed names tables
            (session.version_string w))
          installed names (ltb 0 (length changes))

    abbrev pub with_setup : Option String → W → Option Setup → Option (W × Answer W Err)
    with_setup transaction_id w none = none
    with_setup transaction_id w (some setup) = run_phases setup transaction_id w

    abbrev pub with_message : Option String → Option String → W → W
    with_message none transaction_id w = w
    with_message (some m) transaction_id w =
        if m == "" then w else (write_log session set_commit_message transaction_id (some m) w).1

    unfoldable pub start_and_run : Option String → Option String → W → Option (W × Answer W Err)
    start_and_run message transaction_id w0 =
        let w1 = with_message message transaction_id w0 in
        let (row, w2) = write_log session (start_mark dry_run) transaction_id none w1 in
        let previous = get_previous_start_commit orm engine (audit_log w2) row.ts in
        let changes = get_changes_to_commit orm engine (audit_log w2) row previous in
        let w3 =
          set_audit_log (associate_transaction orm engine (audit_log w2) changes transaction_id)
            w2 in
        let w4 = session.set_start row changes w3 in
        with_setup transaction_id w4 (set_up changes w4)

    -- The `catch` and the `finally`.
    abbrev pub ended : Option String → Option (W × Answer W Err) → Option (W × Answer W Err)
    ended transaction_id none = none
    ended transaction_id (some r) =
        some (finish_commit session dry_run transaction_id (log_failure session transaction_id r))

    -- The `try` statement of commit. Without a connection the `orm` of its `catch` and `finally` is still
    -- null, and they save nothing.
    unfoldable pub commit_checked : Bool → Option String → W → Option (W × Answer W Err)
    commit_checked force message w =
        let transaction_id = get_current_transaction_id orm engine (audit_log w) in
        let run = ended transaction_id (start_and_run message transaction_id w) in
        let with_orm =
          if not force && is_commit_running orm engine (audit_log w)
          then ended none (some (w, failed already_running))
          else run in
        if session.connects w then with_orm else some (w, failed not_connected)

    -- commit; throwIfUpgrading and getImportedModules throw before the `try`.
    unfoldable pub commit : Bool → Option String → W → Option (W × Answer W Err)
    commit force message w =
        let accepted : Option (W × Answer W Err) =
          elim (refuses_import (session.version_string w) session.engine_version
            (session.upgrading w) force) [
              | none ↦ commit_checked force message w
              | some r ↦ some (w, failed (refused r))
            ] in
        if passes_upgrade_check (session.upgrading w) force
        then accepted
        else some (w, failed (refused is_upgrading))
