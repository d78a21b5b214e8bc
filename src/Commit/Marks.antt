-- ===== src/Commit/Marks.antt =====
-- What every commit leaves behind in the audit log.
use iasql.Base.{
  ℕ, ◌≡◌, ◌⊎◌, sym, ap, subst, inr, refl, String, Bool, true, false, Option, none, some, ◌∷◌,
}
use iasql.Base.Members.{In}
use iasql.AuditLog.{AuditLog, error}
use iasql.AuditLog.Repo.{Table}
use iasql.AuditLog.Query.{
  insert_log, insert_error_log, get_current_transaction_id, unless_empty, is_commit_running,
  update_iasql_records_since,
}
use iasql.AuditLog.Kept.{update-keeps}
use iasql.Selection.{Refused}
use iasql.Commit.{
  refused, not_connected, already_running, Failure, Answer, planned, failed, Session, start_mark,
  end_mark, write_error, finish_commit,
}
use iasql.Commit.Phases.{ended}

module _ {W E Err : Type 0} (session : Session W E Err) (fuel : ℕ) (dry_run force : Bool)
    (message : Option String) where
  -- The newest row is the engine's mark of the end, in the transaction that was open at the start.
  abbrev pub EndsMarked : Option String → W → Type 0
  EndsMarked transaction_id w =
      (row : AuditLog) × (rest : Table) × (session.audit_log w ≡ row ∷ rest)
      × (row.change_type ≡ end_mark dry_run)
      × (row.user ≡ session.engine)
      × (row.transaction_id ≡ unless_empty session.orm session.engine transaction_id)

  abbrev pub WasRefused : W → W × Answer W Err → Type 0
  WasRefused w r = (why : Refused) × (r ≡ (w, failed (refused why)))

  -- No connection: nothing is saved.
  abbrev pub WasUnconnected : W → W × Answer W Err → Type 0
  WasUnconnected w r = (session.connects w ≡ false) × (r ≡ (w, failed not_connected))

  -- What is thrown stands in the log as an error.
  abbrev pub LogsFailure : W × Answer W Err → Type 0
  LogsFailure (w, planned p) = Unit
  LogsFailure (w, failed f) =
      (x : AuditLog) × In x (session.audit_log w)
      × (x.change_type ≡ error)
      × (x.message ≡ some (session.error_text f))

  abbrev error_row : Option String → W → Failure W Err → AuditLog
  error_row transaction_id w f = record {
    id = session.orm.next_id (session.audit_log w);
    ts = session.now w;
    user = session.engine;
    table_name = "iasql_audit_log";
    change_type = error;
    change = record { original = none; change = none };
    message = some (session.error_text f);
    transaction_id = unless_empty session.orm session.engine transaction_id;
  }

  abbrev pub HasEnded : Option String → W × Answer W Err → Type 0
  HasEnded transaction_id r = EndsMarked transaction_id r.0 × LogsFailure r

  -- The end of a commit that found another one running.
  abbrev pub WasBusy : W → W × Answer W Err → Type 0
  WasBusy w r =
      (force ≡ false)
      × (is_commit_running session.orm session.engine (session.audit_log w) ≡ true)
      × (r.1 ≡ failed already_running)
      × HasEnded none r

  module _ (stored : (t : Table) (w : W) → session.audit_log (session.set_audit_log t w) ≡ t) where
    finish_commit-EndsMarked :
        (transaction_id : Option String) (r : W × Answer W Err)
        → EndsMarked transaction_id (finish_commit session dry_run transaction_id r).0
    unfolding finish_commit insert_log
    finish_commit-EndsMarked transaction_id (w, answer) = (_, _, stored _ _, refl, refl, refl)

    -- The error that was logged stays when the rows of the commit get their transaction.
    finish_commit-LogsFailure :
        (transaction_id : Option String) (w : W) (f : Failure W Err)
        → LogsFailure (
            finish_commit session dry_run transaction_id
              (write_error session f transaction_id w, failed f))
    unfolding finish_commit insert_log insert_error_log
    finish_commit-LogsFailure transaction_id w f =
        (error_row transaction_id w f, rw stored (inr (rw stored (rw stored kept))), refl, refl)
      where
        kept : In (error_row transaction_id w f) (
            update_iasql_records_since session.orm session.engine
              (insert_error_log session.orm session.engine
                (session.audit_log w)
                (session.now w)
                (session.error_text f)
                transaction_id)
              (start_mark dry_run)
              transaction_id)
        kept =
            update-keeps session.orm session.engine (error_row transaction_id w f)
              (session.audit_log w) refl (session.orm.next_id_fresh (session.audit_log w))
              (start_mark dry_run) transaction_id

    pub ended-HasEnded :
        (transaction_id : Option String) (run : Option (W × Answer W Err)) (r : W × Answer W Err)
        → ended session fuel dry_run transaction_id run ≡ some r
        → HasEnded transaction_id r
    ended-HasEnded transaction_id none r e = absurd (cc)
    ended-HasEnded transaction_id (some (w, planned p)) r e =
        let same : finish_commit session dry_run transaction_id (w, planned p) ≡ r = cc in
        subst (HasEnded transaction_id) same
          (finish_commit-EndsMarked transaction_id (w, planned p), unfold finish_commit in tt)
    ended-HasEnded transaction_id (some (w, failed f)) r e =
        let same : finish_commit session dry_run transaction_id
              (write_error session f transaction_id w, failed f)
            ≡ r =
          cc in
        subst (HasEnded transaction_id) same (
          finish_commit-EndsMarked transaction_id
              (write_error session f transaction_id w, failed f),
          finish_commit-LogsFailure transaction_id w f,
        )

    pub busy-HasEnded :
        (w : W) (r : W × Answer W Err)
        → ended session fuel dry_run none (some (w, failed already_running)) ≡ some r
        → (r.1 ≡ failed already_running) × HasEnded none r
    unfolding finish_commit
    busy-HasEnded w r e =
        let same : finish_commit session dry_run none
              (write_error session already_running none w, failed already_running)
            ≡ r =
          cc in
        (
          sym (ap (λ (x : W × Answer W Err). x.1) same),
          ended-HasEnded none (some (w, failed already_running)) r e,
        )

  -- How a commit ends, past the checks or not.
  abbrev pub Ends : W → W × Answer W Err → Type 0
  Ends w r =
      WasRefused w r
      ⊎ WasUnconnected w r
      ⊎ WasBusy w r
      ⊎ HasEnded (get_current_transaction_id session.orm session.engine (session.audit_log w)) r
