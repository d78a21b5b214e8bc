-- ===== src/Rpc.antt =====
-- rpcCall (router/db.ts): a call of a module's RPC between the checks of the transaction lock. The
-- world `W` holds the audit log; the RPC and the queries iasql_begin() and iasql_commit() are
-- parameters, as is what the other sessions do while the lock is awaited.
pub mod Locked
pub mod Contexts
mod Tests
use iasql.Base.{ℕ, String, Bool, true, false, Option, none, some, List, [], ◌∷◌, if◌then◌else◌}
use iasql.AuditLog.Repo.{LogRepo, Table}
use iasql.AuditLog.Query.{is_open_transaction}
use iasql.AuditLog.Transactions.{
  Surroundings, Attempt, maybe_open_transaction, close_transaction_of,
}
use iasql.Commit.{merge_error_messages}

pub data PreTransactionCheck : Type 0 where
  no_check wait_for_lock fail_if_not_locked : PreTransactionCheck

pub data PostTransactionCheck : Type 0 where
  skip_check unlock_if_succeed unlock_always : PostTransactionCheck

-- An error is its message.
pub data Thrown : Type 0 where
  message : String → Thrown

-- What a call does to the world, and what it gives or throws.
pub data Result (A : Type 0) : Type 0 where
  gave : A → Result A
  threw : Thrown → Result A

pub record Server (W A : Type 0) : Type 0 where
  pub orm : LogRepo
  pub engine : String
  pub audit_log : W → Table
  pub set_audit_log : Table → W → W
  pub surroundings : W → Surroundings
  pub now : W → ℕ
  -- conn.query('select * from iasql_begin();') and iasql_commit()
  pub iasql_begin : W → W × Option Thrown
  pub iasql_commit : W → W × Option Thrown
  -- Modules[moduleInstanceName]?.rpc?.[methodname].call(...)
  pub call : W → W × Result A

abbrev pub text : Thrown → Option String
text (message m) = some m

module _ {W A : Type 0} (server : Server W A) where
  unfoldable pub is_locked : W → Bool
  is_locked w = is_open_transaction server.orm server.engine (server.audit_log w)

  -- closeTransaction
  unfoldable pub unlock : W → W
  unlock w =
      server.set_audit_log
        (close_transaction_of server.orm server.engine (server.audit_log w) (server.now w)) w

  abbrev pub attempted : W → Attempt → W × Option Thrown
  attempted w a = (
    server.set_audit_log a.table w,
    if a.opened
        then none
        else some (message "Another transaction is open or running. Please try again later."),
  )

  -- The first switch; `none` is its default case.
  unfoldable pub before_call : Option PreTransactionCheck → W → W × Option Thrown
  before_call (some no_check) w = (w, none)
  before_call (some fail_if_not_locked) w = (
    w,
    if is_locked w
        then none
        else some (message "Cannot execute without calling iasql_begin() first"),
  )
  before_call (some wait_for_lock) w =
      attempted w (
        maybe_open_transaction server.orm server.engine (server.surroundings w)
          (server.audit_log w))
  before_call none w = server.iasql_begin w

  abbrev pub has_thrown : Result A → Bool
  has_thrown (gave a) = false
  has_thrown (threw e) = true

  abbrev pub committed : W × Option Thrown → W × Option Thrown
  committed (w, none) = (w, none)
  committed (w, some e) = (unlock w, some e)

  -- The second switch, by the result of the call: the world, and commitErr.
  unfoldable pub after_call : Option PostTransactionCheck → Result A → W → W × Option Thrown
  after_call (some skip_check) r w = (w, none)
  after_call (some unlock_if_succeed) r w = (if has_thrown r then w else unlock w, none)
  after_call (some unlock_always) r w = (unlock w, none)
  after_call none r w = committed (server.iasql_commit w)

  -- The end of rpcCall, from rpcRes or rpcErr, and commitErr.
  unfoldable pub answer : Result A → Option Thrown → Result A
  answer (threw e) (some c) = threw (message (merge_error_messages (text e ∷ text c ∷ [])))
  answer (threw e) none = threw e
  answer (gave a) (some c) = threw c
  answer (gave a) none = gave a

  unfoldable pub call_and_check : Option PostTransactionCheck → W → W × Result A
  call_and_check post w =
      let (w1, r) = server.call w in let (w2, e) = after_call post r w1 in (w2, answer r e)

  abbrev pub checked : Option PostTransactionCheck → W × Option Thrown → W × Result A
  checked post (w, some e) = (w, threw e)
  checked post (w, none) = call_and_check post w

  unfoldable pub rpc_call :
      Option PreTransactionCheck → Option PostTransactionCheck → W → W × Result A
  rpc_call pre post w = checked post (before_call pre w)
