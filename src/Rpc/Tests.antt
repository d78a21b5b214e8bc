-- ===== src/Rpc/Tests.antt =====
-- A server whose world is the audit log alone: calls that give, and that throw.
use iasql.Base.{
  ℕ, zero, suc, ◌<◌, ◌≡◌, ◌⊎◌, inr, refl, String, eq_iff, true, false, none, some, [], ◌∷◌, arith,
}
use iasql.Base.Members.{All-In}
use iasql.AuditLog.{open_transaction, AuditLog}
use iasql.AuditLog.Repo.{Table}
use iasql.AuditLog.Memory.{memory_repo}
use iasql.AuditLog.Transactions.{Surroundings}
use iasql.AuditLog.Locking.{IsBefore, IsTimely}
use iasql.Rpc.{
  Server, fail_if_not_locked, skip_check, unlock_if_succeed, Thrown, message, Result, gave, threw,
  is_locked, before_call, rpc_call, call_and_check, no_check,
}
use iasql.Rpc.Locked.{rpc_call-locked, rpc_call-unlocked, rpc_call-reports_both}

abbrev opened : AuditLog
opened = record {
  id = 1;
  ts = 10;
  user = "iasql";
  table_name = "iasql_audit_log";
  change_type = open_transaction;
  change = record { original = none; change = none };
  message = none;
  transaction_id = some "6f1c";
}

abbrev log : Table
log = opened ∷ []

abbrev quiet : Surroundings
quiet = record { clock = λ n. 50; uuid = λ n. "77aa"; others = λ n t. t }

abbrev server_of : Result String → Server Table String
server_of r = record {
  orm = memory_repo;
  engine = "iasql";
  audit_log = λ w. w;
  set_audit_log = λ t w. t;
  surroundings = λ w. quiet;
  now = λ w. 50;
  iasql_begin = λ w. (w, none);
  iasql_commit = λ w. (w, some (message "commit failed"));
  call = λ w. (w, r);
}

log-IsBefore : IsBefore 50 log
log-IsBefore x m = All-In (λ y. y.ts < 50) x log (omega arith, tt) m

quiet-IsTimely : (n : ℕ) → IsTimely memory_repo "iasql" quiet n log
quiet-IsTimely zero = tt
quiet-IsTimely (suc n) = (log-IsBefore, λ q. ground (arith, q, eq_iff "77aa" ""), quiet-IsTimely n)

rpc_call-locked_example :
    ((e : Thrown) × (rpc_call
          (server_of (gave "ok"))
          (some fail_if_not_locked)
          (some skip_check)
          log
        ≡ ((before_call (server_of (gave "ok")) (some fail_if_not_locked) log).0, threw e)))
    ⊎ ((is_locked
            (server_of (gave "ok"))
            (before_call (server_of (gave "ok")) (some fail_if_not_locked) log).0
          ≡ true)
        × (rpc_call (server_of (gave "ok")) (some fail_if_not_locked) (some skip_check) log
            ≡ call_and_check
                (server_of (gave "ok"))
                (some skip_check)
                (before_call (server_of (gave "ok")) (some fail_if_not_locked) log).0))
rpc_call-locked_example =
    rpc_call-locked (server_of (gave "ok")) (λ t w. refl) (some fail_if_not_locked)
      (some skip_check) log (inr refl) (quiet-IsTimely 120)

rpc_call-unlocked_example :
    (is_locked
        (server_of (gave "ok"))
        (rpc_call (server_of (gave "ok")) (some no_check) (some unlock_if_succeed) log).0
      ≡ false)
    × ((rpc_call (server_of (gave "ok")) (some no_check) (some unlock_if_succeed) log).1
        ≡ gave "ok")
unfolding before_call
rpc_call-unlocked_example =
    rpc_call-unlocked (server_of (gave "ok")) (λ t w. refl) (some no_check) unlock_if_succeed log
      log log (gave "ok") refl refl (inr (refl, refl)) log-IsBefore

rpc_call-reports_both_example :
    (is_locked
        (server_of (threw (message "no such bucket")))
        (rpc_call (server_of (threw (message "no such bucket"))) none none log).0
      ≡ false)
    × ((rpc_call (server_of (threw (message "no such bucket"))) none none log).1
        ≡ threw (message "no such bucket\ncommit failed"))
unfolding before_call
rpc_call-reports_both_example =
    rpc_call-reports_both (server_of (threw (message "no such bucket"))) (λ t w. refl) none log log
      log log "no such bucket" "commit failed" refl refl refl
      (λ q. ground (arith, q, eq_iff "no such bucket" ""))
      (λ q. ground (arith, q, eq_iff "commit failed" ""))
      (λ q. ground (arith, q, eq_iff "no such bucket" "commit failed")) log-IsBefore
