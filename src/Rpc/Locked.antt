-- ===== src/Rpc/Locked.antt =====
-- rpcCall (router/db.ts) and the transaction lock: when a call runs under it, and when it is released.
use iasql.Base.{
  ◌≡◌, ◌≢◌, ◌⊎◌, refl, ap, inl, inr, String, ◌<>◌, eq_iff, Bool, true, false, Option, none, some,
  [], ◌∷◌, if◌then◌else◌, arith,
}
use iasql.AuditLog.Repo.{Table}
use iasql.AuditLog.Locking.{
  IsBefore, IsTimely, close_transaction-closes, maybe_open_transaction_lem,
}
use iasql.Commit.{merge_error_messages}
use iasql.Rpc.{
  PreTransactionCheck, wait_for_lock, fail_if_not_locked, PostTransactionCheck, unlock_if_succeed,
  unlock_always, Thrown, message, Result, gave, threw, Server, is_locked, unlock, before_call,
  has_thrown, after_call, answer, call_and_check, checked, rpc_call,
}

merged :
    (m n : String)
    → m ≢ ""
    → n ≢ ""
    → m ≢ n
    → merge_error_messages (some m ∷ some n ∷ []) ≡ m <> "\n" <> n
unfolding merge_error_messages
merged m n hm hn apart = ground (arith, eq_iff m "", eq_iff n "", eq_iff m n, hm, hn, apart)

held : (b : Bool) (e : Thrown) → Path (Option Thrown) (if b then none else some e) none → b ≡ true
held true e h = refl
held false e h = absurd (cc)

module _ {W A : Type 0} (server : Server W A)
    (audit_log-set : (t : Table) (w : W) → server.audit_log (server.set_audit_log t w) ≡ t) where
  unlock-Unlocked :
      (w : W)
      → IsBefore (server.now w) (server.audit_log w)
      → is_locked server (unlock server w) ≡ false
  unfolding is_locked unlock
  unlock-Unlocked w before =
      rw (audit_log-set) (
        close_transaction-closes server.orm server.engine (server.audit_log w) (server.now w)
          before)

  -- The call takes the lock, or demands it.
  abbrev pub IsGuarded : Option PreTransactionCheck → Type 0
  IsGuarded pre = (pre ≡ some wait_for_lock) ⊎ (pre ≡ some fail_if_not_locked)

  verdict :
      (post : Option PostTransactionCheck) (v : W × Option Thrown)
      → (v.1 ≡ none → is_locked server v.0 ≡ true)
      → ((e : Thrown) × (checked server post v ≡ (v.0, threw e)))
        ⊎ ((is_locked server v.0 ≡ true) × (checked server post v ≡ call_and_check server post v.0))
  verdict post (w, some e) h = inl (e, refl)
  verdict post (w, none) h = inr (h refl, refl)

  before_call-locked :
      (pre : Option PreTransactionCheck) (w : W)
      → IsGuarded pre
      → IsTimely server.orm server.engine (server.surroundings w) 120 (server.audit_log w)
      → (before_call server pre w).1 ≡ none
      → is_locked server (before_call server pre w).0 ≡ true
  unfolding before_call is_locked
  before_call-locked pre w (inl e) timely passed =
      rw (e, audit_log-set)
        ((maybe_open_transaction_lem server.orm server.engine (server.surroundings w)
            (server.audit_log w) timely).0
          (held _ _ (rw e at passed))).0
  before_call-locked pre w (inr e) timely passed = rw e (held _ _ (rw e at passed))

  -- A check that takes or demands the lock either throws, and then nothing is called, or the call is made
  -- while the lock is held. (While the lock is awaited, the clock is past all rows at every poll.)
  pub rpc_call-locked :
      (pre : Option PreTransactionCheck) (post : Option PostTransactionCheck) (w : W)
      → IsGuarded pre
      → IsTimely server.orm server.engine (server.surroundings w) 120 (server.audit_log w)
      → ((e : Thrown) × (rpc_call server pre post w ≡ ((before_call server pre w).0, threw e)))
        ⊎ ((is_locked server (before_call server pre w).0 ≡ true)
            × (rpc_call server pre post w
                ≡ call_and_check server post (before_call server pre w).0))
  unfolding rpc_call
  rpc_call-locked pre post w guarded timely =
      verdict post (before_call server pre w) (before_call-locked pre w guarded timely)

  -- With UNLOCK_ALWAYS, and with UNLOCK_IF_SUCCEED where the call does not throw, no transaction is open
  -- after an RPC whose first check passed, and the result is the call's. (The clock is past all rows.)
  pub rpc_call-unlocked :
      (pre : Option PreTransactionCheck) (post : PostTransactionCheck) (w w1 w2 : W) (r : Result A)
      → before_call server pre w ≡ (w1, none)
      → (server.call w1 ≡ (w2, r))
      → (post ≡ unlock_always) ⊎ ((post ≡ unlock_if_succeed) × (has_thrown server r ≡ false))
      → IsBefore (server.now w2) (server.audit_log w2)
      → (is_locked server (rpc_call server pre (some post) w).0 ≡ false)
        × ((rpc_call server pre (some post) w).1 ≡ r)
  unfolding rpc_call call_and_check after_call answer
  rpc_call-unlocked pre post w w1 w2 r passed called (inl e) before =
      rw (passed, e, called) (unlock-Unlocked w2 before, unanswered r)
    where
      unanswered : (r : Result A) → answer server r none ≡ r
      unanswered (gave a) = refl
      unanswered (threw t) = refl
  rpc_call-unlocked pre post w w1 w2 (threw t) passed called (inr (e, h)) before = absurd (cc (h))
  rpc_call-unlocked pre post w w1 w2 (gave a) passed called (inr (e, h)) before =
      rw (passed, e, called) (unlock-Unlocked w2 before, refl)

  -- Where no check is asked for after the call, and both the call and the commit that then follows
  -- throw, the lock is released, and both messages are reported, on a line each. (The messages
  -- differ and are not empty, and the clock is past all rows.)
  pub rpc_call-reports_both :
      (pre : Option PreTransactionCheck) (w w1 w2 w3 : W) (m n : String)
      → before_call server pre w ≡ (w1, none)
      → (server.call w1 ≡ (w2, threw (message m)))
      → (server.iasql_commit w2 ≡ (w3, some (message n)))
      → m ≢ ""
      → n ≢ ""
      → m ≢ n
      → IsBefore (server.now w3) (server.audit_log w3)
      → (is_locked server (rpc_call server pre none w).0 ≡ false)
        × ((rpc_call server pre none w).1 ≡ threw (message (m <> "\n" <> n)))
  unfolding rpc_call call_and_check after_call answer merge_error_messages
  rpc_call-reports_both pre w w1 w2 w3 m n passed called failed hm hn apart before =
      rw (passed, called, failed)
        (unlock-Unlocked w3 before, ap (λ s. threw (message s)) (merged m n hm hn apart))
