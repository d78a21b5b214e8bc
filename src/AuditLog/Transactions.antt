-- ===== src/AuditLog/Transactions.antt =====
-- maybeOpenTransaction and closeTransaction (modules/iasql_functions/iasql.ts), and throwIfUpgrading.
use iasql.Base.{
  ℕ, zero, suc, String, Bool, true, false, not, ◌&&◌, ◌||◌, Option, none, some, if◌then◌else◌,
}
use iasql.AuditLog.{open_transaction, close_transaction}
use iasql.AuditLog.Repo.{LogRepo, Table}
use iasql.AuditLog.Query.{
  is_commit_running, insert_log, is_open_transaction, get_current_transaction_id,
  update_iasql_records_since,
}

-- What the loop meets at the poll after which `loops` are left: the time, the generated `uuidv4()`,
-- and what other sessions do to the table while it sleeps.
pub record Surroundings : Type 0 where
  pub clock : ℕ → ℕ
  pub uuid : ℕ → String
  pub others : ℕ → Table → Table

-- The table, and whether the call returns (`false`: it throws).
pub record Attempt : Type 0 where
  pub table : Table
  pub opened : Bool

module _ (orm : LogRepo) (engine : String) where
  abbrev pub is_busy : Table → Bool
  is_busy t = is_commit_running orm engine t || is_open_transaction orm engine t

  unfoldable pub try_open : Surroundings → ℕ → Table → Attempt
  try_open env zero t = record { table = t; opened = false }
  try_open env (suc loops) t =
      let again = try_open env loops (env.others loops t) in
      if is_busy t then again else record {
        table =
            (insert_log orm engine t (env.clock loops) open_transaction (some (env.uuid loops))
              none).1;
        opened = true;
      }

  -- maybeOpenTransaction, with its 120 polls
  unfoldable pub maybe_open_transaction : Surroundings → Table → Attempt
  maybe_open_transaction env t = try_open env 120 t

  -- closeTransaction
  unfoldable pub close_transaction_of : Table → ℕ → Table
  close_transaction_of t now =
      let current = get_current_transaction_id orm engine t in
      let t' = update_iasql_records_since orm engine t open_transaction current in
      (insert_log orm engine t' now close_transaction current none).1

-- throwIfUpgrading: `upgrading` is the flag of the database's metadata, `none` where it has none.
unfoldable pub passes_upgrade_check : Option Bool → Bool → Bool
passes_upgrade_check none force = true
passes_upgrade_check (some upgrading) force = not (not force && upgrading)
