-- ===== src/Commit/Undo.antt =====
-- The body of revert's try block and applyInverseQueries (modules/iasql_functions/iasql.ts): the queries
-- that undo the changes of the open transaction, and an apply of all installed modules. It is what
-- `Session.undo_changes` stands for, with the rounds of the apply bounded by fuel.
use iasql.Base.{ℕ, ◌≡◌, refl, String, Bool, true, false, Option, none, some, List, [], ◌∷◌}
use iasql.Base.Dict.{Dict}
use iasql.Modules.{Module}
use iasql.AuditLog.{AuditLog}
use iasql.AuditLog.Repo.{Table}
use iasql.AuditLog.Query.{get_change_logs_since_last_begin}
use iasql.Plan.{CrupdeOperations}
use iasql.Selection.{index_mods_by_table}
use iasql.Queries.{Format}
use iasql.Queries.Metadata.{Schema}
use iasql.Queries.Values.{EntitiesByName}
use iasql.Queries.Recreate.{
  recreate_queries, Recreation, queries, type_error, too_deep, recreate_entities,
}
use iasql.Queries.Ranks.{IsSome}
use iasql.Queries.Flat.{queries_of_logs_flat}
use iasql.Commit.{Session}
use iasql.Commit.Phases.{Phase, done, skipped, threw, run_apply}

-- What is looked up for the queries, by the index of the modules, and how a query changes the world; a
-- query that fails is only logged.
pub record Database (W : Type 0) : Type 0 where
  pub schema : Dict Module → W → Schema
  pub format : Format
  pub query : String → W → W
  -- find({ where, order: { ts: 'DESC', id: 'DESC' } })
  pub find_by_ts_and_id : (AuditLog → Bool) → Table → Table

abbrev pub run_queries : {W : Type 0} → Database W → List String → W → W
run_queries db [] w = w
run_queries db (q ∷ qs) w = run_queries db qs (db.query q w)

module _ {W E Err : Type 0} (session : Session W E Err) (db : Database W) (fuel : ℕ) where
  -- The world, the plan, and whether it ends without throwing.
  abbrev pub applied : Phase W Err → W × CrupdeOperations × Bool
  applied (done w plan p) = (w, plan, true)
  applied (skipped w plan) = (w, plan, true)
  applied (threw w plan e) = (w, plan, false)

  abbrev pub applied_option : Option (Phase W Err) → Option (W × CrupdeOperations × Bool)
  applied_option none = none
  applied_option (some ph) = some (applied ph)

  unfoldable pub apply_inverse_queries :
      List String → List Module → CrupdeOperations → W → Option (W × CrupdeOperations × Bool)
  apply_inverse_queries qs installed crupdes w =
      applied_option (run_apply session fuel false installed false crupdes (run_queries db qs w))

  abbrev pub undo_recreated :
      List Module → CrupdeOperations → W → Recreation → Option (W × CrupdeOperations × Bool)
  undo_recreated installed crupdes w (queries qs) = apply_inverse_queries qs installed crupdes w
  undo_recreated installed crupdes w type_error = some (w, crupdes, false)
  undo_recreated installed crupdes w too_deep = none

  abbrev pub undo_logs :
      List Module → CrupdeOperations → W → Option Table → Option (W × CrupdeOperations × Bool)
  undo_logs installed crupdes w none = some (w, crupdes, false)
  undo_logs installed crupdes w (some logs) =
      undo_recreated installed crupdes w
        (recreate_queries (db.schema (index_mods_by_table installed) w) db.format 1 true false logs)

  -- The `try` block of revert.
  unfoldable pub undo_changes :
      List Module → CrupdeOperations → W → Option (W × CrupdeOperations × Bool)
  undo_changes installed crupdes w = undo_logs installed crupdes w (
      get_change_logs_since_last_begin session.orm session.engine db.find_by_ts_and_id
        (session.audit_log w))

  -- Where the apply ends, whatever the queries did to the world, undoing the changes ends: it needs no
  -- sub-queries.
  pub undo_changes-ends :
      (installed : List Module) (crupdes : CrupdeOperations) (w : W)
      → ((v : W) → IsSome (run_apply session fuel false installed false crupdes v))
      → IsSome (undo_changes installed crupdes w)
  unfolding undo_changes apply_inverse_queries recreate_queries
  undo_changes-ends installed crupdes w ends = by_logs (
      get_change_logs_since_last_begin session.orm session.engine db.find_by_ts_and_id
        (session.audit_log w))
    where
      schema : Schema
      schema = db.schema (index_mods_by_table installed) w

      by_apply : (o : Option (Phase W Err)) → IsSome o → IsSome (applied_option o)
      by_apply o (ph, e) = rw e (_, refl)

      by_logs : (o : Option Table) → IsSome (undo_logs installed crupdes w o)
      by_logs none = (_, refl)
      by_logs (some logs) = by_entities (recreate_entities schema logs []) refl
        where
          by_entities :
              (o : Option EntitiesByName)
              → recreate_entities schema logs [] ≡ o
              → IsSome (undo_logs installed crupdes w (some logs))
          by_entities none e = rw e (_, refl)
          by_entities (some found) e =
              let (qs, f) = queries_of_logs_flat schema db.format found 0 true logs in
              rw (e, f) (by_apply _ (ends (run_queries db qs w)))
