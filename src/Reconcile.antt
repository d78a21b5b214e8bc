-- ===== src/Reconcile.antt =====
-- What `apply` and `sync` (modules/iasql_functions/iasql.ts) share: the mappers and the context that
-- they work with, the differences of one round.
-- `W` is the state of everything outside the loops: the memos of the context, the database and the
-- cloud. `E` is a reference to an entity object, whose fields live in `W`.
pub mod Parts
pub mod Apply
pub mod Sync
pub mod Rounds
pub mod Queried
pub mod NoWork
pub mod Spins
pub mod Settled
pub mod Preview
pub mod Halting
mod Tests
mod Refusing
use iasql.Base.{
  ℕ, zero, suc, ◌+◌, String, ◌==◌, Bool, true, false, not, ◌&&◌, Option, none, some, List, [], ◌∷◌,
  ◌++◌, map, filter, any, length, beq, if◌then◌else◌, flat_map,
}
use iasql.Base.Dict.{Dict, get}
use iasql.Diff.{Changed, DiffResult, find_diff}
use iasql.LazyDep.{Generator, Outcome, loaded, halted, lazy_loader}
use iasql.Plan.{PlanEntry, CrupdeOperations, IasqlPlan, Counts, record_count}

-- What a `Crud` operation gives back: the entities that it returns, none if it returns nothing, or
-- what it throws.
pub data Returned (E Err : Type 0) : Type 0 where
  entities : List E → Returned E Err
  threw : Err → Returned E Err

-- One of the modules' mappers (`MapperBase`): the modules' own code enters through it.
pub record Mapper (W E Err : Type 0) : Type 0 where
  pub entity_name : String
  pub source_is_db : Bool
  pub entity_id : W → E → String
  pub equals : W → E → E → Bool
  pub db_read : Generator W Err
  pub cloud_read : Generator W Err
  pub db_create : E → W → W × Returned E Err
  pub db_update : E → W → W × Returned E Err
  pub db_delete : E → W → W × Returned E Err
  pub cloud_create : E → W → W × Returned E Err
  pub cloud_update : E → W → W × Returned E Err
  pub cloud_delete : E → W → W × Returned E Err
  -- cloud.updateOrReplace(cloud, db) === 'update'
  pub is_update : W → E → E → Bool

-- The context: the memos, the objects, the connection and the queries for changed entities.
pub record Context (W E Err : Type 0) : Type 0 where
  -- context.orm = await TypeormWrapper.createConn(dbId)
  pub open_conn : W → W
  -- await context.orm.dropConn(); context.orm = oldOrm
  pub drop_conn : W → W
  -- context.memo.db = {}, context.memo.cloud = {}
  pub flush_db : W → W
  pub flush_cloud : W → W
  -- Object.values(context.memo.db[t]), or [] without such a table
  pub memo_db : W → String → List E
  pub memo_cloud : W → String → List E
  -- Object.keys(e2).forEach(k => (e[k] = e2[k])), as `assign e e2`
  pub assign : E → E → W → W
  -- if (db.id) cloud.id = db.id, as `copy_id db cloud`
  pub copy_id : E → E → W → W
  -- e?.id?.toString() ?? ''
  pub id_text : W → E → String
  -- getChangesAfterCommitStartedByEntity and getChangesByEntity; either may throw
  pub changes_after_commit : W → Option (Dict (List E))
  pub changes_by_entity : W → Option (Dict (List E))
  pub snake_case : String → String

-- What ends the function: the plan that it returns, or what it throws.
pub data Finish (W Err : Type 0) : Type 0 where
  returned : IasqlPlan → Finish W Err
  load_failed : List (Generator W Err) → List Err → Finish W Err
  query_failed : Finish W Err
  progress_halted : CrupdeOperations → Finish W Err

-- The variables of the loops. `counts` and `failure_count` are `none` where the source has -1.
pub record Loop (W E : Type 0) : Type 0 where
  pub world : W
  pub plan : CrupdeOperations
  pub changes_after : Dict (List E)
  pub ran_full_update : Bool
  pub failure_count : Option ℕ
  pub counts : Option Counts
  pub spin_count : ℕ
  pub records_touched : ℕ

pub data Step (W E Err : Type 0) : Type 0 where
  inner_again outer_again finished : Loop W E → Step W E Err
  stopped : Loop W E → Finish W Err → Step W E Err

-- One of the `records`, with its `diff`.
pub record Record (W E Err : Type 0) : Type 0 where
  pub mapper : Mapper W E Err
  pub diff : DiffResult E
