-- ===== src/Plan.antt =====
-- The plan of a commit (modules/iasql_functions/iasql.ts): what it creates, updates, replaces and
-- deletes, by the name of the entity, and the rows that it is shown as.
pub mod Rows
mod Tests
pub mod Columns
use iasql.Base.{
  ℕ, zero, suc, ◌+◌, String, ◌==◌, Bool, true, false, ◌&&◌, Option, none, some, List, [], ◌∷◌, ◌++◌,
  map, any, length, if◌then◌else◌, flat_map,
}
use iasql.Base.Dict.{Dict, get, set}

pub record PlanEntry : Type 0 where
  pub id : String
  pub description : String

-- type Crupde
abbrev pub Crupde : Type 0
Crupde = Dict (List PlanEntry)

-- type CrupdeOperations
pub record CrupdeOperations : Type 0 where
  pub to_create : Crupde
  pub to_update : Crupde
  pub to_replace : Crupde
  pub to_delete : Crupde

abbrev pub no_operations : CrupdeOperations
no_operations = record { to_create = []; to_update = []; to_replace = []; to_delete = [] }

pub data Action : Type 0 where
  create update replace delete : Action

pub record PlanRow : Type 0 where
  pub action : Action
  pub table_name : String
  pub id : String
  pub description : String

pub record IasqlPlan : Type 0 where
  pub iasql_plan_version : ℕ
  pub rows : List PlanRow

-- iasqlPlanV3; `snake_case` is TypeORM's.
module _ (snake_case : String → String) where
  abbrev pub row_of : Action → String → PlanEntry → PlanRow
  row_of action tbl rec = record {
    action = action;
    table_name = snake_case tbl;
    id = rec.id;
    description = rec.description;
  }

  -- One of the four `Object.keys(…).forEach` loops. A key's records are those that a lookup finds.
  abbrev pub rows_of : Action → Crupde → List PlanRow
  rows_of action crupde =
      flat_map (λ (entry : String × List PlanEntry). map (row_of action entry.0) entry.1) crupde

  unfoldable pub iasql_plan_v3 : CrupdeOperations → IasqlPlan
  iasql_plan_v3 c = record {
    iasql_plan_version = 3;
    rows =
        rows_of create c.to_create
        ++ (rows_of update c.to_update
            ++ (rows_of replace c.to_replace ++ rows_of delete c.to_delete));
  }

abbrev pub same_entry : PlanEntry → PlanEntry → Bool
same_entry a b = a.id == b.id && a.description == b.description

-- The second `forEach` of updateCommitPlan: an entry that is listed is not listed again.
unfoldable pub add_entries : List PlanEntry → List PlanEntry → List PlanEntry
add_entries listed [] = listed
add_entries listed (r ∷ rs) =
    add_entries (if any (λ r2. same_entry r2 r) listed then listed else listed ++ r ∷ []) rs

abbrev pub listed_or_empty : Option (List PlanEntry) → List PlanEntry
listed_or_empty none = []
listed_or_empty (some l) = l

-- updateCommitPlan. `entry` is an entity's `e?.id?.toString() ?? ''` with its `mapper.entityId(e)`.
unfoldable pub update_commit_plan :
    {E : Type 0} → (E → PlanEntry) → Crupde → String → List E → Crupde
unfolding add_entries
update_commit_plan entry crupde entity_name es =
    set crupde entity_name (add_entries (listed_or_empty (get crupde entity_name)) (map entry es))

-- recordCount, of the lengths of each record's three lists: database only, cloud only, changed.
pub record Counts : Type 0 where
  pub db : ℕ
  pub cloud : ℕ
  pub both : ℕ

unfoldable pub record_count : List Counts → Counts
record_count [] = record { db = 0; cloud = 0; both = 0 }
record_count (r ∷ records) =
    let rest = record_count records in
    record { db = r.db + rest.db; cloud = r.cloud + rest.cloud; both = r.both + rest.both }
