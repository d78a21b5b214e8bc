-- ===== src/Plan/Tests.antt =====
-- A plan for two buckets.
use iasql.Base.{◌≡◌, refl, String, ◌==◌, false, ◌||◌, List, [], ◌∷◌, map}
use iasql.Base.Dict.{get}
use iasql.Plan.{PlanEntry, Crupde, CrupdeOperations, PlanRow, create, update_commit_plan}
use iasql.Plan.Rows.{IsOnce, is_listed, entries_for, update_commit_plan-lists}

abbrev entry : String → PlanEntry
entry name = record { id = ""; description = name }

abbrev planned : Crupde
planned = ("Bucket", entry "logs" ∷ []) ∷ []

abbrev names : List String
names = "data" ∷ "logs" ∷ "data" ∷ []

update_commit_plan-lists_example :
    IsOnce (entries_for (update_commit_plan entry planned "Bucket" names) "Bucket")
    × ((x : PlanEntry)
        → is_listed (entries_for (update_commit_plan entry planned "Bucket" names) "Bucket") x
          ≡ (is_listed (entries_for planned "Bucket") x || is_listed (map entry names) x))
    × ((other : String)
        → ("Bucket" == other) ≡ false
        → get (update_commit_plan entry planned "Bucket" names) other ≡ get planned other)
unfolding get
update_commit_plan-lists_example = update_commit_plan-lists entry planned "Bucket" names (refl, tt)

abbrev operations : CrupdeOperations
operations = record { to_create = planned; to_update = []; to_replace = []; to_delete = [] }

abbrev bucket_row : PlanRow
bucket_row = record { action = create; table_name = "bucket"; id = ""; description = "logs" }

abbrev lower : String → String
lower s = "bucket"
