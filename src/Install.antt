-- ===== src/Install.antt =====
-- install (modules/iasql_functions/iasql.ts), from the given names to the modules that it installs, and
-- the checks of uninstall. What follows runs SQL on the database.
pub mod Requested
pub mod Attach
pub mod Rounds
pub mod Removal
mod Tests
use iasql.Base.{
  ℕ, String, ◌<>◌, ◌==◌, Bool, true, false, not, ◌&&◌, ◌||◌, Option, none, some, List, [], ◌∷◌,
  ◌++◌, map, filter, find?, any, includes, dedupe, flat_map, if◌then◌else◌,
}
use iasql.Base.Dict.{Dict, get, set}
use iasql.Modules.{Module, full_name}
use iasql.Selection.{find_module, is_core}

-- What install and uninstall throw, with the names that the message lists.
pub data Problem : Type 0 where
  unsupported_version : String → Problem
  missing_modules : List String → Problem
  table_collisions : Dict (List String) → Problem
  not_defined : String → Problem
  still_needed_by : String → Problem
