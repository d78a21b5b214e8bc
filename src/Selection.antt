-- ===== src/Selection.antt =====
-- Which modules a commit works on (modules/iasql_functions/iasql.ts): getModulesWithChanges,
-- indexModsByTable, getImportedModules, and the search for a module by its name.
pub mod Closed
mod Tests
use iasql.Base.{
  ℕ, String, ◌<>◌, ◌==◌, Bool, true, false, not, ◌&&◌, Option, none, some, List, [], ◌∷◌, ◌++◌, map,
  filter, find?, any, includes, dedupe, flat_map, if◌then◌else◌,
}
use iasql.Base.Dict.{Dict, set}
use mathlib.Core.Option
use iasql.Modules.{Module, full_name}

-- Object.values(modules).find(m => `${m.name}@${m.version}` === n)
unfoldable pub find_module : List Module → String → Option Module
find_module modules n = find? (λ m. full_name m == n) modules

-- The modules that hold the engine itself are never attached as dependencies.
abbrev pub is_core : String → String → Bool
is_core version n =
    includes (("iasql_platform@" <> version) ∷ ("iasql_functions@" <> version) ∷ []) n

-- installedModules
unfoldable pub installed_modules : List Module → List String → List Module
installed_modules all_modules installed_names =
    filter (λ m. includes installed_names (full_name m)) all_modules

-- getInstalledModules, of the names that the database lists
unfoldable pub get_installed_modules : List Module → List String → List Module
unfolding installed_modules
get_installed_modules all_modules installed_names = installed_modules all_modules installed_names

unfoldable pub modules_directly_affected : List Module → List String → List Module
modules_directly_affected installed tables_with_changes =
    filter (λ m. any (λ t. includes tables_with_changes t) m.tables) installed

unfoldable pub affected_deps_names : List Module → List String → String → List String
affected_deps_names directly installed_names version = dedupe (
    filter (λ n. not (is_core version n))
      (flat_map (λ (m : Module). filter (λ d. not (includes installed_names d)) m.dependencies)
        directly))

-- getModulesWithChanges. A dependency without a module is `undefined`.
unfoldable pub get_modules_with_changes :
    List Module → List Module → List String → List String → String → List (Option Module)
get_modules_with_changes imported installed installed_names tables_with_changes version =
    let directly = modules_directly_affected installed tables_with_changes in
    map some directly
    ++ map (find_module imported) (affected_deps_names directly installed_names version)

unfoldable pub all_found : List (Option Module) → Option (List Module)
all_found [] = some []
all_found (none ∷ ms) = none
all_found (some m ∷ ms) = Option.map (λ rest. m ∷ rest) (all_found ms)

-- indexModsByTable
abbrev pub index_tables : Module → List String → Dict Module → Dict Module
index_tables m [] d = d
index_tables m (t ∷ ts) d = index_tables m ts (set d t m)

abbrev pub index_onto : Dict Module → List Module → Dict Module
index_onto d [] = d
index_onto d (m ∷ ms) = index_onto (index_tables m m.tables d) ms

unfoldable pub index_mods_by_table : List Module → Dict Module
index_mods_by_table mods = index_onto [] mods

pub data Refused : Type 0 where
  unsupported_version : String → Refused
  is_upgrading : Refused

-- getImportedModules: what it throws, if it does.
unfoldable pub refuses_import : String → String → Option Bool → Bool → Option Refused
refuses_import version_string engine_version upgrading force =
    if not (version_string == engine_version)
    then some (unsupported_version version_string)
    else elim upgrading [
      | none ↦ none
      | some u ↦ if not force && u then some is_upgrading else none
    ]

-- What `modules` lists of a module.
pub record Listed : Type 0 where
  pub module_name : String
  pub module_version : String
  pub dependencies : List String

abbrev pub listed : Module → Listed
listed m = record {
  module_name = m.name;
  module_version = m.version;
  dependencies = m.dependencies;
}

abbrev pub listed_name : Listed → String
listed_name l = l.module_name <> "@" <> l.module_version

-- modules, after throwIfUpgrading; `none` is the error 'Invalid request parameters'.
unfoldable pub modules : List Module → List String → Bool → Bool → String → Option (List Listed)
modules all_modules installed_names every installed db_id =
    if every
    then some (map listed all_modules)
    else if installed && not (db_id == "")
    then some (filter (λ l. includes installed_names (listed_name l)) (map listed all_modules))
    else none

-- indexModsByTable on a list with undefined modules throws, which is `none`.
unfoldable pub index_found : List (Option Module) → Option (Dict Module)
index_found mods = Option.map index_mods_by_table (all_found mods)

-- getChangesAfterCommitStartedByEntity, from the tables of the changes to the index of their modules.
unfoldable pub index_changed_modules :
    List Module → List String → List String → String → Option (Dict Module)
index_changed_modules imported installed_names tables version = index_found (
    get_modules_with_changes imported (installed_modules imported installed_names) installed_names
      (dedupe tables) version)
