-- ===== src/Modules.antt =====
-- modules/interfaces.ts: what the engine reads of a module (`ModuleInterface`).
use iasql.Base.{String, ◌<>◌, List}

pub record Module : Type 0 where
  pub name : String
  pub version : String
  pub dependencies : List String
  -- provides.tables; a module that provides none has the empty list
  pub tables : List String

-- `${m.name}@${m.version}`
unfoldable pub full_name : Module → String
full_name m = m.name <> "@" <> m.version
