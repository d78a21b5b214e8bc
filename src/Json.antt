-- ===== src/Json.antt =====
-- JSON values, as the audit log's `change` column holds them. A number is the text of its literal.
use iasql.Base.{Bool, true, false, String}
use iasql.Base.Dict.{Dict}

mutual
  pub data Json : Type 0 where
    null : Json
    bool : Bool → Json
    num : String → Json
    str : String → Json
    arr : Items → Json
    obj : Fields → Json

  pub data Items : Type 0 where
    nil : Items
    cons : Json → Items → Items

  pub data Fields : Type 0 where
    end : Fields
    field : String → Json → Fields → Fields

-- A table row: its columns by name.
abbrev pub Row : Type 0
Row = Dict Json

-- v !== null
abbrev pub is_not_null : Json → Bool
is_not_null null = false
is_not_null _ = true

-- Array.isArray(v)
abbrev pub is_array : Json → Bool
is_array (arr xs) = true
is_array _ = false
