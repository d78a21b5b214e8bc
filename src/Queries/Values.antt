-- ===== src/Queries/Values.antt =====
-- The values that augmentValue and recreateSubQuery (modules/iasql_functions/iasql.ts) handle: JavaScript's
-- tests on them, the flags of a column, and the text of a sub-query.
use iasql.Base.{
  String, ◌==◌, Bool, true, false, not, ◌&&◌, ◌||◌, Option, none, some, List, [], ◌∷◌, ◌++◌, filter,
  includes, flat_map,
}
use iasql.Base.Dict.{Dict}
use iasql.Json.{Json, null, bool, num, str, Row}
use iasql.Queries.{
  Piece, words, ident, Argument, name, sql, Format, AugmentedValue, format_value, conditions,
}
use iasql.Queries.Metadata.{ColumnRelation, ColumnMetadata}

-- !!v
abbrev pub is_truthy : Json → Bool
is_truthy null = false
is_truthy (bool b) = b
is_truthy (num n) = not (n == "0" || n == "-0")
is_truthy (str s) = not (s == "")
is_truthy _ = true

-- v === w; arrays and objects that were read apart are not the same
abbrev pub same_bool : Bool → Bool → Bool
same_bool true b = b
same_bool false b = not b

abbrev pub is_identical : Json → Json → Bool
is_identical null null = true
is_identical (bool a) (bool b) = same_bool a b
is_identical (num a) (num b) = a == b
is_identical (str a) (str b) = a == b
is_identical _ _ = false

-- A property that is missing is undefined, which the queries treat as null.
abbrev pub json_or_null : Option Json → Json
json_or_null none = null
json_or_null (some v) = v

-- xs.pop()
abbrev pub last? : {A : Type 0} → List A → Option A
last? [] = none
last? (x ∷ []) = some x
last? (x ∷ y ∷ xs) = last? (y ∷ xs)

-- Promise.all(xs.map(f)), where a call can run out of fuel
abbrev pub collect : {A B : Type 0} → (A → Option B) → List A → Option (List B)
collect f [] = some []
collect f (x ∷ xs) = add (f x) (collect f xs)
  where
    add : {B : Type 0} → Option B → Option (List B) → Option (List B)
    add none ys = none
    add (some y) none = none
    add (some y) (some ys) = some (y ∷ ys)

-- Entities by name, as recreateEntitiesFromChangelogs gives them. One without properties is undefined;
-- the source throws where it looks for a property of it, and here it is passed over.
abbrev pub EntitiesByName : Type 0
EntitiesByName = Dict (List (Option Row))

abbrev pub rows_or_none : Option (List (Option Row)) → List (Option Row)
rows_or_none none = []
rows_or_none (some rs) = rs

abbrev pub defined_rows : List (Option Row) → List Row
defined_rows [] = []
defined_rows (none ∷ rs) = defined_rows rs
defined_rows (some r ∷ rs) = r ∷ defined_rows rs

-- !oc.relationMetadata
abbrev pub is_own : Option ColumnRelation → Bool
is_own none = true
is_own (some r) = false

-- ['simple-json', 'json', 'jsonb'].includes(type)
abbrev pub is_json_type : Option String → Bool
is_json_type none = false
is_json_type (some t) = includes ("simple-json" ∷ "json" ∷ "jsonb" ∷ []) t

abbrev pub named : String → List ColumnMetadata → Option ColumnMetadata
named key columns = last? (filter (λ (c : ColumnMetadata). c.database_name == key) columns)

-- The flags that the column sets.
abbrev pub with_column : Option ColumnMetadata → AugmentedValue → AugmentedValue
with_column none e = e
with_column (some c) e = record e {
  is_json = is_json_type c.type;
  is_array_column = not (is_json_type c.type) && c.is_array;
  type = c.type;
  is_primary = c.is_primary;
  is_autogenerated = c.is_generated;
}

abbrev pub plain_value : String → Json → AugmentedValue
plain_value key v = record {
  is_primary = false;
  is_autogenerated = false;
  key = key;
  value = v;
  is_json = false;
  is_sub_query = false;
  type = none;
  is_array_column = false;
  aws_resolve_support = false;
}

-- The template and the arguments of a sub-query: the template leaves out the columns with AWS resolve
-- support, the arguments do not.
unfoldable pub sub_query_template : Format → List AugmentedValue → List Piece
sub_query_template format es =
    (words "SELECT " ∷ ident ∷ words " FROM " ∷ ident ∷ words " WHERE " ∷ [])
    ++ conditions format es

unfoldable pub sub_query_arguments : Format → String → String → List AugmentedValue → List Argument
sub_query_arguments format key table es =
    (name key ∷ name table ∷ [])
    ++ flat_map (λ (e : AugmentedValue). name e.key ∷ sql (format_value format e) ∷ []) es
