-- ===== src/Queries.antt =====
-- The SQL that undoes or repeats the changes of the audit log (modules/iasql_functions/iasql.ts):
-- getFormattedQuery and formatValue. `format` of pg-format is a parameter; a template is the list of
-- its pieces, with the texts between the placeholders as the source has them.
mod Text
pub mod Metadata
pub mod Values
pub mod Ranks
pub mod Augment
pub mod Recreate
pub mod Arguments
pub mod Depth
pub mod SubQuery
pub mod Results
pub mod Flat
pub mod Changes
mod Tests
pub use Text.*
use iasql.Base.{
  String, ◌<>◌, ◌==◌, Bool, true, false, not, ◌&&◌, ◌||◌, Option, none, some, List, [], ◌∷◌, ◌++◌,
  map, filter, flat_map, if◌then◌else◌,
}
use iasql.Json.{Json, str, is_array}
use iasql.AuditLog.{ChangeType, insert, update, delete}

-- The placeholders %I, %s and %L, and the text between them.
pub data Piece : Type 0 where
  words : String → Piece
  ident plain literal : Piece

-- What fills a placeholder: a name, SQL that is formatted already, a value.
pub data Argument : Type 0 where
  name : String → Argument
  sql : String → Argument
  value_of : Json → Argument

abbrev pub Format : Type 0
Format = List Piece → List Argument → String

pub record AugmentedValue : Type 0 where
  pub is_primary : Bool
  pub is_autogenerated : Bool
  pub key : String
  -- of a sub-query, its text
  pub value : Json
  pub is_json : Bool
  pub is_sub_query : Bool
  pub type : Option String
  pub is_array_column : Bool
  pub aws_resolve_support : Bool

-- pieces.join(text)
abbrev pub join_pieces : String → List (List Piece) → List Piece
join_pieces between [] = []
join_pieces between (p ∷ []) = p
join_pieces between (p ∷ q ∷ ps) = p ++ words between ∷ join_pieces between (q ∷ ps)

abbrev pub text_or_empty : Json → String
text_or_empty (str s) = s
text_or_empty _ = ""

-- (!e.isPrimary && !e.isAutogenerated) || !e.isAutogenerated
unfoldable pub is_kept : AugmentedValue → Bool
is_kept e = not e.is_primary && not e.is_autogenerated || not e.is_autogenerated

abbrev pub is_matched : AugmentedValue → Bool
is_matched e = not e.aws_resolve_support

-- e.isJson && Array.isArray(e.value)
abbrev pub is_json_array : AugmentedValue → Bool
is_json_array e = e.is_json && is_array e.value

module _ (format : Format) where
  abbrev pub format_array : AugmentedValue → Option String → String
  format_array e none = format (words "array[" ∷ literal ∷ words "]" ∷ []) (value_of e.value ∷ [])
  format_array e (some t) =
      if t == ""
      then format (words "array[" ∷ literal ∷ words "]" ∷ []) (value_of e.value ∷ [])
      else format (words "array[" ∷ literal ∷ words "]::" ∷ ident ∷ words "[]" ∷ [])
          (value_of e.value ∷ name t ∷ [])

  -- formatValue
  unfoldable pub format_value : AugmentedValue → String
  format_value e =
      if e.is_sub_query
      then text_or_empty e.value
      else if e.is_array_column
      then format_array e e.type
      else if is_json_array e
      then format (literal ∷ []) (value_of (str (stringify e.value)) ∷ [])
      else format (literal ∷ []) (value_of e.value ∷ [])

  -- The comparison of a column in a WHERE clause.
  abbrev pub comparison : AugmentedValue → List Piece
  comparison e =
      if format_value e == "NULL"
      then ident ∷ words " IS " ∷ plain ∷ []
      else if e.is_json
      then ident ∷ words "::jsonb = " ∷ plain ∷ []
      else ident ∷ words " = " ∷ plain ∷ []

  abbrev pub conditions : List AugmentedValue → List Piece
  conditions es = join_pieces " AND " (map comparison (filter is_matched es))

  -- The value in an INSERT or a SET.
  abbrev pub assigned : AugmentedValue → String
  assigned e = if is_json_array e then format_value e <> "::jsonb" else format_value e

  -- The value in a WHERE clause.
  abbrev pub compared : AugmentedValue → String
  compared e =
      if e.is_json && not (is_array e.value)
      then replace_json_casts (format_value e)
      else assigned e

  abbrev pub matched_arguments : List AugmentedValue → List Argument
  matched_arguments es =
      flat_map (λ (e : AugmentedValue). name e.key ∷ sql (compared e) ∷ []) (filter is_matched es)

  unfoldable pub insert_template : List AugmentedValue → List Piece
  insert_template es =
      (words "\n          INSERT INTO " ∷ ident ∷ words " (" ∷ [])
      ++ (join_pieces ", " (map (λ (e : AugmentedValue). ident ∷ []) es)
          ++ ((words ")\n          VALUES (" ∷ [])
              ++ (join_pieces ", " (map (λ (e : AugmentedValue). plain ∷ []) es)
                  ++ (words ");\n        " ∷ []))))

  unfoldable pub insert_arguments : String → List AugmentedValue → List Argument
  insert_arguments table es =
      name table ∷ map (λ (e : AugmentedValue). name e.key) es ++ map (λ e. sql (assigned e)) es

  unfoldable pub delete_template : List AugmentedValue → List Piece
  delete_template es =
      (words "\n          DELETE FROM " ∷ ident ∷ words "\n          WHERE " ∷ [])
      ++ (conditions es ++ (words ";\n        " ∷ []))

  unfoldable pub delete_arguments : String → List AugmentedValue → List Argument
  delete_arguments table es = name table ∷ matched_arguments es

  -- A list that is undefined puts that word into the template, and no argument.
  abbrev pub assignments : Option (List AugmentedValue) → List Piece
  assignments none = words "undefined" ∷ []
  assignments (some es) =
      join_pieces ", " (map (λ (e : AugmentedValue). ident ∷ words " = " ∷ plain ∷ []) es)

  abbrev pub assignment_arguments : Option (List AugmentedValue) → List Argument
  assignment_arguments none = []
  assignment_arguments (some es) =
      flat_map (λ (e : AugmentedValue). name e.key ∷ sql (assigned e) ∷ []) es

  abbrev pub update_conditions : Option (List AugmentedValue) → List Piece
  update_conditions none = words "undefined" ∷ []
  update_conditions (some es) = conditions es

  abbrev pub condition_arguments : Option (List AugmentedValue) → List Argument
  condition_arguments none = []
  condition_arguments (some es) = matched_arguments es

  unfoldable pub update_template :
      Option (List AugmentedValue) → Option (List AugmentedValue) → List Piece
  update_template updated original =
      (words "\n        UPDATE " ∷ ident ∷ words "\n        SET " ∷ [])
      ++ (assignments updated
          ++ ((words "\n        WHERE " ∷ [])
              ++ (update_conditions original ++ (words ";\n      " ∷ []))))

  unfoldable pub update_arguments :
      String → Option (List AugmentedValue) → Option (List AugmentedValue) → List Argument
  update_arguments table updated original =
      name table ∷ assignment_arguments updated ++ condition_arguments original

  -- The type after the swap of an inverse query.
  abbrev pub swapped : Bool → ChangeType → ChangeType
  swapped true insert = delete
  swapped true delete = insert
  swapped _ type = type

  -- The template and the arguments of the query; `none` is the default case, with no query.
  abbrev pub query_of_type :
      ChangeType
      → Bool
      → String
      → List AugmentedValue
      → Option (List AugmentedValue)
      → Option (List Piece × List Argument)
  query_of_type insert inverse table es fs = some (insert_template es, insert_arguments table es)
  query_of_type delete inverse table es fs = some (delete_template es, delete_arguments table es)
  query_of_type update inverse table es fs =
      let original = if inverse then fs else some es in
      let updated = if inverse then some es else fs in
      some (update_template updated original, update_arguments table updated original)
  query_of_type _ inverse table es fs = none

  abbrev pub kept_of : Option (List AugmentedValue) → Option (List AugmentedValue)
  kept_of none = none
  kept_of (some es) = some (filter is_kept es)

  unfoldable pub query_parts :
      String
      → ChangeType
      → Bool
      → List AugmentedValue
      → Option (List AugmentedValue)
      → Option (List Piece × List Argument)
  query_parts table type inverse first second =
      query_of_type (swapped inverse type) inverse table (filter is_kept first) (kept_of second)

  abbrev pub formatted : Option (List Piece × List Argument) → String
  formatted none = ""
  formatted (some (template, arguments)) = format template arguments

  -- getFormattedQuery
  unfoldable pub get_formatted_query :
      String → ChangeType → Bool → List AugmentedValue → Option (List AugmentedValue) → String
  get_formatted_query table type inverse first second =
      formatted (query_parts table type inverse first second)
