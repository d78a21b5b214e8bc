-- ===== src/Queries/Augment.antt =====
-- augmentValue and recreateSubQuery (modules/iasql_functions/iasql.ts), which call one another: a column
-- that refers to another table becomes a query for the row that it referred to. Fuel bounds the depth
-- of the sub-queries.
use iasql.Base.{
  ℕ, zero, suc, String, ◌<>◌, ◌==◌, Bool, true, false, not, ◌&&◌, Option, none, some, List, filter,
  find?, any, all, if◌then◌else◌,
}
use iasql.Base.Dict.{get}
use iasql.Json.{Json, str, Row}
use iasql.Queries.{Format, AugmentedValue, format_value}
use iasql.Queries.Metadata.{
  ReferencedColumn, ColumnRelation, ColumnMetadata, EntityMetadata, TableMetadata, of_entity,
  of_relation, Schema, metadata, aws_resolve_columns, get_table_metadata,
}
use iasql.Queries.Values.{
  is_truthy, is_identical, json_or_null, collect, EntitiesByName, rows_or_none, defined_rows,
  is_own, named, with_column, plain_value, sub_query_template, sub_query_arguments,
}

module _ (schema : Schema) (format : Format) (recreated : EntitiesByName) where
  open schema use {snake_case, find_one, cloud_columns, entity}

  -- The row that a value refers to: in the database, or else among the recreated entities.
  abbrev pub referred : EntityMetadata → String → Json → Option Row
  referred m key v = or_recreated (find_one m.target_name key v)
    where
      or_recreated : Option Row → Option Row
      or_recreated (some e) = some e
      or_recreated none =
          find? (λ e. is_identical (json_or_null (get e key)) v)
            (defined_rows (rows_or_none (get recreated m.name)))

  abbrev pub Augmenter : Type 0
  Augmenter = String → String → Json → Option AugmentedValue

  -- The columns by which a row is found where all columns of its id are NULL.
  abbrev pub filled_columns : EntityMetadata → Row → List ColumnMetadata
  filled_columns m e =
      filter
        (λ (c : ColumnMetadata).
          is_own c.relation_metadata
          && is_truthy (json_or_null (get e c.property_name))
          && not c.is_primary)
        m.own_columns

  abbrev pub finish_sub_query : String → String → Option (List AugmentedValue) → Option String
  finish_sub_query key table none = none
  finish_sub_query key table (some es) = some (
      "(" <> format (sub_query_template format es) (sub_query_arguments format key table es) <> ")")

  abbrev pub all_null : List AugmentedValue → Bool
  all_null es = all (λ e. format_value format e == "NULL") es

  abbrev pub fallback :
      Augmenter → EntityMetadata → Row → Option (List AugmentedValue) → Option (List AugmentedValue)
  fallback augment m e none = none
  fallback augment m e (some es) =
      let by_columns =
        collect
          (λ (c : ColumnMetadata).
            augment m.table_name c.database_name (json_or_null (get e c.property_name)))
          (filled_columns m e) in
      if all_null es then by_columns else some es

  abbrev pub sub_query_of :
      Augmenter → String → EntityMetadata → List String → Option Row → Option String
  sub_query_of augment db_key m columns none = some "<relation_not_found>"
  sub_query_of augment db_key m columns (some e) = finish_sub_query db_key m.table_name (
      fallback augment m e
        (collect (λ c. augment m.table_name (snake_case c) (json_or_null (get e c))) columns))

  -- recreateSubQuery, for the entity of the given name
  abbrev pub recreate_known :
      Augmenter → String → String → Json → EntityMetadata → Option (List String) → Option String
  recreate_known augment db_key key v m none = some ""
  recreate_known augment db_key key v m (some columns) =
      sub_query_of augment db_key m columns (referred m key v)

  abbrev pub recreate_sub_query :
      Augmenter → String → String → Json → Option EntityMetadata → Option String
  recreate_sub_query augment db_key key v none = some ""
  recreate_sub_query augment db_key key v (some m) =
      recreate_known augment db_key key v m (cloud_columns m)

  abbrev pub set_sub_query : AugmentedValue → Option String → Option AugmentedValue
  set_sub_query e none = none
  set_sub_query e (some q) = some (record e { is_sub_query = true; value = str q })

  abbrev pub referenced_names : Option ReferencedColumn → String × String
  referenced_names none = ("unknown_key", "unknownKey")
  referenced_names (some c) = (c.database_name, c.property_name)

  -- The sub-query of a column with a relation, at the end that is chosen; `v` is the value given.
  abbrev pub with_relation :
      Augmenter
      → (ColumnRelation → String)
      → Json
      → Option ReferencedColumn
      → Option ColumnRelation
      → AugmentedValue
      → Option AugmentedValue
  with_relation augment end v referenced none e = some e
  with_relation augment end v referenced (some r) e =
      let (db_key, key) = referenced_names referenced in
      set_sub_query e (recreate_sub_query augment db_key key v (entity (end r)))

  -- shouldRecreateSubQueries && !!columnMetadata?.relationMetadata
  abbrev pub with_reference :
      Augmenter
      → Bool
      → (ColumnRelation → String)
      → Json
      → Option ColumnMetadata
      → AugmentedValue
      → Option AugmentedValue
  with_reference augment should end v none e = some e
  with_reference augment false end v (some c) e = some e
  with_reference augment true end v (some c) e =
      with_relation augment end v c.referenced_column c.relation_metadata e

  abbrev pub with_flags : Option ColumnMetadata → Option AugmentedValue → Option AugmentedValue
  with_flags c none = none
  with_flags c (some e) = some (with_column c e)

  -- The two columns of a join table: a value of the second end replaces that of the first.
  abbrev pub second_end :
      Augmenter
      → Bool
      → Json
      → Option ColumnMetadata
      → Option AugmentedValue
      → Option AugmentedValue
  second_end augment should v c none = none
  second_end augment should v c (some e) =
      with_flags c (with_reference augment should (λ r. r.inverse_entity) v c e)

  abbrev pub augment_with :
      Augmenter → Bool → String → Json → Option TableMetadata → Option AugmentedValue
  augment_with augment should key v none = some (plain_value key v)
  augment_with augment should key v (some (of_entity m)) =
      let resolve =
        any (λ c. snake_case c == key) (aws_resolve_columns schema.resolve_support (metadata m)) in
      let c = named key m.own_columns in
      with_flags c (
        with_reference augment should (λ r. r.inverse_entity) v c
          (record (plain_value key v) { aws_resolve_support = resolve }))
  augment_with augment should key v (some (of_relation r)) =
      second_end augment should v (named key r.inverse_join_columns) (
        with_reference augment should (λ r. r.entity) v (named key r.join_columns)
          (plain_value key v))

  -- augmentValue; `should` is shouldRecreateSubQueries
  unfoldable pub augment_value : ℕ → Bool → Augmenter
  augment_value zero should table key v = none
  augment_value (suc depth) should table key v =
      let known =
        augment_with (augment_value depth should) should key v (get_table_metadata schema table) in
      if is_truthy v then known else some (plain_value key v)
