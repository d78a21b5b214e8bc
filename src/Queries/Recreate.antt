-- ===== src/Queries/Recreate.antt =====
-- recreateEntity, recreateRelation, recreateEntitiesFromChangelogs and recreateQueries
-- (modules/iasql_functions/iasql.ts): from the rows of the audit log to queries.
use iasql.Base.{
  ℕ, String, ◌==◌, Bool, true, false, ◌&&◌, Option, none, some, List, [], ◌∷◌, ◌++◌, map, filter,
  find?, if◌then◌else◌,
}
use iasql.Base.Dict.{get, set, values, from_entries}
use iasql.Json.{Json, Row, is_not_null}
use iasql.AuditLog.{AuditLog, Change, ChangeType, insert, update, delete}
use iasql.Queries.{Format, AugmentedValue, get_formatted_query}
use iasql.Queries.Metadata.{
  ReferencedColumn, ColumnMetadata, RelationMetadata, RelationType, one_to_many, many_to_one,
  one_to_one, many_to_many, EntityMetadata, Schema,
}
use iasql.Queries.Augment.{augment_value}
use iasql.Queries.Values.{EntitiesByName, rows_or_none, json_or_null, collect}

abbrev pub same_type : RelationType → RelationType → Bool
same_type one_to_many one_to_many = true
same_type many_to_one many_to_one = true
same_type one_to_one one_to_one = true
same_type many_to_many many_to_many = true
same_type _ _ = false

-- How recreateQueries ends; `too_deep` if the depth is too small.
pub data Recreation : Type 0 where
  queries : List String → Recreation
  type_error too_deep : Recreation

module _ (schema : Schema) where
  open schema use {camel_case, entity}

  abbrev pub property_of : String → Option ColumnMetadata → String
  property_of k none = camel_case k
  property_of k (some c) = by_reference c.referenced_column
    where
      by_reference : Option ReferencedColumn → String
      by_reference none = c.property_name
      by_reference (some r) = camel_case k

  -- The entity's properties, from the columns of a change.
  abbrev pub properties_onto : EntityMetadata → Row → Row → Row
  properties_onto m e [] = e
  properties_onto m e ((k, v) ∷ columns) =
      properties_onto m
        (set e (property_of k (find? (λ (c : ColumnMetadata). c.database_name == k) m.own_columns))
          v)
        columns

  -- A column of the relation: the property that it is read from, and the one that it refers to.
  abbrev pub join_condition : Row → ColumnMetadata → String × Json
  join_condition e c = by_reference c.referenced_column
    where
      by_reference : Option ReferencedColumn → String × Json
      by_reference none = ("undefined", json_or_null (get e c.property_name))
      by_reference (some r) = (r.property_name, json_or_null (get e (camel_case c.database_name)))

  abbrev pub target_of : Option EntityMetadata → String
  target_of none = ""
  target_of (some m) = m.target_name

  abbrev pub find_relation : RelationType → String → Row → Json
  find_relation one_to_many = schema.find_related
  find_relation _ = schema.find_related_one

  -- recreateRelation
  unfoldable pub recreate_relation : RelationType → List RelationMetadata → Row → Row
  recreate_relation type [] e = e
  recreate_relation type (r ∷ rs) e =
      let found =
        find_relation type (target_of (entity r.inverse_entity))
          (from_entries (map (join_condition e) r.join_columns)) in
      let with_found = recreate_relation type rs (set e r.property_name found) in
      let without = recreate_relation type rs e in
      if r.is_eager && same_type r.relation_type type then with_found else without

  abbrev pub unless_no_keys : Row → Option Row
  unless_no_keys [] = none
  unless_no_keys (p ∷ e) = some (p ∷ e)

  -- recreateEntity
  unfoldable pub recreate_entity : EntityMetadata → Row → Option Row
  recreate_entity m columns = unless_no_keys (
      recreate_relation one_to_one m.own_relations (
        recreate_relation many_to_one m.own_relations
          (recreate_relation one_to_many m.own_relations (properties_onto m [] columns))))

  abbrev pub table_of : Option EntityMetadata → String
  table_of none = ""
  table_of (some m) = m.table_name

  -- The metadata of the entity of a table: a mapper's own, or one at the end of a relation.
  abbrev pub entity_of_table : String → EntityMetadata → Option EntityMetadata
  entity_of_table table m =
      let joined = by_relation (
        find? (λ (r : RelationMetadata). table_of (entity r.inverse_entity) == table)
          m.relations) in
      if m.table_name == table then some m else joined
    where
      by_relation : Option RelationMetadata → Option EntityMetadata
      by_relation none = none
      by_relation (some r) = entity r.inverse_entity

  abbrev pub push_entity : EntitiesByName → Option EntityMetadata → Row → EntitiesByName
  push_entity found none columns = found
  push_entity found (some m) columns =
      set found m.name (rows_or_none (get found m.name) ++ recreate_entity m columns ∷ [])

  abbrev pub push_entities : String → Row → EntitiesByName → List EntityMetadata → EntitiesByName
  push_entities table columns found [] = found
  push_entities table columns found (m ∷ ms) =
      push_entities table columns (push_entity found (entity_of_table table m) columns) ms

  -- !!cl.change?.change ? cl.change.change : cl.change.original
  abbrev pub changed_row : Change → Option Row
  changed_row c = choose c.change c.original
    where
      choose : Option Row → Option Row → Option Row
      choose none old = old
      choose (some new) old = some new

  -- The mappers of a table, one for each entity: a later one replaces an earlier one.
  abbrev pub by_entity : List EntityMetadata → List EntityMetadata
  by_entity ms = values (from_entries (map (λ (m : EntityMetadata). (m.target_name, m)) ms))

  abbrev pub recreated_of :
      String → EntitiesByName → Option (List EntityMetadata) → Option Row → Option EntitiesByName
  recreated_of table found none columns = none
  recreated_of table found (some ms) none = unless_matched (by_entity ms)
    where
      unless : Option EntityMetadata → Option EntitiesByName → Option EntitiesByName
      unless none rest = rest
      unless (some m) rest = none

      unless_matched : List EntityMetadata → Option EntitiesByName
      unless_matched [] = some found
      unless_matched (m ∷ ms) = unless (entity_of_table table m) (unless_matched ms)
  recreated_of table found (some ms) (some columns) =
      some (push_entities table columns found (by_entity ms))

  abbrev pub then_recreate :
      (EntitiesByName → Option EntitiesByName) → Option EntitiesByName → Option EntitiesByName
  then_recreate next none = none
  then_recreate next (some found) = next found

  -- recreateEntitiesFromChangelogs; `none` is the TypeError at a table without module, or at a change
  -- without columns that some metadata matches.
  unfoldable pub recreate_entities : List AuditLog → EntitiesByName → Option EntitiesByName
  recreate_entities [] found = some found
  recreate_entities (cl ∷ logs) found =
      then_recreate (recreate_entities logs)
        (recreated_of cl.table_name found (schema.mapped cl.table_name) (changed_row cl.change))

  module _ (format : Format) (depth : ℕ) (inverse should : Bool) (recreated : EntitiesByName) where
    -- Object.entries(row ?? {}).filter(([_, v]) => v !== null)
    abbrev pub entries_of : Option Row → List (String × Json)
    entries_of none = []
    entries_of (some row) = filter (λ (p : String × Json). is_not_null p.1) row

    abbrev pub augmented : String → Option Row → Option (List AugmentedValue)
    augmented table row =
        collect
          (λ (p : String × Json). augment_value schema format recreated depth should table p.0 p.1)
          (entries_of row)

    abbrev pub query_of : String → ChangeType → Option (List AugmentedValue) → Option String
    query_of table type none = none
    query_of table type (some es) = some (get_formatted_query format table type inverse es none)

    abbrev pub update_query_of :
        String → Option (List AugmentedValue) → Option (List AugmentedValue) → Option String
    update_query_of table none fs = none
    update_query_of table (some es) none = none
    update_query_of table (some es) (some fs) =
        some (get_formatted_query format table update inverse es (some fs))

    -- The query of a row of the log; the empty text for other types.
    abbrev pub query_of_log : String → Change → ChangeType → Option String
    query_of_log table c insert = query_of table insert (augmented table c.change)
    query_of_log table c delete = query_of table delete (augmented table c.original)
    query_of_log table c update =
        update_query_of table (augmented table c.original) (augmented table c.change)
    query_of_log table c _ = some ""

    abbrev pub push_query : Option String → Option (List String) → Option (List String)
    push_query none qs = none
    push_query (some q) none = none
    push_query (some q) (some qs) = if q == "" then some qs else some (q ∷ qs)

    -- The loop of recreateQueries; `none` if the depth is too small.
    unfoldable pub queries_of_logs : List AuditLog → Option (List String)
    queries_of_logs [] = some []
    queries_of_logs (cl ∷ logs) =
        push_query (query_of_log cl.table_name cl.change cl.change_type) (queries_of_logs logs)

  -- recreateQueries
  unfoldable pub recreate_queries : Format → ℕ → Bool → Bool → List AuditLog → Recreation
  recreate_queries format depth inverse should logs = start (recreate_entities logs [])
    where
      ended : Option (List String) → Recreation
      ended none = too_deep
      ended (some qs) = queries qs

      start : Option EntitiesByName → Recreation
      start none = type_error
      start (some recreated) = ended (queries_of_logs format depth inverse should recreated logs)
