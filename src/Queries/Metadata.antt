-- ===== src/Queries/Metadata.antt =====
-- What the queries read of TypeORM's metadata, and getTableMetadata (modules/iasql_functions/iasql.ts).
-- The metadata refer to one another by the names of the entities, which `Schema.entity` looks up.
use iasql.Base.{String, ◌==◌, Bool, false, Option, none, some, List, [], ◌∷◌, find?, if◌then◌else◌}
use iasql.Json.{Json, Row}
use iasql.Ids.{ColumnTable, get_aws_resolve_support}

-- The names of the column that a column refers to, and of the entities at the ends of its relation.
pub record ReferencedColumn : Type 0 where
  pub database_name : String
  pub property_name : String

pub record ColumnRelation : Type 0 where
  pub entity : String
  pub inverse_entity : String

pub record ColumnMetadata : Type 0 where
  pub database_name : String
  pub property_name : String
  -- `none` where the type is not a text
  pub type : Option String
  pub is_primary : Bool
  pub is_generated : Bool
  pub is_array : Bool
  pub referenced_column : Option ReferencedColumn
  pub relation_metadata : Option ColumnRelation

pub data RelationType : Type 0 where
  one_to_many many_to_one one_to_one many_to_many : RelationType

-- `join_table_name` is absent or empty where there is no join table.
pub record RelationMetadata : Type 0 where
  pub relation_type : RelationType
  pub is_eager : Bool
  pub property_name : String
  pub join_table_name : Option String
  pub join_columns : List ColumnMetadata
  pub inverse_join_columns : List ColumnMetadata
  pub inverse_entity : String

pub record EntityMetadata : Type 0 where
  pub name : String
  pub target_name : String
  pub table_name : String
  pub own_columns : List ColumnMetadata
  pub own_relations : List RelationMetadata
  pub relations : List RelationMetadata

pub data TableMetadata : Type 0 where
  of_entity : EntityMetadata → TableMetadata
  of_relation : RelationMetadata → TableMetadata

-- What the engine looks up outside: the metadata of the mappers of a table's module (`none` where no
-- module has the table), and of entities by name; the tables of marked columns; the database; the names
-- of lodash.
pub record Schema : Type 0 where
  pub mapped : String → Option (List EntityMetadata)
  pub entity : String → Option EntityMetadata
  -- getCloudId of an entity's class; `none` where no column is marked
  pub cloud_columns : EntityMetadata → Option (List String)
  pub resolve_support : ColumnTable
  -- orm.findOne(target, { where: { [key]: value } }); an error counts as none found
  pub find_one : String → String → Json → Option Row
  -- orm.findOne and orm.find of a target with conditions on its columns, as JSON
  pub find_related_one : String → Row → Json
  pub find_related : String → Row → Json
  pub snake_case : String → String
  pub camel_case : String → String

-- What getAwsResolveSupport can be asked for. Its table has classes as keys, and no metadata.
pub data Subject : Type 0 where
  class_named : String → Subject
  metadata : EntityMetadata → Subject

unfoldable pub aws_resolve_columns : ColumnTable → Subject → List String
aws_resolve_columns table (class_named c) = get_aws_resolve_support table c
aws_resolve_columns table (metadata m) = []

-- or => !!or.joinTableName && or.joinTableName === tableName
abbrev pub is_joined_by : String → Option String → Bool
is_joined_by table none = false
is_joined_by table (some t) = if t == "" then false else t == table

module _ (schema : Schema) where
  -- The first pass: a mapper's own table, or a join table of its entity.
  abbrev pub own_metadata : String → EntityMetadata → Option TableMetadata
  own_metadata table m =
      if m.table_name == table
      then some (of_entity m)
      else relation_of
          (find? (λ (r : RelationMetadata). is_joined_by table r.join_table_name) m.own_relations)
    where
      relation_of : Option RelationMetadata → Option TableMetadata
      relation_of none = none
      relation_of (some r) = some (of_relation r)

  abbrev pub inverse_found :
      String → Option EntityMetadata → Option TableMetadata → Option TableMetadata
  inverse_found table none rest = rest
  inverse_found table (some m) rest =
      if m.table_name == ""
      then rest
      else if m.table_name == table
      then some (of_entity m)
      else rest

  -- The second pass: the entity at the other end of a relation.
  abbrev pub inverse_metadata : String → List RelationMetadata → Option TableMetadata
  inverse_metadata table [] = none
  inverse_metadata table (r ∷ rs) =
      inverse_found table (schema.entity r.inverse_entity) (inverse_metadata table rs)

  abbrev pub or_else : {A : Type 0} → Option A → Option A → Option A
  or_else none b = b
  or_else (some a) b = some a

  -- The first of the metadata that gives one.
  abbrev pub first_metadata :
      (EntityMetadata → Option TableMetadata) → List EntityMetadata → Option TableMetadata
  first_metadata f [] = none
  first_metadata f (m ∷ ms) = or_else (f m) (first_metadata f ms)

  -- modsIndexedByTable[tableName] ?? {}
  abbrev pub mapped_or_none : Option (List EntityMetadata) → List EntityMetadata
  mapped_or_none none = []
  mapped_or_none (some ms) = ms

  -- getTableMetadata
  unfoldable pub get_table_metadata : String → Option TableMetadata
  get_table_metadata table =
      or_else (first_metadata (own_metadata table) (mapped_or_none (schema.mapped table))) (
        first_metadata (λ (m : EntityMetadata). inverse_metadata table m.own_relations)
          (mapped_or_none (schema.mapped table)))
