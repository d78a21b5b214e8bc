-- ===== src/Queries/Changes.antt =====
-- getChangesByEntity (modules/iasql_functions/iasql.ts): the entities that the changes of the user
-- touch, by the names of their classes. An entity is the JSON that the database gives, or recreated from
-- the columns of a change.
pub mod Touched
pub mod Found
mod Tests
use iasql.Base.{
  ◌≡◌, ◌⊎◌, refl, sym, ap, ◌∙◌, inl, inr, String, ◌==◌, eq_iff, Bool, true, false, not, subst,
  eq_refl, Option, none, some, List, [], ◌∷◌, ◌++◌, map, filter, find?, includes, if◌then◌else◌,
  arith, Bool-cases,
}
use iasql.Base.Dict.{Dict, get, set, has, keys, from_entries, get-set}
use iasql.Base.Members.{In, In-append_left, In-append_right}
use iasql.Json.{Json, Row}
use iasql.AuditLog.{AuditLog, Change, ChangeType, insert, update, delete}
use iasql.Queries.Metadata.{
  ReferencedColumn, ColumnMetadata, RelationMetadata, EntityMetadata, Schema,
}
use iasql.Queries.Values.{is_truthy}
use iasql.Queries.Recreate.{recreate_entity, by_entity}

pub data ChangedEntity : Type 0 where
  found : Json → ChangedEntity
  recreated : Row → ChangedEntity

abbrev pub ChangesByEntity : Type 0
ChangesByEntity = Dict (List ChangedEntity)

abbrev pub or_no_changes : Option (List ChangedEntity) → List ChangedEntity
or_no_changes none = []
or_no_changes (some es) = es

-- if (changedE) changedEntities.push(changedE)
abbrev pub found_or_none : Json → List ChangedEntity
found_or_none v = if is_truthy v then found v ∷ [] else []

abbrev pub recreated_or_none : Option Row → List ChangedEntity
recreated_or_none none = []
recreated_or_none (some e) = recreated e ∷ []

-- The columns of a join table, each with the column that it refers to.
abbrev pub joined_columns : List ColumnMetadata → List (String × String)
joined_columns [] = []
joined_columns (c ∷ cs) = (c.database_name, referred c.referenced_column) ∷ joined_columns cs
  where
    referred : Option ReferencedColumn → String
    referred none = ""
    referred (some r) = r.database_name

-- joinTableCols
abbrev pub join_tables : List RelationMetadata → List (String × List (String × String))
join_tables [] = []
join_tables (r ∷ rs) = add r.join_table_name (join_tables rs)
  where
    add :
        Option String
        → List (String × List (String × String))
        → List (String × List (String × String))
    add none ts = ts
    add (some t) ts = if t == "" then ts else (t, joined_columns r.join_columns) ∷ ts

module _ (schema : Schema) where
  open schema use {camel_case}

  -- The primary columns of a changed row, as a condition.
  abbrev pub primary_condition : EntityMetadata → Row → Row
  primary_condition m columns = from_entries (
      map (λ (p : String × Json). (camel_case p.0, p.1))
        (filter (λ (p : String × Json). includes (primary_columns m.own_columns) p.0) columns))
    where
      primary_columns : List ColumnMetadata → List String
      primary_columns cs =
          map (λ (c : ColumnMetadata). c.database_name)
            (filter (λ (c : ColumnMetadata). c.is_primary) cs)

  abbrev pub original_entities : EntityMetadata → Option Row → List ChangedEntity
  original_entities m none = []
  original_entities m (some columns) = recreated_or_none (recreate_entity schema m columns)

  -- A change of the entity's own table; `none` is the TypeError where a change has no columns.
  abbrev pub own_changes : EntityMetadata → ChangeType → Change → Option (List ChangedEntity)
  own_changes m type c = by_type type c.change c.original
    where
      written : Option Row → Option Row → Option (List ChangedEntity)
      written none old = none
      written (some new) old = some (
          found_or_none (schema.find_related_one m.target_name (primary_condition m new))
          ++ original_entities m old)

      by_type : ChangeType → Option Row → Option Row → Option (List ChangedEntity)
      by_type insert new old = written new old
      by_type update new old = written new old
      by_type delete new none = none
      by_type delete new (some columns) = some (original_entities m (some columns))
      by_type _ new old = some []

  -- The columns of a row of a join table, as a condition on the entity that it belongs to.
  abbrev pub join_condition_onto : List (String × String) → Row → List (String × Json)
  join_condition_onto cols [] = []
  join_condition_onto cols ((k, v) ∷ row) =
      add (find? (λ (jc : String × String). jc.0 == k) cols) (join_condition_onto cols row)
    where
      add : Option (String × String) → List (String × Json) → List (String × Json)
      add none ps = ps
      add (some jc) ps = (camel_case jc.1, v) ∷ ps

  abbrev pub row_of_type : ChangeType → Change → Option Row
  row_of_type delete c = c.original
  row_of_type _ c = c.change

  abbrev pub joined_changes :
      EntityMetadata → Option (List (String × String)) → Option Row → Option (List ChangedEntity)
  joined_changes m none row = some []
  joined_changes m (some cols) none = none
  joined_changes m (some cols) (some row) = some (
      found_or_none
        (schema.find_related_one m.target_name (from_entries (join_condition_onto cols row))))

  abbrev pub entity_changes : EntityMetadata → AuditLog → Option (List ChangedEntity)
  entity_changes m c =
      let own = own_changes m c.change_type c.change in
      let joined =
        joined_changes m (get (from_entries (join_tables m.own_relations)) c.table_name)
          (row_of_type c.change_type c.change) in
      if m.table_name == c.table_name then own else joined

  -- if (changedEntities.length) ...
  abbrev pub push_changes : ChangesByEntity → String → List ChangedEntity → ChangesByEntity
  push_changes acc name [] = acc
  push_changes acc name (e ∷ es) = set acc name (or_no_changes (get acc name) ++ e ∷ es)

  abbrev pub then_changes :
      {A : Type 0} → (A → Option ChangesByEntity) → Option A → Option ChangesByEntity
  then_changes next none = none
  then_changes next (some a) = next a

  unfoldable pub changes_of_entities :
      AuditLog → List EntityMetadata → ChangesByEntity → Option ChangesByEntity
  changes_of_entities c [] acc = some acc
  changes_of_entities c (m ∷ ms) acc =
      then_changes (λ es. changes_of_entities c ms (push_changes acc m.target_name es))
        (entity_changes m c)

  abbrev pub mapped_changes :
      AuditLog → ChangesByEntity → Option (List EntityMetadata) → Option ChangesByEntity
  mapped_changes c acc none = none
  mapped_changes c acc (some ms) = changes_of_entities c (by_entity schema ms) acc

  -- getChangesByEntity; `none` is a TypeError, also at a table that no module has.
  unfoldable pub changes_by_entity : List AuditLog → ChangesByEntity → Option ChangesByEntity
  changes_by_entity [] acc = some acc
  changes_by_entity (c ∷ cs) acc =
      then_changes (changes_by_entity cs) (mapped_changes c acc (schema.mapped c.table_name))

  -- The entity is among the changes under the name.
  abbrev pub IsChanged : ChangesByEntity → String → ChangedEntity → Type 0
  IsChanged acc name e = In e (or_no_changes (get acc name))
