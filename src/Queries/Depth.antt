-- ===== src/Queries/Depth.antt =====
-- How deep augmentValue and recreateSubQuery (modules/iasql_functions/iasql.ts) call one another.
use iasql.Base.{
  ℕ, zero, suc, ◌<◌, ◌≡◌, refl, inl, String, Bool, true, false, not, ◌&&◌, Option, none, some, List,
  map, filter, if◌then◌else◌, arith,
}
use iasql.Base.Dict.{get}
use iasql.Base.Members.{In, In-append_left, In-append_right, In-map, In-filter, filter-In}
use iasql.Json.{Json, Row}
use iasql.Queries.{Format, AugmentedValue}
use iasql.Queries.Metadata.{
  ReferencedColumn, ColumnRelation, ColumnMetadata, EntityMetadata, TableMetadata, of_entity,
  of_relation, Schema, get_table_metadata,
}
use iasql.Queries.Augment.{
  filled_columns, fallback, finish_sub_query, sub_query_of, recreate_known, recreate_sub_query,
  set_sub_query, with_relation, with_reference, with_flags, second_end, augment_with, augment_value,
  referenced_names, all_null, referred,
}
use iasql.Queries.Values.{
  EntitiesByName, is_own, is_truthy, json_or_null, collect, named, plain_value,
}
use iasql.Queries.Ranks.{
  IsSome, collect-IsSome, relation_names, names_of, referred_names, columns_or_none, asked_columns,
  IsRanked,
}

module _ (schema : Schema) where
  module _ (format : Format) (recreated : EntitiesByName)
      (augment : String → String → Json → Option AugmentedValue) where
    -- The columns of the entity can be augmented.
    abbrev CanAsk : EntityMetadata → Type 0
    CanAsk m =
        (p : String × String) (v : Json)
        → In p (asked_columns schema m)
        → IsSome (augment p.0 p.1 v)

    finish-IsSome :
        (key table : String) (o : Option (List AugmentedValue))
        → IsSome o
        → IsSome (finish_sub_query schema format recreated key table o)
    finish-IsSome key table o (es, e) = rw e (_, refl)

    own_asked :
        (m : EntityMetadata) (row : Row) (c : ColumnMetadata)
        → In c (filled_columns schema format recreated m row)
        → In (m.table_name, c.database_name) (asked_columns schema m)
    own_asked m row c i =
        let (j, q) =
          In-filter
            (λ (c : ColumnMetadata).
              is_own c.relation_metadata
              && is_truthy (json_or_null (get row c.property_name))
              && not c.is_primary)
            c m.own_columns i in
        let k =
          filter-In (λ (c : ColumnMetadata). is_own c.relation_metadata) c m.own_columns j
            (ground (arith, q)) in
        In-append_right (m.table_name, c.database_name)
          (map (λ c. (m.table_name, schema.snake_case c))
            (columns_or_none (schema.cloud_columns m)))
          (map (λ (c : ColumnMetadata). (m.table_name, c.database_name))
            (filter (λ (c : ColumnMetadata). is_own c.relation_metadata) m.own_columns))
          (In-map (λ (c : ColumnMetadata). (m.table_name, c.database_name)) c
            (filter (λ (c : ColumnMetadata). is_own c.relation_metadata) m.own_columns) k)

    fallback-IsSome :
        (m : EntityMetadata) (row : Row) (o : Option (List AugmentedValue))
        → CanAsk m
        → IsSome o
        → IsSome (fallback schema format recreated augment m row o)
    fallback-IsSome m row o ask (es, e) = rw e (by_null (all_null schema format recreated es))
      where
        columns : IsSome (
            collect
              (λ (c : ColumnMetadata).
                augment m.table_name c.database_name (json_or_null (get row c.property_name)))
              (filled_columns schema format recreated m row))
        columns =
            collect-IsSome
              (λ (c : ColumnMetadata).
                augment m.table_name c.database_name (json_or_null (get row c.property_name)))
              (filled_columns schema format recreated m row)
              (λ c i.
                ask (m.table_name, c.database_name) (json_or_null (get row c.property_name))
                  (own_asked m row c i))

        by_null :
            (b : Bool)
            → IsSome (
                if b
                then collect
                    (λ (c : ColumnMetadata).
                      augment m.table_name c.database_name (json_or_null (get row c.property_name)))
                    (filled_columns schema format recreated m row)
                else some es)
        by_null true = columns
        by_null false = (es, refl)

    sub_query-IsSome :
        (db_key key : String) (v : Json) (m : EntityMetadata) (o : Option (List String))
        → schema.cloud_columns m ≡ o
        → CanAsk m
        → IsSome (recreate_known schema format recreated augment db_key key v m o)
    sub_query-IsSome db_key key v m none e ask = ("", refl)
    sub_query-IsSome db_key key v m (some cs) e ask =
        by_row (referred schema format recreated m key v)
      where
        by_row :
            (o : Option Row) → IsSome (sub_query_of schema format recreated augment db_key m cs o)
        by_row none = ("<relation_not_found>", refl)
        by_row (some row) = finish-IsSome db_key m.table_name _ (
            fallback-IsSome m row _ ask (
              collect-IsSome _ cs λ c i.
                ask (m.table_name, schema.snake_case c) _
                  (In-append_left (m.table_name, schema.snake_case c)
                    (map (λ c. (m.table_name, schema.snake_case c))
                      (columns_or_none (schema.cloud_columns m)))
                    (map (λ (c : ColumnMetadata). (m.table_name, c.database_name))
                      (filter (λ (c : ColumnMetadata). is_own c.relation_metadata) m.own_columns))
                    (In-map (λ c. (m.table_name, schema.snake_case c)) c
                      (columns_or_none (schema.cloud_columns m)) (rw e i)))))

    -- The entities named are looked for by columns that can be augmented.
    abbrev CanRefer : List String → Type 0
    CanRefer names =
        (name : String) (m : EntityMetadata)
        → In name names
        → schema.entity name ≡ some m
        → CanAsk m

    set-IsSome :
        (e : AugmentedValue) (o : Option String)
        → IsSome o
        → IsSome (set_sub_query schema format recreated e o)
    set-IsSome e o (q, h) = rw h (_, refl)

    entity-IsSome :
        (db_key key : String) (v : Json) (name : String) (o : Option EntityMetadata)
        → schema.entity name ≡ o
        → ((m : EntityMetadata) → schema.entity name ≡ some m → CanAsk m)
        → IsSome (recreate_sub_query schema format recreated augment db_key key v o)
    entity-IsSome db_key key v name none e ask = ("", refl)
    entity-IsSome db_key key v name (some m) e ask =
        sub_query-IsSome db_key key v m (schema.cloud_columns m) refl (ask m e)

    relation-IsSome :
        (end : ColumnRelation → String) (v : Json) (referenced : Option ReferencedColumn)
        (r : Option ColumnRelation) (e : AugmentedValue)
        → CanRefer (relation_names end r)
        → IsSome (with_relation schema format recreated augment end v referenced r e)
    relation-IsSome end v referenced none e ask = (e, refl)
    relation-IsSome end v referenced (some r) e ask =
        let names = referenced_names schema format recreated referenced in
        set-IsSome e _ (
          entity-IsSome names.0 names.1 v (end r) (schema.entity (end r)) refl
            (λ m q. ask (end r) m (inl refl) q))

    reference-IsSome :
        (should : Bool) (end : ColumnRelation → String) (v : Json) (c : Option ColumnMetadata)
        (e : AugmentedValue)
        → CanRefer (names_of end c)
        → IsSome (with_reference schema format recreated augment should end v c e)
    reference-IsSome should end v none e ask = (e, refl)
    reference-IsSome false end v (some c) e ask = (e, refl)
    reference-IsSome true end v (some c) e ask =
        relation-IsSome end v c.referenced_column c.relation_metadata e ask

    pub flags-IsSome :
        (c : Option ColumnMetadata) (o : Option AugmentedValue)
        → IsSome o
        → IsSome (with_flags schema format recreated c o)
    flags-IsSome c o (e, h) = rw h (_, refl)

    second-IsSome :
        (should : Bool) (v : Json) (c : Option ColumnMetadata) (o : Option AugmentedValue)
        → CanRefer (names_of (λ r. r.inverse_entity) c)
        → IsSome o
        → IsSome (second_end schema format recreated augment should v c o)
    second-IsSome should v c o ask (e, h) =
        rw h (flags-IsSome c _ (reference-IsSome should (λ r. r.inverse_entity) v c e ask))

    augment_with-IsSome :
        (should : Bool) (key : String) (v : Json) (t : Option TableMetadata)
        → CanRefer (referred_names key t)
        → IsSome (augment_with schema format recreated augment should key v t)
    augment_with-IsSome should key v none ask = (plain_value key v, refl)
    augment_with-IsSome should key v (some (of_entity m)) ask =
        flags-IsSome (named key m.own_columns) _
          (reference-IsSome should (λ r. r.inverse_entity) v (named key m.own_columns) _ ask)
    augment_with-IsSome should key v (some (of_relation r)) ask =
        second-IsSome should v (named key r.inverse_join_columns) _
          (λ name m i.
            ask name m
              (In-append_right name (names_of (λ r. r.entity) (named key r.join_columns)) _ i))
          (reference-IsSome should (λ r. r.entity) v (named key r.join_columns) (plain_value key v)
            (λ name m i. ask name m (
              In-append_left name _
                (names_of (λ r. r.inverse_entity) (named key r.inverse_join_columns)) i)))

  -- Where the columns have a rank that falls from each column to those by which the rows that it refers to
  -- are looked for, augmentValue ends: a depth above the rank of the column is enough.
  pub augment_value-ends :
      (format : Format) (recreated : EntitiesByName) (rank : String → String → ℕ)
      → IsRanked schema rank
      → (depth : ℕ) (should : Bool) (table key : String) (v : Json) → rank table key < depth
      → IsSome (augment_value schema format recreated depth should table key v)
  unfolding augment_value
  augment_value-ends format recreated rank ranked zero should table key v h =
      absurd (omega (arith, h))
  augment_value-ends format recreated rank ranked (suc depth) should table key v h =
      by_value
        (λ name m i q p w j.
          augment_value-ends format recreated rank ranked depth should p.0 p.1 w
            (omega (arith, h, ranked table key name m p i q j)))
        (is_truthy v)
    where
      by_value :
          CanRefer format recreated
            (augment_value schema format recreated depth should)
            (referred_names key (get_table_metadata schema table))
          → (b : Bool)
          → IsSome (
              if b
              then augment_with schema format recreated
                  (augment_value schema format recreated depth should)
                  should
                  key
                  v
                  (get_table_metadata schema table)
              else some (plain_value key v))
      by_value asks true =
          augment_with-IsSome format recreated (augment_value schema format recreated depth should)
            should key v (get_table_metadata schema table) asks
      by_value asks false = (plain_value key v, refl)
