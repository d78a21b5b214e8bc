-- ===== src/Queries/Flat.antt =====
-- Queries without sub-queries (modules/iasql_functions/iasql.ts), as revert asks for them.
use iasql.Base.{
  ℕ, suc, refl, String, ◌==◌, Bool, true, false, Option, none, some, List, [], ◌∷◌, if◌then◌else◌,
}
use iasql.Json.{Json, Row}
use iasql.AuditLog.{AuditLog, Change, ChangeType, insert, update, delete}
use iasql.Queries.{Format, AugmentedValue}
use iasql.Queries.Metadata.{
  ColumnRelation, ColumnMetadata, TableMetadata, of_entity, of_relation, Schema, get_table_metadata,
}
use iasql.Queries.Augment.{with_reference, second_end, augment_with, augment_value}
use iasql.Queries.Values.{EntitiesByName, is_truthy, named, plain_value}
use iasql.Queries.Recreate.{augmented, entries_of, query_of_log, push_query, queries_of_logs}
use iasql.Queries.Depth.{flags-IsSome}
use iasql.Queries.Ranks.{IsSome, collect-IsSome}

module _ (schema : Schema) (format : Format) (recreated : EntitiesByName) where
  unreferenced :
      (augment : String → String → Json → Option AugmentedValue) (end : ColumnRelation → String)
      (v : Json) (c : Option ColumnMetadata) (e : AugmentedValue)
      → IsSome (with_reference schema format recreated augment false end v c e)
  unreferenced augment end v none e = (e, refl)
  unreferenced augment end v (some c) e = (e, refl)

  second_unreferenced :
      (augment : String → String → Json → Option AugmentedValue) (v : Json)
      (c : Option ColumnMetadata) (o : Option AugmentedValue)
      → IsSome o
      → IsSome (second_end schema format recreated augment false v c o)
  second_unreferenced augment v c o (e, h) = rw h (
      flags-IsSome schema format recreated augment c _
        (unreferenced augment (λ r. r.inverse_entity) v c e))

  augment_flat :
      (augment : String → String → Json → Option AugmentedValue) (key : String) (v : Json)
      (t : Option TableMetadata)
      → IsSome (augment_with schema format recreated augment false key v t)
  augment_flat augment key v none = (plain_value key v, refl)
  augment_flat augment key v (some (of_entity m)) =
      flags-IsSome schema format recreated augment (named key m.own_columns) _
        (unreferenced augment (λ r. r.inverse_entity) v (named key m.own_columns) _)
  augment_flat augment key v (some (of_relation r)) =
      second_unreferenced augment v (named key r.inverse_join_columns) _
        (unreferenced augment (λ r. r.entity) v (named key r.join_columns) (plain_value key v))

  augment_value_flat :
      (depth : ℕ) (table key : String) (v : Json)
      → IsSome (augment_value schema format recreated (suc depth) false table key v)
  unfolding augment_value
  augment_value_flat depth table key v = by_value (is_truthy v)
    where
      by_value :
          (b : Bool)
          → IsSome (
              if b
              then augment_with schema format recreated
                  (augment_value schema format recreated depth false)
                  false
                  key
                  v
                  (get_table_metadata schema table)
              else some (plain_value key v))
      by_value true =
          augment_flat (augment_value schema format recreated depth false) key v
            (get_table_metadata schema table)
      by_value false = (plain_value key v, refl)

  augmented_flat :
      (depth : ℕ) (inverse : Bool) (table : String) (row : Option Row)
      → IsSome (augmented schema format (suc depth) inverse false recreated table row)
  augmented_flat depth inverse table row =
      collect-IsSome
        (λ (p : String × Json).
          augment_value schema format recreated (suc depth) false table p.0 p.1)
        (entries_of schema format (suc depth) inverse false recreated row)
        (λ p i. augment_value_flat depth table p.0 p.1)

  query_flat :
      (depth : ℕ) (inverse : Bool) (table : String) (c : Change) (type : ChangeType)
      → IsSome (query_of_log schema format (suc depth) inverse false recreated table c type)
  query_flat depth inverse table c insert =
      let (es, e) = augmented_flat depth inverse table c.change in rw e (_, refl)
  query_flat depth inverse table c delete =
      let (es, e) = augmented_flat depth inverse table c.original in rw e (_, refl)
  query_flat depth inverse table c update =
      let (es, e) = augmented_flat depth inverse table c.original in
      let (fs, f) = augmented_flat depth inverse table c.change in rw (e, f) (_, refl)
  query_flat depth inverse table c _ = ("", refl)

  -- Without sub-queries the depth 1 is enough.
  pub queries_of_logs_flat :
      (depth : ℕ) (inverse : Bool) (logs : List AuditLog)
      → IsSome (queries_of_logs schema format (suc depth) inverse false recreated logs)
  unfolding queries_of_logs
  queries_of_logs_flat depth inverse [] = ([], refl)
  queries_of_logs_flat depth inverse (cl ∷ logs) =
      let (q, e) = query_flat depth inverse cl.table_name cl.change cl.change_type in
      let (qs, f) = queries_of_logs_flat depth inverse logs in rw (e, f) (pushed q qs)
    where
      pushed :
          (q : String) (qs : List String)
          → IsSome (push_query schema format (suc depth) inverse false recreated (some q) (some qs))
      pushed q qs = by_text (q == "")
        where
          by_text : (b : Bool) → IsSome (if b then some qs else some (q ∷ qs))
          by_text true = (qs, refl)
          by_text false = (q ∷ qs, refl)
