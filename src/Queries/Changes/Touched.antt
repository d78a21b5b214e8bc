-- ===== src/Queries/Changes/Touched.antt =====
-- What a row of the audit log stands for in getChangesByEntity (modules/iasql_functions/iasql.ts).
use iasql.Base.{
  ◌≡◌, ◌≢◌, ◌⊎◌, refl, sym, ◌∙◌, inl, inr, String, ◌==◌, eq_iff, true, subst, Option, none, some,
  List, ◌++◌, if◌then◌else◌, arith,
}
use iasql.Base.Dict.{get, from_entries}
use iasql.Base.Members.{In, In-append_left, In-append_right}
use iasql.Json.{Json, Row}
use iasql.AuditLog.{AuditLog, ChangeType, insert, update, delete}
use iasql.Queries.Metadata.{EntityMetadata, Schema}
use iasql.Queries.Values.{is_truthy}
use iasql.Queries.Recreate.{recreate_entity}
use iasql.Queries.Changes.{
  ChangedEntity, found, recreated, found_or_none, join_tables, primary_condition, original_entities,
  own_changes, join_condition_onto, row_of_type, entity_changes,
}

-- The entities that one row of the log stands for, of an entity that is mapped to the row's table.
module _ (schema : Schema) (m : EntityMetadata) (c : AuditLog) where
  pub data IsTouched : ChangedEntity → Type 0 where
    -- The entity that the database has under the primary columns of an inserted or updated row.
    written :
        (new : Row)
        → m.table_name ≡ c.table_name
        → (c.change_type ≡ insert) ⊎ (c.change_type ≡ update)
        → c.change.change ≡ some new
        → is_truthy (schema.find_related_one m.target_name (primary_condition schema m new)) ≡ true
        → IsTouched (found (schema.find_related_one m.target_name (primary_condition schema m new)))
    -- The entity as it was before an update or a delete.
    replaced :
        (old e : Row)
        → m.table_name ≡ c.table_name
        → (c.change_type ≡ insert) ⊎ (c.change_type ≡ update) ⊎ (c.change_type ≡ delete)
        → c.change.original ≡ some old
        → recreate_entity schema m old ≡ some e
        → IsTouched (recreated e)
    -- The entity that the database has for a row, put in or removed, of one of its join tables.
    joined :
        (cols : List (String × String)) (row : Row)
        → m.table_name ≢ c.table_name
        → get (from_entries (join_tables m.own_relations)) c.table_name ≡ some cols
        → ((c.change_type ≡ delete) × (c.change.original ≡ some row))
          ⊎ ((c.change_type ≢ delete) × (c.change.change ≡ some row))
        → is_truthy (
            schema.find_related_one m.target_name
              (from_entries (join_condition_onto schema cols row)))
          ≡ true
        → IsTouched (
            found (
              schema.find_related_one m.target_name
                (from_entries (join_condition_onto schema cols row))))

  some-inj : {A : Type 0} {a b : A} → some a ≡ some b → a ≡ b
  some-inj q = cc (q)

  same_table :
      {A : Type 0} (a b : A)
      → m.table_name ≡ c.table_name
      → (if m.table_name == c.table_name then a else b) ≡ a
  same_table a b e = rw ((eq_iff m.table_name c.table_name).1 e) refl

  other_table :
      {A : Type 0} (a b : A)
      → m.table_name ≢ c.table_name
      → (if m.table_name == c.table_name then a else b) ≡ b
  other_table a b e = ground (arith, eq_iff m.table_name c.table_name)

  found_or_none-In : (v : Json) → is_truthy v ≡ true → In (found v) (found_or_none v)
  found_or_none-In v h = rw h (inl refl)

  own-written :
      (new : Row) (es : List ChangedEntity)
      → (c.change_type ≡ insert) ⊎ (c.change_type ≡ update)
      → c.change.change ≡ some new
      → is_truthy (schema.find_related_one m.target_name (primary_condition schema m new)) ≡ true
      → own_changes schema m c.change_type c.change ≡ some es
      → In (found (schema.find_related_one m.target_name (primary_condition schema m new))) es
  own-written new es type e h q =
      let v : Json = schema.find_related_one m.target_name (primary_condition schema m new) in
      let listed : found_or_none v ++ original_entities schema m c.change.original ≡ es =
        by_type type q in
      subst (λ l. In (found v) l) listed
        (In-append_left (found v) (found_or_none v) (original_entities schema m c.change.original)
          (found_or_none-In v h))
    where
      by_type :
          (c.change_type ≡ insert) ⊎ (c.change_type ≡ update)
          → own_changes schema m c.change_type c.change ≡ some es
          → found_or_none (schema.find_related_one m.target_name (primary_condition schema m new))
              ++ original_entities schema m c.change.original
            ≡ es
      by_type (inl t) q = some-inj (rw (t, e) at q)
      by_type (inr t) q = some-inj (rw (t, e) at q)

  own-replaced :
      (old e : Row) (es : List ChangedEntity)
      → (c.change_type ≡ insert) ⊎ (c.change_type ≡ update) ⊎ (c.change_type ≡ delete)
      → c.change.original ≡ some old
      → recreate_entity schema m old ≡ some e
      → own_changes schema m c.change_type c.change ≡ some es
      → In (recreated e) es
  own-replaced old e es type o r q = by_type type q
    where
      listed : In (recreated e) (original_entities schema m (some old))
      listed = rw r (inl refl)

      behind :
          (new : Option Row)
          → own_changes schema m insert (record { original = some old; change = new }) ≡ some es
          → In (recreated e) es
      behind none q = absurd (cc (q))
      behind (some new) q =
          subst (λ l. In (recreated e) l) (some-inj q)
            (In-append_right (recreated e) _ (original_entities schema m (some old)) listed)

      by_type :
          (c.change_type ≡ insert) ⊎ (c.change_type ≡ update) ⊎ (c.change_type ≡ delete)
          → own_changes schema m c.change_type c.change ≡ some es
          → In (recreated e) es
      by_type (inl t) q = behind c.change.change (rw (t, o) at q)
      by_type (inr (inl t)) q = behind c.change.change (rw (t, o) at q)
      by_type (inr (inr t)) q = subst (λ l. In (recreated e) l) (some-inj (rw (t, o) at q)) listed

  row_of_type-eq :
      (row : Row)
      → ((c.change_type ≡ delete) × (c.change.original ≡ some row))
        ⊎ ((c.change_type ≢ delete) × (c.change.change ≡ some row))
      → row_of_type schema c.change_type c.change ≡ some row
  row_of_type-eq row (inl (t, e)) = rw (t, e) refl
  row_of_type-eq row (inr (t, e)) = by_type c.change_type t
    where
      by_type : (type : ChangeType) → type ≢ delete → row_of_type schema type c.change ≡ some row
      by_type delete n = absurd (n refl)
      by_type _ n = e

  -- Where the changes of the row are found for the entity, what the row stands for is among them.
  pub IsTouched-In :
      (e : ChangedEntity) (es : List ChangedEntity)
      → IsTouched e
      → entity_changes schema m c ≡ some es
      → In e es
  IsTouched-In e es (written new t type n h) q =
      own-written new es type n h (sym (same_table _ _ t) ∙ q)
  IsTouched-In e es (replaced old o t type d r) q =
      own-replaced old o es type d r (sym (same_table _ _ t) ∙ q)
  IsTouched-In e es (joined cols row t f r h) q =
      let v : Json =
        schema.find_related_one m.target_name
          (from_entries (join_condition_onto schema cols row)) in
      let listed : some (found_or_none v) ≡ some es =
        sym (rw (f, row_of_type-eq row r) refl) ∙ sym (other_table _ _ t) ∙ q in
      subst (λ l. In (found v) l) (some-inj listed) (found_or_none-In v h)
