-- ===== src/Queries/SubQuery.antt =====
-- Templates and arguments of the sub-queries (recreateSubQuery, modules/iasql_functions/iasql.ts), and
-- the columns that augmentValue marks as having AWS resolve support.
use iasql.Base.{
  ℕ, zero, suc, ◌+◌, ◌*◌, ◌<◌, ◌≡◌, ◌↔◌, ◌∙◌, refl, ap, inl, inr, String, Bool, true, false, Option,
  none, some, List, [], ◌∷◌, ◌++◌, map, filter, any, length, flat_map, length-filter-le,
  if◌then◌else◌, arith, Bool-cases,
}
use iasql.Json.{Json}
use iasql.Queries.{
  Piece, words, ident, plain, literal, Argument, name, sql, value_of, Format, AugmentedValue,
  join_pieces, is_matched, format_value, comparison, conditions,
}
use iasql.Queries.Metadata.{
  ColumnMetadata, ColumnRelation, ReferencedColumn, TableMetadata, of_entity, of_relation, Schema,
  aws_resolve_columns, get_table_metadata,
}
use iasql.Queries.Augment.{
  set_sub_query, with_relation, with_reference, with_flags, second_end, augment_with, augment_value,
}
use iasql.Queries.Values.{
  sub_query_template, sub_query_arguments, EntitiesByName, plain_value, named, is_truthy,
}
use iasql.Queries.Arguments.{fits, fits-join_pieces, comparison-fits}

-- The placeholders of a template.
abbrev slots : List Piece → ℕ
slots [] = 0
slots (words w ∷ ps) = slots ps
slots (p ∷ ps) = suc (slots ps)

slots-append : (p q : List Piece) → slots (p ++ q) ≡ slots p + slots q
slots-append [] q = omega arith
slots-append (words w ∷ p) q = slots-append p q
slots-append (ident ∷ p) q = omega (arith, slots-append p q)
slots-append (plain ∷ p) q = omega (arith, slots-append p q)
slots-append (literal ∷ p) q = omega (arith, slots-append p q)

slots-fits : (p : List Piece) (a : List Argument) → fits p a ≡ true → slots p ≡ length a
slots-fits [] [] h = refl
slots-fits [] (x ∷ a) h = absurd (cc (h))
slots-fits (words w ∷ p) a h = slots-fits p a h
slots-fits (ident ∷ p) (name n ∷ a) h = ap suc (slots-fits p a h)
slots-fits (plain ∷ p) (sql n ∷ a) h = ap suc (slots-fits p a h)
slots-fits (literal ∷ p) (value_of n ∷ a) h = ap suc (slots-fits p a h)
slots-fits (ident ∷ p) [] h = absurd (cc (h))
slots-fits (ident ∷ p) (sql n ∷ a) h = absurd (cc (h))
slots-fits (ident ∷ p) (value_of n ∷ a) h = absurd (cc (h))
slots-fits (plain ∷ p) [] h = absurd (cc (h))
slots-fits (plain ∷ p) (name n ∷ a) h = absurd (cc (h))
slots-fits (plain ∷ p) (value_of n ∷ a) h = absurd (cc (h))
slots-fits (literal ∷ p) [] h = absurd (cc (h))
slots-fits (literal ∷ p) (name n ∷ a) h = absurd (cc (h))
slots-fits (literal ∷ p) (sql n ∷ a) h = absurd (cc (h))

slots-join_pieces :
    {A : Type 0} (between : String) (p : A → List Piece) (n : ℕ) (xs : List A)
    → ((x : A) → slots (p x) ≡ n)
    → slots (join_pieces between (map p xs)) ≡ length xs * n
slots-join_pieces between p n [] h = omega arith
slots-join_pieces between p n (x ∷ []) h = omega (arith, h x)
slots-join_pieces between p n (x ∷ y ∷ xs) h = omega (
  arith,
  h x,
  slots-append (p x ++ words between ∷ []) (join_pieces between (map p (y ∷ xs))),
  slots-append (p x) (words between ∷ join_pieces between (map p (y ∷ xs))),
  slots-join_pieces between p n (y ∷ xs) h,
)

matched-length :
    (es : List AugmentedValue)
    → any (λ (e : AugmentedValue). e.aws_resolve_support) es ≡ true
    → length (filter is_matched es) < length es
matched-length [] h = absurd (cc (h))
matched-length (e ∷ es) h = ground (arith, h, matched-length es, length-filter-le is_matched es)

matched-all :
    (es : List AugmentedValue)
    → any (λ (e : AugmentedValue). e.aws_resolve_support) es ≡ false
    → filter is_matched es ≡ es
matched-all [] h = refl
matched-all (e ∷ es) h = ground (arith, h, matched-all es)

module _ (format : Format) where
  abbrev pair_arguments : AugmentedValue → List Argument
  pair_arguments e = name e.key ∷ sql (format_value format e) ∷ []

  pairs-length : (es : List AugmentedValue) → length (flat_map pair_arguments es) ≡ length es * 2
  pairs-length [] = omega arith
  pairs-length (e ∷ es) = omega (arith, pairs-length es)

  comparison-slots : (e : AugmentedValue) → slots (comparison format e) ≡ 2
  comparison-slots e = ground arith

  too_many :
      (es : List AugmentedValue)
      → fits (conditions format es) (flat_map pair_arguments es) ≡ true
      → any (λ (e : AugmentedValue). e.aws_resolve_support) es ≡ true
      → ⊥
  too_many es h a = omega (
    arith,
    slots-fits (conditions format es) (flat_map pair_arguments es) h,
    slots-join_pieces " AND " (comparison format) 2 (filter is_matched es) comparison-slots,
    pairs-length es,
    matched-length es a,
  )

  -- The placeholders and the arguments of a sub-query agree, one by one and in kind, exactly where no
  -- column has AWS resolve support.
  pub sub_query-fits_iff :
      (key table : String) (es : List AugmentedValue)
      → (fits (sub_query_template format es) (sub_query_arguments format key table es) ≡ true)
        ↔ (any (λ (e : AugmentedValue). e.aws_resolve_support) es ≡ false)
  unfolding sub_query_template sub_query_arguments
  sub_query-fits_iff key table es = (
    λ h. elim (Bool-cases (any (λ (e : AugmentedValue). e.aws_resolve_support) es)) [
      | inl a ↦ absurd (too_many es h a)
      | inr b ↦ b
    ],
    λ h.
        ap
          (λ xs.
            fits (join_pieces " AND " (map (comparison format) xs)) (flat_map pair_arguments es))
          (matched-all es h)
        ∙ fits-join_pieces " AND " (comparison format) pair_arguments es
            (comparison-fits format (format_value format)),
  )

module _ (schema : Schema) (format : Format) (recreated : EntitiesByName) where
  -- No column of the value has AWS resolve support.
  abbrev IsUnsupported : Option AugmentedValue → Type 0
  IsUnsupported o = (e : AugmentedValue) → o ≡ some e → e.aws_resolve_support ≡ false

  some-IsUnsupported : (e : AugmentedValue) → e.aws_resolve_support ≡ false → IsUnsupported (some e)
  some-IsUnsupported e h d q = ground (arith, h, q)

  flags-IsUnsupported :
      (c : Option ColumnMetadata) (o : Option AugmentedValue)
      → IsUnsupported o
      → IsUnsupported (with_flags schema format recreated c o)
  flags-IsUnsupported c none h = λ d q. absurd (cc (q))
  flags-IsUnsupported none (some e) h = h
  flags-IsUnsupported (some c) (some e) h = some-IsUnsupported _ (h e refl)

  set-IsUnsupported :
      (e : AugmentedValue) (o : Option String)
      → e.aws_resolve_support ≡ false
      → IsUnsupported (set_sub_query schema format recreated e o)
  set-IsUnsupported e none h = λ d q. absurd (cc (q))
  set-IsUnsupported e (some s) h = some-IsUnsupported _ h

  reference-IsUnsupported :
      (augment : String → String → Json → Option AugmentedValue) (should : Bool)
      (end : ColumnRelation → String) (v : Json) (c : Option ColumnMetadata) (e : AugmentedValue)
      → e.aws_resolve_support ≡ false
      → IsUnsupported (with_reference schema format recreated augment should end v c e)
  reference-IsUnsupported augment should end v none e h = some-IsUnsupported e h
  reference-IsUnsupported augment false end v (some c) e h = some-IsUnsupported e h
  reference-IsUnsupported augment true end v (some c) e h =
      by_relation c.referenced_column c.relation_metadata
    where
      by_relation :
          (rc : Option ReferencedColumn) (r : Option ColumnRelation)
          → IsUnsupported (with_relation schema format recreated augment end v rc r e)
      by_relation rc none = some-IsUnsupported e h
      by_relation rc (some r) = set-IsUnsupported e _ h

  second-IsUnsupported :
      (augment : String → String → Json → Option AugmentedValue) (should : Bool) (v : Json)
      (c : Option ColumnMetadata) (o : Option AugmentedValue)
      → IsUnsupported o
      → IsUnsupported (second_end schema format recreated augment should v c o)
  second-IsUnsupported augment should v c none h = λ d q. absurd (cc (q))
  second-IsUnsupported augment should v c (some e) h =
      flags-IsUnsupported c _
        (reference-IsUnsupported augment should (λ r. r.inverse_entity) v c e (h e refl))

  augment_with-IsUnsupported :
      (augment : String → String → Json → Option AugmentedValue) (should : Bool) (key : String)
      (v : Json) (t : Option TableMetadata)
      → IsUnsupported (augment_with schema format recreated augment should key v t)
  unfolding aws_resolve_columns
  augment_with-IsUnsupported augment should key v none = some-IsUnsupported _ refl
  augment_with-IsUnsupported augment should key v (some (of_entity m)) =
      flags-IsUnsupported (named key m.own_columns) _ (
        reference-IsUnsupported augment should (λ r. r.inverse_entity) v (named key m.own_columns) _
          refl)
  augment_with-IsUnsupported augment should key v (some (of_relation r)) =
      second-IsUnsupported augment should v (named key r.inverse_join_columns) _
        (reference-IsUnsupported augment should (λ r. r.entity) v (named key r.join_columns) _ refl)

  -- No value is ever marked as a column with AWS resolve support, whatever columns the classes mark:
  -- the table of these columns is asked for the metadata of the entity, and has only classes as keys.
  pub augment_value-unsupported :
      (depth : ℕ) (should : Bool) (table key : String) (v : Json) (e : AugmentedValue)
      → augment_value schema format recreated depth should table key v ≡ some e
      → e.aws_resolve_support ≡ false
  unfolding augment_value
  augment_value-unsupported zero should table key v e h = absurd (cc (h))
  augment_value-unsupported (suc depth) should table key v e h = by_value (is_truthy v) h
    where
      by_value :
          (b : Bool)
          → (if b
              then augment_with schema format recreated
                  (augment_value schema format recreated depth should)
                  should
                  key
                  v
                  (get_table_metadata schema table)
              else some (plain_value key v))
            ≡ some e
          → e.aws_resolve_support ≡ false
      by_value true h =
          augment_with-IsUnsupported (augment_value schema format recreated depth should) should key
            v (get_table_metadata schema table) e h
      by_value false h = some-IsUnsupported (plain_value key v) refl e h
