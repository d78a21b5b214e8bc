-- ===== src/Queries/Results.antt =====
-- What recreateQueries (modules/iasql_functions/iasql.ts) gives: a query for each change of a row.
use iasql.Base.{
  ℕ, suc, ◌<◌, ◌≡◌, ◌≢◌, refl, ap, String, ◌==◌, eq_iff, Bool, true, false, not, ◌||◌, Option, none,
  some, List, [], ◌∷◌, filter, length, if◌then◌else◌, arith,
}
use iasql.Json.{Json, Row}
use iasql.AuditLog.{AuditLog, Change, ChangeType, insert, update, delete}
use iasql.Queries.{
  Piece, words, Argument, Format, insert_template, delete_template, update_template, AugmentedValue,
  get_formatted_query, query_parts, query_of_type, swapped, kept_of, formatted, is_kept,
}
use iasql.Queries.Metadata.{Schema}
use iasql.Queries.Augment.{augment_value}
use iasql.Queries.Values.{EntitiesByName}
use iasql.Queries.Recreate.{augmented, entries_of, query_of_log, queries_of_logs}
use iasql.Queries.Depth.{augment_value-ends}
use iasql.Queries.Ranks.{IsSome, IsRanked, collect-IsSome}

-- INSERT, UPDATE and DELETE
abbrev pub is_row_type : ChangeType → Bool
is_row_type insert = true
is_row_type update = true
is_row_type delete = true
is_row_type _ = false

abbrev pub is_row_change : AuditLog → Bool
is_row_change cl = is_row_type cl.change_type

-- Some of the template's own text is not empty.
abbrev pub has_text : List Piece → Bool
has_text [] = false
has_text (words w ∷ ps) = not (w == "") || has_text ps
has_text (_ ∷ ps) = has_text ps

-- The text of a template appears in what is formatted: that is empty for no template with text of its own.
abbrev pub IsFilled : Format → Type 0
IsFilled format =
    (template : List Piece) (arguments : List Argument)
    → has_text template ≡ true
    → format template arguments ≢ ""

query_of_type-filled :
    (format : Format) (inverse : Bool) (type : ChangeType) (table : String)
    (es : List AugmentedValue) (fs : Option (List AugmentedValue))
    → IsFilled format
    → is_row_type type ≡ true
    → formatted format (query_of_type format (swapped format inverse type) inverse table es fs) ≢ ""
unfolding insert_template delete_template update_template
query_of_type-filled format true insert table es fs filled h = filled _ _ refl
query_of_type-filled format false insert table es fs filled h = filled _ _ refl
query_of_type-filled format true delete table es fs filled h = filled _ _ refl
query_of_type-filled format false delete table es fs filled h = filled _ _ refl
query_of_type-filled format true update table es fs filled h = filled _ _ refl
query_of_type-filled format false update table es fs filled h = filled _ _ refl
query_of_type-filled format inverse _ table es fs filled h = absurd (cc (h))

module _ (schema : Schema) (format : Format) (filled : IsFilled format) (recreated : EntitiesByName)
    (rank : String → String → ℕ) (ranked : IsRanked schema rank) (depth : ℕ)
    (deep : (table key : String) → rank table key < depth) (inverse should : Bool) where
  is_filled :
      (table : String) (type : ChangeType) (es : List AugmentedValue)
      (fs : Option (List AugmentedValue))
      → is_row_type type ≡ true
      → (get_formatted_query format table type inverse es fs == "") ≡ false
  unfolding get_formatted_query query_parts
  is_filled table type es fs h = ground (
    arith,
    eq_iff (get_formatted_query format table type inverse es fs) "",
    query_of_type-filled format inverse type table (filter is_kept es) (kept_of format fs) filled h,
  )

  augmented-IsSome :
      (table : String) (row : Option Row)
      → IsSome (augmented schema format depth inverse should recreated table row)
  augmented-IsSome table row =
      collect-IsSome
        (λ (p : String × Json). augment_value schema format recreated depth should table p.0 p.1)
        (entries_of schema format depth inverse should recreated row)
        (λ p i.
          augment_value-ends schema format recreated rank ranked depth should table p.0 p.1
            (deep table p.0))

  -- The query of a log row is a text that is empty exactly where the row is no change of a row.
  abbrev IsQueryOf : ChangeType → Option String → Type 0
  IsQueryOf type o = (q : String) × (o ≡ some q) × ((q == "") ≡ not (is_row_type type))

  query_of_log-IsQueryOf :
      (table : String) (c : Change) (type : ChangeType)
      → IsQueryOf type (query_of_log schema format depth inverse should recreated table c type)
  query_of_log-IsQueryOf table c insert =
      let (es, e) = augmented-IsSome table c.change in
      rw e (_, refl, is_filled table insert es none refl)
  query_of_log-IsQueryOf table c delete =
      let (es, e) = augmented-IsSome table c.original in
      rw e (_, refl, is_filled table delete es none refl)
  query_of_log-IsQueryOf table c update =
      let (es, e) = augmented-IsSome table c.original in
      let (fs, f) = augmented-IsSome table c.change in
      rw (e, f) (_, refl, is_filled table update es (some fs) refl)
  query_of_log-IsQueryOf table c _ = ("", refl, refl)

  -- Where the text of a template appears in what is formatted, and the depth is above the ranks of all columns, the
  -- loop ends and gives as many queries as there are INSERTs, UPDATEs and DELETEs among the rows of
  -- the log.
  pub queries_of_logs-length :
      (logs : List AuditLog)
      → (qs : List String) × (queries_of_logs schema format depth inverse should recreated logs
          ≡ some qs)
        × (length qs ≡ length (filter is_row_change logs))
  unfolding queries_of_logs
  queries_of_logs-length [] = ([], refl, refl)
  queries_of_logs-length (cl ∷ logs) =
      let (q, e, b) = query_of_log-IsQueryOf cl.table_name cl.change cl.change_type in
      let (qs, f, n) = queries_of_logs-length logs in
      rw (e, f) (by_type q qs (is_row_type cl.change_type) b n)
    where
      by_type :
          (q : String) (qs : List String) (row : Bool)
          → (q == "") ≡ not row
          → length qs ≡ length (filter is_row_change logs)
          → (rs : List String) × ((if q == "" then some qs else some (q ∷ qs)) ≡ some rs)
            × (length rs
                ≡ length
                    (if row then cl ∷ filter is_row_change logs else filter is_row_change logs))
      by_type q qs true b n = (q ∷ qs, rw b refl, ap suc n)
      by_type q qs false b n = (qs, rw b refl, n)
