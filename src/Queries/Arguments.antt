-- ===== src/Queries/Arguments.antt =====
-- Templates and arguments of the queries (modules/iasql_functions/iasql.ts): each placeholder has an
-- argument of its kind.
use iasql.Base.{
  ◌≡◌, ◌∙◌, sym, ap, refl, String, Bool, true, false, Option, none, some, List, [], ◌∷◌, ◌++◌, map,
  filter, flat_map, arith, append-nil,
}
use iasql.AuditLog.{ChangeType, insert, update, delete}
use iasql.Queries.{
  Piece, words, ident, plain, literal, Argument, name, sql, value_of, Format, AugmentedValue,
  join_pieces, is_kept, is_matched, comparison, conditions, matched_arguments, compared, assigned,
  insert_template, insert_arguments, delete_template, delete_arguments, assignments,
  assignment_arguments, update_conditions, condition_arguments, update_template, update_arguments,
  swapped, query_of_type, query_parts, kept_of,
}

-- The arguments fill the placeholders one by one: names for %I, SQL for %s, values for %L.
abbrev pub fits : List Piece → List Argument → Bool
fits [] [] = true
fits [] (a ∷ rest) = false
fits (words w ∷ ps) rest = fits ps rest
fits (ident ∷ ps) (name n ∷ rest) = fits ps rest
fits (plain ∷ ps) (sql s ∷ rest) = fits ps rest
fits (literal ∷ ps) (value_of v ∷ rest) = fits ps rest
fits _ _ = false

fits-append :
    (p q : List Piece) (a b : List Argument)
    → fits p a ≡ true
    → fits q b ≡ true
    → fits (p ++ q) (a ++ b) ≡ true
fits-append [] q [] b h k = k
fits-append [] q (a ∷ rest) b h k = absurd (cc (h))
fits-append (words w ∷ p) q a b h k = fits-append p q a b h k
fits-append (ident ∷ p) q [] b h k = absurd (cc (h))
fits-append (ident ∷ p) q (name n ∷ rest) b h k = fits-append p q rest b h k
fits-append (ident ∷ p) q (sql n ∷ rest) b h k = absurd (cc (h))
fits-append (ident ∷ p) q (value_of n ∷ rest) b h k = absurd (cc (h))
fits-append (plain ∷ p) q [] b h k = absurd (cc (h))
fits-append (plain ∷ p) q (name n ∷ rest) b h k = absurd (cc (h))
fits-append (plain ∷ p) q (sql n ∷ rest) b h k = fits-append p q rest b h k
fits-append (plain ∷ p) q (value_of n ∷ rest) b h k = absurd (cc (h))
fits-append (literal ∷ p) q [] b h k = absurd (cc (h))
fits-append (literal ∷ p) q (name n ∷ rest) b h k = absurd (cc (h))
fits-append (literal ∷ p) q (sql n ∷ rest) b h k = absurd (cc (h))
fits-append (literal ∷ p) q (value_of n ∷ rest) b h k = fits-append p q rest b h k

-- Joined templates, each with its arguments.
pub fits-join_pieces :
    {A : Type 0} (between : String) (p : A → List Piece) (a : A → List Argument) (xs : List A)
    → ((x : A) → fits (p x) (a x) ≡ true)
    → fits (join_pieces between (map p xs)) (flat_map a xs) ≡ true
fits-join_pieces between p a [] h = refl
fits-join_pieces between p a (x ∷ []) h = rw (append-nil (a x)) (h x)
fits-join_pieces between p a (x ∷ y ∷ xs) h =
    fits-append (p x) _ (a x) _ (h x) (fits-join_pieces between p a (y ∷ xs) h)

fits-end :
    (p : List Piece) (w : String) (a : List Argument)
    → fits p a ≡ true
    → fits (p ++ words w ∷ []) a ≡ true
fits-end p w a h =
    ap (fits (p ++ words w ∷ [])) (sym (append-nil a)) ∙ fits-append p (words w ∷ []) a [] h refl

flat_map_singles : {A B : Type 0} (f : A → B) (xs : List A) → flat_map (λ x. f x ∷ []) xs ≡ map f xs
flat_map_singles f [] = refl
flat_map_singles f (x ∷ xs) = ap (λ ys. f x ∷ ys) (flat_map_singles f xs)

-- One placeholder for each element.
fits-singles :
    {A : Type 0} (between : String) (p : Piece) (f : A → Argument) (xs : List A)
    → ((x : A) → fits (p ∷ []) (f x ∷ []) ≡ true)
    → fits (join_pieces between (map (λ x. p ∷ []) xs)) (map f xs) ≡ true
fits-singles between p f xs h =
    ap (fits (join_pieces between (map (λ x. p ∷ []) xs))) (sym (flat_map_singles f xs))
    ∙ fits-join_pieces between (λ x. p ∷ []) (λ x. f x ∷ []) xs h

module _ (format : Format) where
  pub comparison-fits :
      (f : AugmentedValue → String) (e : AugmentedValue)
      → fits (comparison format e) (name e.key ∷ sql (f e) ∷ []) ≡ true
  comparison-fits f e = ground arith

  conditions-fits :
      (es : List AugmentedValue) → fits (conditions format es) (matched_arguments format es) ≡ true
  conditions-fits es =
      fits-join_pieces " AND " (comparison format) _ (filter is_matched es)
        (comparison-fits (compared format))

  insert-fits :
      (table : String) (es : List AugmentedValue)
      → fits (insert_template format es) (insert_arguments format table es) ≡ true
  unfolding insert_template insert_arguments
  insert-fits table es =
      fits-append (join_pieces ", " (map (λ (e : AugmentedValue). ident ∷ []) es))
        (words ")\n          VALUES ("
          ∷ (join_pieces ", " (map (λ (e : AugmentedValue). plain ∷ []) es)
              ++ (words ");\n        " ∷ [])))
        (map (λ (e : AugmentedValue). name e.key) es) (map (λ e. sql (assigned format e)) es)
        (fits-singles ", " ident (λ (e : AugmentedValue). name e.key) es (λ e. refl))
        (fits-end (join_pieces ", " (map (λ (e : AugmentedValue). plain ∷ []) es)) _ _
          (fits-singles ", " plain (λ e. sql (assigned format e)) es (λ e. refl)))

  delete-fits :
      (table : String) (es : List AugmentedValue)
      → fits (delete_template format es) (delete_arguments format table es) ≡ true
  unfolding delete_template delete_arguments
  delete-fits table es = fits-end (conditions format es) _ _ (conditions-fits es)

  assignments-fits :
      (o : Option (List AugmentedValue))
      → fits (assignments format o) (assignment_arguments format o) ≡ true
  assignments-fits none = refl
  assignments-fits (some es) =
      fits-join_pieces ", " _ (λ x. name x.key ∷ sql (assigned format x) ∷ []) es (λ e. refl)

  update_conditions-fits :
      (o : Option (List AugmentedValue))
      → fits (update_conditions format o) (condition_arguments format o) ≡ true
  update_conditions-fits none = refl
  update_conditions-fits (some es) = conditions-fits es

  update-fits :
      (table : String) (updated original : Option (List AugmentedValue))
      → fits
          (update_template format updated original)
          (update_arguments format table updated original)
        ≡ true
  unfolding update_template update_arguments
  update-fits table updated original =
      fits-append (assignments format updated)
        (words "\n        WHERE " ∷ (update_conditions format original ++ (words ";\n      " ∷ [])))
        (assignment_arguments format updated) (condition_arguments format original)
        (assignments-fits updated)
        (fits-end (update_conditions format original) _ _ (update_conditions-fits original))

  -- Where a query is formatted, the placeholders of its template and its arguments agree, one by
  -- one and in kind, whatever the type of the change, the entries and the direction.
  pub query_parts-fits :
      (table : String) (type : ChangeType) (inverse : Bool) (first : List AugmentedValue)
      (second : Option (List AugmentedValue)) (template : List Piece) (arguments : List Argument)
      → query_parts format table type inverse first second ≡ some (template, arguments)
      → fits template arguments ≡ true
  unfolding query_parts
  query_parts-fits table type inverse first second template arguments h =
      of_type (swapped format inverse type) h
    where
      split :
          (t u : List Piece) (a b : List Argument)
          → Path (Option (List Piece × List Argument)) (some (t, a)) (some (u, b))
          → fits t a ≡ true
          → fits u b ≡ true
      split t u a b e f =
          let same_t : t ≡ u = cc in let same_a : a ≡ b = cc in rw (same_t, same_a) at f

      of_type :
          (type : ChangeType)
          → query_of_type format type inverse table (filter is_kept first) (kept_of format second)
            ≡ some (template, arguments)
          → fits template arguments ≡ true
      of_type insert h = split _ _ _ _ h (insert-fits table (filter is_kept first))
      of_type delete h = split _ _ _ _ h (delete-fits table (filter is_kept first))
      of_type update h = split _ _ _ _ h (update-fits table _ _)
      of_type _ h = absurd (cc (h))
