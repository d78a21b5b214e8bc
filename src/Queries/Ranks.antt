-- ===== src/Queries/Ranks.antt =====
-- Which columns the sub-queries of a column (modules/iasql_functions/iasql.ts) ask for, and ranks of columns
-- that fall along these questions.
use iasql.Base.{
  ℕ, ◌<◌, ◌≡◌, refl, inl, inr, String, Option, none, some, List, [], ◌∷◌, ◌++◌, map, filter,
}
use iasql.Base.Members.{In}
use iasql.Queries.Metadata.{
  ColumnRelation, ColumnMetadata, EntityMetadata, TableMetadata, of_entity, of_relation, Schema,
  get_table_metadata,
}
use iasql.Queries.Values.{is_own, collect, named}

abbrev pub IsSome : {A : Type 0} → Option A → Type 0
IsSome {A} o = (a : A) × (o ≡ some a)

pub collect-IsSome :
    {A B : Type 0} (f : A → Option B) (xs : List A)
    → ((x : A) → In x xs → IsSome (f x))
    → IsSome (collect f xs)
collect-IsSome f [] h = ([], refl)
collect-IsSome f (x ∷ xs) h =
    let (y, e) = h x (inl refl) in
    let (ys, es) = collect-IsSome f xs (λ z i. h z (inr i)) in (y ∷ ys, rw (e, es) refl)

abbrev pub relation_names : (ColumnRelation → String) → Option ColumnRelation → List String
relation_names end none = []
relation_names end (some r) = end r ∷ []

abbrev pub names_of : (ColumnRelation → String) → Option ColumnMetadata → List String
names_of end none = []
names_of end (some c) = relation_names end c.relation_metadata

-- The entities that a column of a table refers to.
abbrev pub referred_names : String → Option TableMetadata → List String
referred_names key none = []
referred_names key (some (of_entity m)) = names_of (λ r. r.inverse_entity) (named key m.own_columns)
referred_names key (some (of_relation r)) =
    names_of (λ r. r.entity) (named key r.join_columns)
    ++ names_of (λ r. r.inverse_entity) (named key r.inverse_join_columns)

abbrev pub columns_or_none : Option (List String) → List String
columns_or_none none = []
columns_or_none (some cs) = cs

module _ (schema : Schema) where
  -- The columns by which a row of the entity is looked for: those of its id, and those of its own.
  abbrev pub asked_columns : EntityMetadata → List (String × String)
  asked_columns m =
      map (λ c. (m.table_name, schema.snake_case c)) (columns_or_none (schema.cloud_columns m))
      ++ map (λ (c : ColumnMetadata). (m.table_name, c.database_name))
          (filter (λ (c : ColumnMetadata). is_own c.relation_metadata) m.own_columns)

  -- A rank of the columns that falls from a column to those by which the rows that it refers to are
  -- looked for.
  abbrev pub IsRanked : (String → String → ℕ) → Type 0
  IsRanked rank =
      (table key name : String) (m : EntityMetadata) (p : String × String)
      → In name (referred_names key (get_table_metadata schema table))
      → schema.entity name ≡ some m
      → In p (asked_columns m)
      → rank p.0 p.1 < rank table key
