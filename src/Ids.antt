-- ===== src/Ids.antt =====
-- How entities are named: services/cloud-id.ts, services/aws-resolve-support.ts, and the ids that
-- MapperBase (modules/interfaces.ts) makes of the columns marked there. A class is its name; an entity
-- and the fields of an id are texts by property.
pub mod Split
mod Tests
use iasql.Base.{
  ℕ, ◌≡◌, ◌≢◌, ◌⊎◌, ◌∙◌, sym, ap, inl, inr, refl, String, ◌<>◌, ◌==◌, eq_iff, Bool, true, false,
  not, ◌&&◌, ◌||◌, Option, none, some, List, [], ◌∷◌, ◌++◌, map, all, any, length, beq, includes,
  if◌then◌else◌, arith, Bool-cases,
}
use iasql.Base.Members.{In}
use iasql.Base.Dict.{Dict, get, set, keys, get-set}

-- cloudIdTable and awsResolveSupportTable
abbrev pub ColumnTable : Type 0
ColumnTable = Dict (List String)

abbrev pub columns_or_none : Option (List String) → List String
columns_or_none none = []
columns_or_none (some cs) = cs

-- cloudId, and awsResolveSupport alike: the column goes to the end of the class's list.
unfoldable pub add_column : ColumnTable → String → String → ColumnTable
add_column t class name = set t class (columns_or_none (get t class) ++ name ∷ [])

-- getCloudId; `none` is the error 'No @cloudId decorator usage'.
unfoldable pub get_cloud_id : ColumnTable → String → Option (List String)
get_cloud_id t class = get t class

unfoldable pub get_aws_resolve_support : ColumnTable → String → List String
get_aws_resolve_support t class = columns_or_none (get t class)

-- What is marked stays in the order of the marks, and a mark concerns its own class only.
pub get_cloud_id-add_column :
    (t : ColumnTable) (class name other : String)
    → (get_cloud_id (add_column t class name) class
        ≡ some (get_aws_resolve_support t class ++ name ∷ []))
      × ((class == other) ≡ false
          → get_cloud_id (add_column t class name) other ≡ get_cloud_id t other)
unfolding get_cloud_id add_column get_aws_resolve_support
get_cloud_id-add_column t class name other = (
  get-set t class class _
      ∙ ap (λ b. if b then some (columns_or_none (get t class) ++ name ∷ []) else get t class)
          ((eq_iff class class).1 refl),
  λ apart.
      get-set t class other _
      ∙ ap (λ b. if b then some (columns_or_none (get t class) ++ name ∷ []) else get t other)
          apart,
)

-- x + ''
abbrev pub text_of : Option String → String
text_of none = "undefined"
text_of (some s) = s

-- An element that is undefined joins as the empty text.
abbrev pub joined : Option String → String
joined none = ""
joined (some s) = s

-- xs.join('|')
unfoldable pub join_bar : List (Option String) → String
join_bar [] = ""
join_bar (x ∷ []) = joined x
join_bar (x ∷ y ∷ xs) = joined x <> "|" <> join_bar (y ∷ xs)

-- !e[col]
abbrev pub is_unset : Option String → Bool
is_unset none = true
is_unset (some s) = s == ""

-- if (!out) return e[primaryColumn] + ''
abbrev pub unless_blank : String → String → String
unless_blank out primary = if out == "" then primary else out

module _ (primary_column : String) where
  -- The entityId that MapperBase gives where the mapper has none of its own.
  unfoldable pub entity_id : Option (List String) → Dict String → String
  entity_id none e = text_of (get e primary_column)
  entity_id (some columns) e =
      if any (λ col. is_unset (get e col)) columns
      then text_of (get e primary_column)
      else unless_blank (join_bar (map (get e) columns)) (text_of (get e primary_column))

  -- generateId; `none` is the error 'Id generation error'.
  unfoldable pub generate_id : Option (List String) → Dict String → Option String
  generate_id none fields =
      if not (beq (length (keys fields)) 1)
        || not (all (λ fk. includes (primary_column ∷ []) fk) (keys fields))
      then none
      else some (text_of (get fields primary_column))
  generate_id (some columns) fields =
      if not (beq (length (keys fields)) (length columns))
        || not (all (λ fk. includes columns fk) (keys fields))
      then none
      else some
          (unless_blank (join_bar (map (get fields) columns)) (text_of (get fields primary_column)))

  get-map :
      (e fields : Dict String) (columns : List String)
      → ((c : String) → In c columns → get fields c ≡ get e c)
      → map (get fields) columns ≡ map (get e) columns
  get-map e fields [] h = refl
  get-map e fields (c ∷ cs) h = rw (h c (inl refl), get-map e fields cs (λ d i. h d (inr i))) refl

  -- The id that is generated from the marked columns of an entity is the entity's id, where all of
  -- these columns are set, the fields are these columns, and the joined text is not empty.
  pub generate_id-entity_id :
      (columns : List String) (e fields : Dict String)
      → length (keys fields) ≡ length columns
      → all (λ fk. includes columns fk) (keys fields) ≡ true
      → ((c : String) → In c columns → get fields c ≡ get e c)
      → any (λ col. is_unset (get e col)) columns ≡ false
      → (join_bar (map (get e) columns) == "") ≡ false
      → generate_id (some columns) fields ≡ some (entity_id (some columns) e)
  unfolding generate_id entity_id
  generate_id-entity_id columns e fields n k same set_all filled =
      rw (n, k, get-map e fields columns same, set_all, filled) (equal_length (length columns))
    where
      equal_length :
          (m : ℕ)
          → (if not (beq m m) || not true then none else some (join_bar (map (get e) columns)))
            ≡ some (join_bar (map (get e) columns))
      equal_length m = ground arith

  -- idFields, of the parts of `id.split('|')`; a column without a part is undefined.
  abbrev pub fields_onto : Dict (Option String) → List String → List String → Dict (Option String)
  fields_onto fields [] parts = fields
  fields_onto fields (cc ∷ ccs) [] = fields_onto (set fields cc none) ccs []
  fields_onto fields (cc ∷ ccs) (p ∷ parts) = fields_onto (set fields cc (some p)) ccs parts

  abbrev pub last_part : List String → String
  last_part [] = ""
  last_part (p ∷ []) = p
  last_part (p ∷ q ∷ parts) = last_part (q ∷ parts)

  unfoldable pub id_fields : Option (List String) → List String → Dict (Option String)
  id_fields none parts = set [] primary_column (some (last_part parts))
  id_fields (some columns) parts = fields_onto [] columns parts
