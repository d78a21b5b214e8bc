-- ===== src/Ids/Split.antt =====
-- id.split('|') of idFields (modules/interfaces.ts), and the round trip from the fields of an id to
-- the id and back.
use Prim.Native.Char.{Char, code}
use Prim.Native.String.append.{nil, cons}
use iasql.Base.{
  ◌≡◌, ◌∙◌, ap, inl, inr, refl, String, ◌<>◌, ◌==◌, eq_iff, Bool, true, false, not, ◌&&◌, Option,
  none, some, List, [], ◌∷◌, map, beq, includes, if◌then◌else◌, arith,
}
use iasql.Base.Members.{In, Nodup}
use iasql.Base.Dict.{Dict, get, set, get-set}
use iasql.Ids.{join_bar, generate_id, id_fields, fields_onto}

-- The code of '|'.
abbrev is_bar : Char → Bool
is_bar c = beq (code c) 124

-- A character in front of the first part.
abbrev pub onto_first : Char → List String → List String
onto_first c [] = String.◌∷◌ c String.[] ∷ []
onto_first c (p ∷ ps) = String.◌∷◌ c p ∷ ps

-- id.split('|')
unfoldable pub split_bar : String → List String
split_bar String.[] = "" ∷ []
split_bar (String.◌∷◌ c s) =
    let rest = split_bar s in if is_bar c then "" ∷ rest else onto_first c rest

abbrev pub is_bar_free : String → Bool
is_bar_free String.[] = true
is_bar_free (String.◌∷◌ c s) = not (is_bar c) && is_bar_free s

bar : (s : String) → split_bar ("|" <> s) ≡ "" ∷ split_bar s
unfolding split_bar
bar s = ap split_bar (cons "|" String.[] s ∙ ap (String.◌∷◌ "|") (nil s))

split_bar-part : (p s : String) → is_bar_free p ≡ true → split_bar (p <> "|" <> s) ≡ p ∷ split_bar s
unfolding split_bar
split_bar-part String.[] s h = rw (nil ("|" <> s)) (bar s)
split_bar-part (String.◌∷◌ c p) s h =
    rw (cons c p ("|" <> s)) (ground (arith, h, split_bar-part p s))

split_bar-whole : (p : String) → is_bar_free p ≡ true → split_bar p ≡ p ∷ []
unfolding split_bar
split_bar-whole String.[] h = refl
split_bar-whole (String.◌∷◌ c p) h = ground (arith, split_bar-whole p)

-- The text of a field, which has a value without '|'.
abbrev pub HasBarFree : (String → Option String) → String → Type 0
HasBarFree f c = (v : String) × (f c ≡ some v) × (is_bar_free v ≡ true)

-- Splitting a joined id gives the joined texts back.
pub split_bar-join_bar :
    (f : String → Option String) (c : String) (cs : List String)
    → ((d : String) → In d (c ∷ cs) → HasBarFree f d)
    → map some (split_bar (join_bar (map f (c ∷ cs)))) ≡ map f (c ∷ cs)
unfolding join_bar
split_bar-join_bar f c [] h = let (v, e, q) = h c (inl refl) in rw (e, split_bar-whole v q) refl
split_bar-join_bar f c (d ∷ cs) h =
    let (v, e, q) = h c (inl refl) in
    rw
      (
        e,
        split_bar-part v (join_bar (map f (d ∷ cs))) q,
        split_bar-join_bar f d cs (λ x i. h x (inr i)),
      )
      refl

module _ (primary_column : String) where
  -- Columns that are not named keep what they had.
  fields_onto-other :
      (d : Dict (Option String)) (cs parts : List String) (c : String)
      → includes cs c ≡ false
      → get (fields_onto primary_column d cs parts) c ≡ get d c
  fields_onto-other d [] parts c h = refl
  fields_onto-other d (x ∷ cs) [] c h =
      ground (arith, h, fields_onto-other (set d x none) cs [] c, get-set d x c none)
  fields_onto-other d (x ∷ cs) (p ∷ parts) c h =
      ground (arith, h, fields_onto-other (set d x (some p)) cs parts c, get-set d x c (some p))

  fields_onto-get :
      (f : String → Option String) (d : Dict (Option String)) (cs parts : List String) (c : String)
      → Nodup cs
      → map some parts ≡ map f cs
      → In c cs
      → get (fields_onto primary_column d cs parts) c ≡ some (f c)
  fields_onto-get f d [] parts c u e i = absurd i
  fields_onto-get f d (x ∷ cs) [] c u e i = absurd (cc (e))
  fields_onto-get f d (x ∷ cs) (p ∷ parts) c u e (inl q) = ground (
    arith,
    e,
    q,
    u,
    eq_iff x c,
    get-set d x c (some p),
    fields_onto-other (set d x (some p)) cs parts c,
  )
  fields_onto-get f d (x ∷ cs) (p ∷ parts) c u e (inr i) =
      fields_onto-get f (set d x (some p)) cs parts c u.1 (cc (e)) i

  generate_id-joined :
      (columns : List String) (fields : Dict String) (id : String)
      → generate_id primary_column (some columns) fields ≡ some id
      → (join_bar (map (get fields) columns) == "") ≡ false
      → id ≡ join_bar (map (get fields) columns)
  unfolding generate_id
  generate_id-joined columns fields id e filled = ground (arith, e, filled)

  -- Where generateId gives an id from the fields of marked columns, all set to texts without '|' that are
  -- not all empty, idFields of this id gives each of these fields back. (No column is marked twice.)
  pub id_fields-generate_id :
      (c : String) (cs : List String) (fields : Dict String) (id : String)
      → Nodup (c ∷ cs)
      → ((d : String) → In d (c ∷ cs) → HasBarFree (get fields) d)
      → (join_bar (map (get fields) (c ∷ cs)) == "") ≡ false
      → generate_id primary_column (some (c ∷ cs)) fields ≡ some id
      → (d : String) → In d (c ∷ cs)
      → get (id_fields primary_column (some (c ∷ cs)) (split_bar id)) d ≡ some (get fields d)
  unfolding id_fields
  id_fields-generate_id c cs fields id u free filled e d i =
      fields_onto-get (get fields) [] (c ∷ cs) (split_bar id) d u
        (ap (λ s. map some (split_bar s)) (generate_id-joined (c ∷ cs) fields id e filled)
          ∙ split_bar-join_bar (get fields) c cs free)
        i
