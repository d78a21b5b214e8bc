-- ===== src/Base/Dict.antt =====
-- JavaScript's `Map` and plain objects with text keys: the entries in the order in which their keys
-- were first set. (Plain objects list integer-like keys first; no key of the program is one.)
use Prim.Native.String.{String}
use mathlib.Core.Path.{◌≡◌, refl, ap}
use mathlib.Core.Bool.{Bool, true, false, ◌||◌}
use mathlib.Core.Option.{Option, none, some}
use mathlib.Core.List.{List, [], ◌∷◌, ◌++◌}
use native.Mathlib.Omega.{arith}
use text.Mathlib.Text.{◌==◌}
use text.Mathlib.TextEquality.{eq_iff}
use iasql.Base.Tests.{Bool-cases, if◌then◌else◌}
use iasql.Base.Lists.{includes}
use iasql.Base.Members.{In, Nodup}
use mathlib.Core.Logic.{inl, inr}

abbrev pub Dict : Type 0 → Type 0
Dict V = List (String × V)

module _ {V : Type 0} where
  -- d.get(k), d[k]
  unfoldable pub get : Dict V → String → Option V
  get [] k = none
  get ((j, v) ∷ d) k = if j == k then some v else get d k

  -- d.has(k)
  unfoldable pub has : Dict V → String → Bool
  has [] k = false
  has ((j, v) ∷ d) k = if j == k then true else has d k

  -- d.set(k, v), d[k] = v
  unfoldable pub set : Dict V → String → V → Dict V
  set [] k v = (k, v) ∷ []
  set ((j, w) ∷ d) k v = if j == k then (j, v) ∷ d else (j, w) ∷ set d k v

  -- delete d[k]
  unfoldable pub remove : Dict V → String → Dict V
  remove [] k = []
  remove ((j, w) ∷ d) k = let rest = remove d k in if j == k then rest else (j, w) ∷ rest

  abbrev pub keys : Dict V → List String
  keys [] = []
  keys ((k, v) ∷ d) = k ∷ keys d

  abbrev pub values : Dict V → List V
  values [] = []
  values ((k, v) ∷ d) = v ∷ values d

  -- new Map(pairs), Object.fromEntries(pairs): a later pair replaces an earlier one's value.
  unfoldable pub from_entries_onto : Dict V → List (String × V) → Dict V
  unfolding set
  from_entries_onto d [] = d
  from_entries_onto d ((k, v) ∷ ps) = from_entries_onto (set d k v) ps

  unfoldable pub from_entries : List (String × V) → Dict V
  unfolding from_entries_onto
  from_entries = from_entries_onto []

  pub get-set :
      (d : Dict V) (k j : String) (v : V) → get (set d k v) j ≡ (if k == j then some v else get d j)
  unfolding get set
  get-set [] k j v = refl
  get-set ((i, w) ∷ d) k j v = ground (arith, eq_iff k j, eq_iff i k, eq_iff i j, get-set d k j v)

  pub get-remove :
      (d : Dict V) (k j : String) → get (remove d k) j ≡ (if k == j then none else get d j)
  unfolding get remove
  get-remove [] k j = ground arith
  get-remove ((i, w) ∷ d) k j = ground (arith, eq_iff k j, eq_iff i k, eq_iff i j, get-remove d k j)

  pub has-get : (d : Dict V) (k : String) → (has d k ≡ false) → get d k ≡ none
  unfolding has get
  has-get [] k h = refl
  has-get ((j, v) ∷ d) k h = ground (arith, has-get d k)

  pub get-none : (d : Dict V) (k : String) → get d k ≡ none → has d k ≡ false
  unfolding has get
  get-none [] k h = refl
  get-none ((j, v) ∷ d) k h = ground (arith, get-none d k)

  pub get-has : (d : Dict V) (k : String) (v : V) → get d k ≡ some v → has d k ≡ true
  unfolding has get
  get-has [] k v h = absurd (cc)
  get-has ((j, w) ∷ d) k v h = ground (arith, get-has d k v)

  pub has-includes : (d : Dict V) (k : String) → has d k ≡ includes (keys d) k
  unfolding has
  has-includes [] k = refl
  has-includes ((j, v) ∷ d) k = ground (arith, has-includes d k)

  pub keys-set :
      (d : Dict V) (k j : String) (v : V)
      → includes (keys (set d k v)) j ≡ (if k == j then true else includes (keys d) j)
  unfolding set
  keys-set [] k j v = ground arith
  keys-set ((i, w) ∷ d) k j v = ground (arith, eq_iff k j, eq_iff i k, eq_iff i j, keys-set d k j v)

  pub set-Nodup : (d : Dict V) (k : String) (v : V) → Nodup (keys d) → Nodup (keys (set d k v))
  unfolding set
  set-Nodup [] k v h = ground arith
  set-Nodup ((i, w) ∷ d) k v h =
      ground (arith, eq_iff i k, eq_iff k i, keys-set d k i v, set-Nodup d k v)

  pub from_entries_onto-Nodup :
      (d : Dict V) (ps : List (String × V)) → Nodup (keys d) → Nodup (keys (from_entries_onto d ps))
  unfolding from_entries_onto
  from_entries_onto-Nodup d [] h = h
  from_entries_onto-Nodup d ((k, v) ∷ ps) h =
      from_entries_onto-Nodup (set d k v) ps (set-Nodup d k v h)

  pub from_entries-Nodup : (ps : List (String × V)) → Nodup (keys (from_entries ps))
  unfolding from_entries
  from_entries-Nodup ps = from_entries_onto-Nodup [] ps tt

  pub get-none_of_keys : (d : Dict V) (k : String) → includes (keys d) k ≡ false → get d k ≡ none
  unfolding get
  get-none_of_keys [] k h = refl
  get-none_of_keys ((j, v) ∷ d) k h = ground (arith, get-none_of_keys d k)

  pub has-set :
      (d : Dict V) (k j : String) (v : V) → has (set d k v) j ≡ (if k == j then true else has d j)
  unfolding has set
  has-set [] k j v = refl
  has-set ((i, w) ∷ d) k j v = ground (arith, eq_iff k j, eq_iff i k, eq_iff i j, has-set d k j v)

  -- A key that is new goes to the end.
  pub set_fresh : (d : Dict V) (k : String) (v : V) → has d k ≡ false → set d k v ≡ d ++ (k, v) ∷ []
  unfolding has set
  set_fresh [] k v h = refl
  set_fresh ((i, w) ∷ d) k v h = ground (arith, set_fresh d k v)

  -- Writing the value that is there changes nothing.
  pub set_same : (d : Dict V) (k : String) (v : V) → get d k ≡ some v → set d k v ≡ d
  unfolding get set
  set_same [] k v h = absurd (cc)
  set_same ((i, w) ∷ d) k v h = ground (arith, set_same d k v)

  pub has-append : (d e : Dict V) (k : String) → has (d ++ e) k ≡ (has d k || has e k)
  unfolding has
  has-append [] e k = refl
  has-append ((i, w) ∷ d) e k = ground (arith, has-append d e k)

  pub In-get : (d : Dict V) (k : String) (v : V) → get d k ≡ some v → In (k, v) d
  unfolding get
  In-get [] k v h = absurd (cc)
  In-get ((j, w) ∷ d) k v h = elim (Bool-cases (j == k)) [
    | inl e ↦ inl (cc ((eq_iff j k).0 e, h, ap (λ b. if b then some w else get d k) e))
    | inr e ↦ inr (In-get d k v (rw e at h))
  ]

  pub In-has : (d : Dict V) (k : String) (v : V) → In (k, v) d → has d k ≡ true
  unfolding has
  In-has [] k v m = absurd m
  In-has ((j, w) ∷ d) k v (inl e) = ground (arith, eq_iff j k, ap (λ (p : String × V). p.0) e)
  In-has ((j, w) ∷ d) k v (inr m) = ground (arith, In-has d k v m)

  -- Each key listed once: an entry is what a lookup of its key finds.
  pub get-In : (d : Dict V) (k : String) (v : V) → Nodup (keys d) → In (k, v) d → get d k ≡ some v
  unfolding get
  get-In [] k v u m = absurd m
  get-In ((j, w) ∷ d) k v u (inl e) =
      ground (arith, eq_iff j k, ap (λ (p : String × V). p.0) e, ap (λ (p : String × V). p.1) e)
  get-In ((j, w) ∷ d) k v u (inr m) =
      ground (arith, eq_iff j k, get-In d k v u.1 m, In-has d k v m, has-includes d k)

pub ruleset dict_laws = (get-set, get-remove)
