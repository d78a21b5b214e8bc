-- ===== src/Base/Members.antt =====
-- Membership as a type that computes, and what it says of the Boolean tests.
use iasql.Base.Lists.{filter, any, all, find?, includes, flat_map, dedupe_from, dedupe}
use iasql.Base.Tests.{Bool-cases, if◌then◌else◌}
use Prim.Native.String.{String}
use mathlib.Core.Path.{◌≡◌, refl, ap}
use mathlib.Core.Logic.{◌⊎◌, inl, inr}
use mathlib.Core.Bool.{Bool, true, false, ◌||◌}
use mathlib.Core.Option.{none, some}
use mathlib.Core.List.{List, [], ◌∷◌, ◌++◌, map}
use native.Mathlib.Omega.{arith}
use text.Mathlib.TextEquality.{eq_iff}
use text.Mathlib.TextPositions.{eq_refl}

module _ {A : Type 0} where
  abbrev pub In : A → List A → Type 0
  In a [] = ⊥
  In a (x ∷ xs) = (a ≡ x) ⊎ In a xs

  pub In-append_left : (a : A) (xs ys : List A) → In a xs → In a (xs ++ ys)
  In-append_left a [] ys m = absurd m
  In-append_left a (x ∷ xs) ys (inl e) = inl e
  In-append_left a (x ∷ xs) ys (inr m) = inr (In-append_left a xs ys m)

  pub In-append_right : (a : A) (xs ys : List A) → In a ys → In a (xs ++ ys)
  In-append_right a [] ys m = m
  In-append_right a (x ∷ xs) ys m = inr (In-append_right a xs ys m)

  pub In-append : (a : A) (xs ys : List A) → In a (xs ++ ys) → In a xs ⊎ In a ys
  In-append a [] ys m = inr m
  In-append a (x ∷ xs) ys (inl e) = inl (inl e)
  In-append a (x ∷ xs) ys (inr m) = elim (In-append a xs ys m) [
    | inl l ↦ inl (inr l)
    | inr r ↦ inr r
  ]

  pub In-filter : (p : A → Bool) (a : A) (xs : List A) → In a (filter p xs) → In a xs × (p a ≡ true)
  In-filter p a [] m = absurd m
  In-filter p a (x ∷ xs) m = ground (arith, In-filter p a xs)

  pub filter-In : (p : A → Bool) (a : A) (xs : List A) → In a xs → p a ≡ true → In a (filter p xs)
  filter-In p a [] m h = absurd m
  filter-In p a (x ∷ xs) m h = ground (arith, filter-In p a xs)

  pub any-In : (p : A → Bool) (a : A) (xs : List A) → In a xs → p a ≡ true → any p xs ≡ true
  any-In p a [] m h = absurd m
  any-In p a (x ∷ xs) m h = ground (arith, any-In p a xs)

  pub In-any : (p : A → Bool) (xs : List A) → any p xs ≡ true → (a : A) × In a xs × (p a ≡ true)
  In-any p [] h = absurd (cc)
  In-any p (x ∷ xs) h = elim (Bool-cases (p x)) [
    | inl e ↦ (x, inl refl, e)
    | inr e ↦ let (a, m, q) = In-any p xs (rw e at h) in (a, inr m, q)
  ]

  pub all-In : (p : A → Bool) (a : A) (xs : List A) → all p xs ≡ true → In a xs → p a ≡ true
  all-In p a [] h m = absurd m
  all-In p a (x ∷ xs) h m = ground (arith, all-In p a xs)

  pub In-all : (p : A → Bool) (xs : List A) → ((a : A) → In a xs → p a ≡ true) → all p xs ≡ true
  In-all p [] h = refl
  In-all p (x ∷ xs) h = ground (arith, h x (inl refl), In-all p xs (λ a m. h a (inr m)))

  pub In-find? : (p : A → Bool) (a : A) (xs : List A) → find? p xs ≡ some a → In a xs × (p a ≡ true)
  In-find? p a [] h = absurd (cc)
  In-find? p a (x ∷ xs) h = ground (arith, In-find? p a xs)

  pub find?-none : (p : A → Bool) (a : A) (xs : List A) → find? p xs ≡ none → In a xs → p a ≡ false
  find?-none p a [] h m = absurd m
  find?-none p a (x ∷ xs) h m = ground (arith, find?-none p a xs)

  abbrev pub All : (A → Type 0) → List A → Type 0
  All P [] = Unit
  All P (x ∷ xs) = P x × All P xs

  pub All-append : (P : A → Type 0) (xs ys : List A) → All P xs → All P ys → All P (xs ++ ys)
  All-append P [] ys hx hy = hy
  All-append P (x ∷ xs) ys hx hy = (hx.0, All-append P xs ys hx.1 hy)

  pub All-imp : (P Q : A → Type 0) (xs : List A) → ((a : A) → P a → Q a) → All P xs → All Q xs
  All-imp P Q [] f h = tt
  All-imp P Q (x ∷ xs) f h = (f x h.0, All-imp P Q xs f h.1)

  pub All-In : (P : A → Type 0) (a : A) (xs : List A) → All P xs → In a xs → P a
  All-In P a [] h m = absurd m
  All-In P a (x ∷ xs) h (inl e) = rw e h.0
  All-In P a (x ∷ xs) h (inr m) = All-In P a xs h.1 m

  pub In-All : (P : A → Type 0) (xs : List A) → ((a : A) → In a xs → P a) → All P xs
  In-All P [] h = tt
  In-All P (x ∷ xs) h = (h x (inl refl), In-All P xs (λ a m. h a (inr m)))

module _ {A B : Type 0} where
  pub In-map : (f : A → B) (a : A) (xs : List A) → In a xs → In (f a) (map f xs)
  In-map f a [] m = absurd m
  In-map f a (x ∷ xs) (inl e) = inl (ap f e)
  In-map f a (x ∷ xs) (inr m) = inr (In-map f a xs m)

  pub map-In : (f : A → B) (b : B) (xs : List A) → In b (map f xs) → (a : A) × In a xs × (b ≡ f a)
  map-In f b [] m = absurd m
  map-In f b (x ∷ xs) (inl e) = (x, inl refl, e)
  map-In f b (x ∷ xs) (inr m) = let (a, i, e) = map-In f b xs m in (a, inr i, e)

  pub In-flat_map :
      (f : A → List B) (a : A) (b : B) (xs : List A) → In a xs → In b (f a) → In b (flat_map f xs)
  In-flat_map f a b [] m i = absurd m
  In-flat_map f a b (x ∷ xs) (inl e) i = In-append_left b (f x) (flat_map f xs) (rw e at i)
  In-flat_map f a b (x ∷ xs) (inr m) i =
      In-append_right b (f x) (flat_map f xs) (In-flat_map f a b xs m i)

  pub flat_map-In :
      (f : A → List B) (b : B) (xs : List A) → In b (flat_map f xs) → (a : A) × In a xs × In b (f a)
  flat_map-In f b [] m = absurd m
  flat_map-In f b (x ∷ xs) m = elim (In-append b (f x) (flat_map f xs) m) [
    | inl l ↦ (x, inl refl, l)
    | inr r ↦ let (a, i, j) = flat_map-In f b xs r in (a, inr i, j)
  ]

pub In-includes : (s : String) (xs : List String) → includes xs s ≡ true → In s xs
In-includes s [] h = absurd (cc)
In-includes s (x ∷ xs) h = ground (arith, eq_iff x s, In-includes s xs)

pub includes-In : (s : String) (xs : List String) → In s xs → includes xs s ≡ true
includes-In s [] m = absurd m
includes-In s (x ∷ xs) m = ground (arith, eq_iff x s, includes-In s xs)

pub includes-append :
    (xs ys : List String) (s : String) → includes (xs ++ ys) s ≡ (includes xs s || includes ys s)
includes-append [] ys s = refl
includes-append (x ∷ xs) ys s = ground (arith, includes-append xs ys s)

abbrev pub Nodup : List String → Type 0
Nodup [] = Unit
Nodup (x ∷ xs) = (includes xs x ≡ false) × Nodup xs

pub includes-dedupe_from :
    (seen xs : List String) (s : String)
    → includes (dedupe_from seen xs) s ≡ (if includes seen s then false else includes xs s)
includes-dedupe_from seen [] s = ground arith
includes-dedupe_from seen (x ∷ xs) s =
    ground (arith, eq_iff x s, includes-dedupe_from seen xs s, includes-dedupe_from (x ∷ seen) xs s)

pub includes-dedupe : (xs : List String) (s : String) → includes (dedupe xs) s ≡ includes xs s
includes-dedupe xs s = includes-dedupe_from [] xs s

pub dedupe_from-Nodup : (seen xs : List String) → Nodup (dedupe_from seen xs)
dedupe_from-Nodup seen [] = tt
dedupe_from-Nodup seen (x ∷ xs) = ground (
  arith,
  eq_refl x,
  includes-dedupe_from (x ∷ seen) xs x,
  dedupe_from-Nodup seen xs,
  dedupe_from-Nodup (x ∷ seen) xs,
)
