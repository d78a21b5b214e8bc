-- ===== src/Policy/Order.antt =====
-- The order of texts by the UTF-16 units of their characters, and sorting by it.
use text.Mathlib.TextEquality.{codes_equal}
use iasql.Base.{
  ◌≡◌, inl, inr, refl, ap, ◌∙◌, String, true, false, List, [], ◌∷◌, map, arith, Bool-cases,
}
use mathlib.Core.List.Permᴰ.{Permᴰ, nil, cons, swap, trans}
use iasql.Base.Members.{All, All-imp}
use iasql.Policy.{text_leb, insert_text, sort_texts}

leb_total : (s t : String) → text_leb s t ≡ false → text_leb t s ≡ true
unfolding text_leb
leb_total String.[] t h = absurd (cc (h))
leb_total (String.◌∷◌ c s) String.[] h = refl
leb_total (String.◌∷◌ c s) (String.◌∷◌ d t) h = ground (arith, h, leb_total s t)

leb_antisym : (s t : String) → text_leb s t ≡ true → text_leb t s ≡ true → s ≡ t
unfolding text_leb
leb_antisym String.[] String.[] h k = refl
leb_antisym String.[] (String.◌∷◌ d t) h k = absurd (cc (k))
leb_antisym (String.◌∷◌ c s) String.[] h k = absurd (cc (h))
leb_antisym (String.◌∷◌ c s) (String.◌∷◌ d t) h k =
    ground (arith, h, k, codes_equal c d, leb_antisym s t)

leb_trans : (r s t : String) → text_leb r s ≡ true → text_leb s t ≡ true → text_leb r t ≡ true
unfolding text_leb
leb_trans String.[] s t h k = refl
leb_trans (String.◌∷◌ c r) String.[] t h k = absurd (cc (h))
leb_trans (String.◌∷◌ c r) (String.◌∷◌ d s) String.[] h k = absurd (cc (k))
leb_trans (String.◌∷◌ c r) (String.◌∷◌ d s) (String.◌∷◌ e t) h k =
    ground (arith, h, k, leb_trans r s t)

abbrev pub IsSorted : List String → Type 0
IsSorted [] = Unit
IsSorted (x ∷ xs) = All (λ y. text_leb x y ≡ true) xs × IsSorted xs

insert_text-All :
    (P : String → Type 0) (x : String) (ys : List String)
    → P x
    → All P ys
    → All P (insert_text x ys)
unfolding insert_text
insert_text-All P x [] p h = (p, tt)
insert_text-All P x (y ∷ ys) p h = elim (Bool-cases (text_leb x y)) [
  | inl e ↦ rw e (p, h)
  | inr e ↦ rw e (h.0, insert_text-All P x ys p h.1)
]

insert_text-IsSorted : (x : String) (ys : List String) → IsSorted ys → IsSorted (insert_text x ys)
unfolding insert_text
insert_text-IsSorted x [] h = (tt, tt)
insert_text-IsSorted x (y ∷ ys) h = elim (Bool-cases (text_leb x y)) [
  | inl e ↦ rw e ((e, All-imp _ _ ys (λ z l. leb_trans x y z e l) h.0), h)
  | inr e ↦ rw e (
    insert_text-All (λ z. text_leb y z ≡ true) x ys (leb_total x y e) h.0,
    insert_text-IsSorted x ys h.1,
  )
]

pub sort_texts-IsSorted : (xs : List String) → IsSorted (sort_texts xs)
unfolding sort_texts
sort_texts-IsSorted [] = tt
sort_texts-IsSorted (x ∷ xs) = insert_text-IsSorted x (sort_texts xs) (sort_texts-IsSorted xs)

pub sort_texts-All : (P : String → Type 0) (xs : List String) → All P xs → All P (sort_texts xs)
unfolding sort_texts
sort_texts-All P [] h = tt
sort_texts-All P (x ∷ xs) h = insert_text-All P x (sort_texts xs) h.0 (sort_texts-All P xs h.1)

insert_least :
    (x : String) (ys : List String) → All (λ y. text_leb x y ≡ true) ys → insert_text x ys ≡ x ∷ ys
unfolding insert_text
insert_least x [] h = refl
insert_least x (y ∷ ys) h = rw (h.0) refl

sort_texts_sorted : (xs : List String) → IsSorted xs → sort_texts xs ≡ xs
unfolding sort_texts
sort_texts_sorted [] h = refl
sort_texts_sorted (x ∷ xs) h = ap (insert_text x) (sort_texts_sorted xs h.1) ∙ insert_least x xs h.0

pub sort_texts_idem : (xs : List String) → sort_texts (sort_texts xs) ≡ sort_texts xs
sort_texts_idem xs = sort_texts_sorted (sort_texts xs) (sort_texts-IsSorted xs)

-- Two insertions in either order.
insert_comm :
    (x y : String) (zs : List String)
    → insert_text x (insert_text y zs) ≡ insert_text y (insert_text x zs)
unfolding insert_text
insert_comm x y [] = ground (arith, leb_total x y, leb_total y x, leb_antisym x y)
insert_comm x y (z ∷ zs) = ground (
  arith,
  insert_comm x y zs,
  leb_total x y,
  leb_total y x,
  leb_antisym x y,
  leb_trans x y z,
  leb_trans y x z,
  leb_total x z,
  leb_total y z,
  leb_trans y z x,
  leb_trans x z y,
)

-- Sorting forgets the order.
pub sort_texts-perm : (xs ys : List String) → Permᴰ xs ys → sort_texts xs ≡ sort_texts ys
unfolding sort_texts
sort_texts-perm xs ys nil = refl
sort_texts-perm xs ys (cons e d) = cc (e, sort_texts-perm _ _ d)
sort_texts-perm xs ys (swap {a} {b} {a'} {b'} {l} e f) = cc (insert_comm a b (sort_texts l), e, f)
sort_texts-perm xs ys (trans d e) = sort_texts-perm _ _ d ∙ sort_texts-perm _ _ e

-- A map of a reordered list is reordered.
pub map-perm :
    (f : String → String) (xs ys : List String) → Permᴰ xs ys → Permᴰ (map f xs) (map f ys)
map-perm f xs ys nil = nil
map-perm f xs ys (cons e d) = cons (ap f e) (map-perm f _ _ d)
map-perm f xs ys (swap d e) = swap (ap f d) (ap f e)
map-perm f xs ys (trans d e) = trans (map-perm f _ _ d) (map-perm f _ _ e)
