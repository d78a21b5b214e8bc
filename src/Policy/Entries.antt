-- ===== src/Policy/Entries.antt =====
-- Entries that a function maps and a map collects, once and again.
use iasql.Base.{
  ◌≡◌, refl, sym, ap, ◌∙◌, subst, inl, inr, append-nil, String, ◌==◌, eq_iff, false, List, [], ◌∷◌,
  ◌++◌, map, includes, append_assoc, arith, Bool-cases,
}
use iasql.Base.Members.{All, Nodup, includes-append}
use iasql.Base.Dict.{
  Dict, set, keys, from_entries, from_entries_onto, set_fresh, has-includes, from_entries-Nodup,
}

-- Texts that a function leaves as they are.
abbrev pub Fixes : {A : Type 0} → (A → A) → A → Type 0
Fixes f x = f x ≡ x

pub map-Fixes : {A : Type 0} (f : A → A) (xs : List A) → All (Fixes f) xs → map f xs ≡ xs
map-Fixes f [] h = refl
map-Fixes f (x ∷ xs) h = cc (h.0, map-Fixes f xs h.1)

pub map-All :
    {A B : Type 0} (f : A → B) (P : B → Type 0) (xs : List A)
    → ((x : A) → P (f x))
    → All P (map f xs)
map-All f P [] h = tt
map-All f P (x ∷ xs) h = (h x, map-All f P xs h)

set-All :
    {V : Type 0} (P : String × V → Type 0) (d : Dict V) (k : String) (v : V)
    → All P d
    → P (k, v)
    → All P (set d k v)
unfolding set
set-All P [] k v h p = (p, tt)
set-All P ((j, w) ∷ d) k v h p = elim (Bool-cases (j == k)) [
  | inl e ↦ rw e (subst (λ i. P (i, v)) (sym ((eq_iff j k).0 e)) p, h.1)
  | inr e ↦ rw e (h.0, set-All P d k v h.1 p)
]

pub from_entries_onto-All :
    {V : Type 0} (P : String × V → Type 0) (d ps : Dict V)
    → All P d
    → All P ps
    → All P (from_entries_onto d ps)
unfolding from_entries_onto
from_entries_onto-All P d [] h k = h
from_entries_onto-All P d ((j, v) ∷ ps) h k =
    from_entries_onto-All P (set d j v) ps (set-All P d j v h k.0) k.1

-- Entries with different keys are all kept, in order.
keys-append : {V : Type 0} (d e : Dict V) → keys (d ++ e) ≡ keys d ++ keys e
keys-append [] e = refl
keys-append ((k, v) ∷ d) e = ap (λ ks. k ∷ ks) (keys-append d e)

middle-fresh : (xs ys : List String) (x : String) → Nodup (xs ++ x ∷ ys) → includes xs x ≡ false
middle-fresh [] ys x h = refl
middle-fresh (y ∷ xs) ys x h = ground (
  arith,
  h.0,
  includes-append xs (x ∷ ys) y,
  eq_iff x y,
  eq_iff y x,
  eq_iff x x,
  middle-fresh xs ys x h.1,
)

from_entries_onto_fresh :
    {V : Type 0} (d ps : Dict V) → Nodup (keys (d ++ ps)) → from_entries_onto d ps ≡ d ++ ps
unfolding from_entries_onto
from_entries_onto_fresh d [] h = sym (append-nil d)
from_entries_onto_fresh d ((k, v) ∷ ps) h =
    let fresh =
      has-includes d k
      ∙ middle-fresh (keys d) (keys ps) k (subst Nodup (keys-append d ((k, v) ∷ ps)) h) in
    let moved = append_assoc d ((k, v) ∷ []) ps in
    rw (set_fresh d k v fresh) (
      from_entries_onto_fresh (d ++ (k, v) ∷ []) ps (subst (λ e. Nodup (keys e)) (sym moved) h)
      ∙ moved)

from_entries_same : {V : Type 0} (d : Dict V) → Nodup (keys d) → from_entries d ≡ d
unfolding from_entries
from_entries_same d h = from_entries_onto_fresh [] d h

-- Mapping the entries by a function that is done at once, and collecting them, is done at once.
pub entries_idem :
    {V : Type 0} (f : String × V → String × V) (d : Dict V)
    → ((p : String × V) → f (f p) ≡ f p)
    → from_entries (map f (from_entries (map f d))) ≡ from_entries (map f d)
unfolding from_entries
entries_idem f d idem =
    ap from_entries (
      map-Fixes f (from_entries (map f d))
        (from_entries_onto-All (Fixes f) [] (map f d) tt (map-All f (Fixes f) d idem)))
    ∙ from_entries_same (from_entries (map f d)) (from_entries-Nodup (map f d))
