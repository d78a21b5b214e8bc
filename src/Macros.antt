-- ===== src/Macros.antt =====
-- The generic parts of services/aws_macros.ts: pages of results, mapping one after the other, tags.
mod Tests
use iasql.Base.{
  ℕ, ◌≡◌, ◌↔◌, ◌∙◌, sym, ap, refl, String, ◌==◌, eq_iff, eq_refl, Bool, true, false, ◌&&◌, Option,
  none, some, List, [], ◌∷◌, ◌++◌, map, all, any, length, beq, flat_map, includes, if◌then◌else◌,
  arith,
}
use iasql.Base.Members.{In, all-In, In-all}
use iasql.Base.Dict.{Dict, get, keys, In-get}

module _ {A : Type 0} where
  -- x ?? []
  abbrev pub or_nothing : Option (List A) → List A
  or_nothing none = []
  or_nothing (some xs) = xs

-- paginateBuilder, with and without a page name, on the pages that the paginator gives.
unfoldable pub paginate : {A : Type 0} → String → List (Dict (List A)) → List A
paginate prop_name pages = flat_map (λ page. or_nothing (get page prop_name)) pages

unfoldable pub paginate_pages :
    {A : Type 0} → String → String → List (Dict (List (Dict (List A)))) → List A
paginate_pages page_name prop_name pages =
    flat_map
      (λ page. flat_map (λ r. or_nothing (get r prop_name)) (or_nothing (get page page_name))) pages

-- mapLin: the mapper runs on one element after the other, and its state goes on.
unfoldable pub map_lin : {S A B : Type 0} → (A → S → S × B) → Option (List A) → S → S × List B
map_lin mapper none s = (s, [])
map_lin mapper (some []) s = (s, [])
map_lin mapper (some (x ∷ xs)) s =
    let (s1, y) = mapper x s in let (s2, ys) = map_lin mapper (some xs) s1 in (s2, y ∷ ys)

abbrev pub Tags : Type 0
Tags = Dict String

abbrev pub same_text : Option String → Option String → Bool
same_text none none = true
same_text (some a) (some b) = a == b
same_text _ _ = false

abbrev pub tags_or_none : Option Tags → Tags
tags_or_none none = []
tags_or_none (some t) = t

-- eqTags
unfoldable pub eq_tags : Option Tags → Option Tags → Bool
eq_tags a b =
    beq (length (keys (tags_or_none a))) (length (keys (tags_or_none b)))
    && all (λ ak. same_text (get (tags_or_none a) ak) (get (tags_or_none b) ak))
        (keys (tags_or_none a))

same_text-eq : (a b : Option String) → same_text a b ≡ true → a ≡ b
same_text-eq none none h = refl
same_text-eq (some a) (some b) h = ap some ((eq_iff a b).0 h)
same_text-eq none (some b) h = absurd (cc)
same_text-eq (some a) none h = absurd (cc)

same_text_refl : (a : Option String) → same_text a a ≡ true
same_text_refl none = refl
same_text_refl (some a) = eq_refl a

and_iff : (p q : Bool) → (p && q) ≡ true ↔ ((p ≡ true) × (q ≡ true))
and_iff true q = (λ h. (refl, h), λ h. h.1)
and_iff false q = (λ h. absurd (cc), λ h. absurd (cc (h.0)))

beq_iff : (m n : ℕ) → beq m n ≡ true ↔ (m ≡ n)
beq_iff m n = (λ h. ground arith, λ h. ground arith)

-- Two sets of tags count as equal exactly when they have as many keys and every key of the first has
-- the same value in both.
pub eq_tags_iff :
    (a b : Option Tags)
    → eq_tags a b ≡ true ↔ (
        (length (keys (tags_or_none a)) ≡ length (keys (tags_or_none b)))
        × ((k : String)
            → In k (keys (tags_or_none a))
            → get (tags_or_none a) k ≡ get (tags_or_none b) k))
unfolding eq_tags
eq_tags_iff a b = (
  λ h.
      let (n, e) = (and_iff _ _).0 h in
      (
        (beq_iff _ _).0 n,
        λ k i. same_text-eq _ _ (
            all-In (λ ak. same_text (get (tags_or_none a) ak) (get (tags_or_none b) ak)) k
              (keys (tags_or_none a)) e i),
      ),
  λ h. (and_iff _ _).1 (
    (beq_iff _ _).1 h.0,
    In-all (λ ak. same_text (get (tags_or_none a) ak) (get (tags_or_none b) ak))
        (keys (tags_or_none a)) (λ k i. rw (h.1 k i) (same_text_refl (get (tags_or_none b) k))),
  ),
)
