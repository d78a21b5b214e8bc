-- ===== src/Policy/Normal.antt =====
-- The canonical form of a policy (services/canonical-iam-policy.ts) is canonical: normalising it again
-- changes nothing, and the order of actions and resources does not matter.
use iasql.Base.{
  ◌≡◌, refl, sym, ap, ◌∙◌, inl, inr, eq_refl, String, ◌==◌, eq_iff, Bool, true, false, Option, none,
  some, List, [], ◌∷◌, map, dedupe, dedupe_from, includes, arith, Bool-cases,
}
use iasql.Base.Members.{Nodup, dedupe_from-Nodup}
use iasql.Policy.{
  Texts, single, several, Principal, everyone, principals, text, Scalars, many, Condition,
  Statement, lone, list, Policy, sort_texts, scalar_text, listed_scalars, listed_texts, when_set,
  normalize_action, normalize_resource, as_array, normalize_principal, normalize_value,
  normalize_key, normalize_operator, normalize_condition, on_some, normalize_statement,
  listed_statements, normalize_policy, policies_are_same,
}
use mathlib.Core.List.Permᴰ.{Permᴰ}
use iasql.Policy.Order.{sort_texts-perm, map-perm, sort_texts-All, sort_texts_idem}
use iasql.Policy.Entries.{Fixes, map-Fixes, map-All, entries_idem}

dedupe_from_same :
    (seen xs : List String)
    → Nodup xs
    → ((s : String) → includes xs s ≡ true → includes seen s ≡ false)
    → dedupe_from seen xs ≡ xs
dedupe_from_same seen [] u h = refl
dedupe_from_same seen (x ∷ xs) u h = ground (
  arith,
  h x,
  eq_refl x,
  dedupe_from_same (x ∷ seen) xs u.1 (λ s i. ground (arith, u.0, i, h s, eq_iff x s)),
)

dedupe_idem : (xs : List String) → dedupe (dedupe xs) ≡ dedupe xs
dedupe_idem xs = dedupe_from_same [] (dedupe xs) (dedupe_from-Nodup [] xs) (λ s i. refl)

scalar_text-text : (xs : List String) → map scalar_text (map text xs) ≡ xs
scalar_text-text [] = refl
scalar_text-text (x ∷ xs) = ap (λ ys. x ∷ ys) (scalar_text-text xs)

when_set_idem :
    (f : Texts → Texts) (o : Option Texts)
    → ((t : Texts) → (xs : List String) × (f t ≡ several xs))
    → ((t : Texts) → f (f t) ≡ f t)
    → when_set f (when_set f o) ≡ when_set f o
when_set_idem f none s idem = refl
when_set_idem f (some (single t)) s idem = elim (Bool-cases (t == "")) [
  | inl e ↦ rw (e, e) refl
  | inr e ↦ let (xs, q) = s (single t) in rw (e, q) (ap some (sym (ap f q) ∙ idem (single t) ∙ q))
]
when_set_idem f (some (several ts)) s idem =
    let (xs, e) = s (several ts) in rw e (ap some (sym (ap f e) ∙ idem (several ts) ∙ e))

module _ (to_lower : String → String)
    (to_lower_idem : (s : String) → to_lower (to_lower s) ≡ to_lower s) where
  normalize_action_idem :
      (t : Texts)
      → normalize_action to_lower (normalize_action to_lower t) ≡ normalize_action to_lower t
  unfolding normalize_action
  normalize_action_idem t = ap several (
      ap sort_texts (
        map-Fixes to_lower (sort_texts (map to_lower (listed_texts t))) (
          sort_texts-All (Fixes to_lower) (map to_lower (listed_texts t))
            (map-All to_lower (Fixes to_lower) (listed_texts t) to_lower_idem)))
      ∙ sort_texts_idem (map to_lower (listed_texts t)))

  normalize_resource_idem :
      (t : Texts)
      → normalize_resource to_lower (normalize_resource to_lower t) ≡ normalize_resource to_lower t
  unfolding normalize_resource
  normalize_resource_idem t = ap several (sort_texts_idem (listed_texts t))

  normalize_value_idem :
      (v : Scalars)
      → normalize_value to_lower (normalize_value to_lower v) ≡ normalize_value to_lower v
  normalize_value_idem v =
      ap (λ xs. many (map text (dedupe xs)))
        (scalar_text-text (dedupe (map scalar_text (listed_scalars v))))
      ∙ ap (λ xs. many (map text xs)) (dedupe_idem (map scalar_text (listed_scalars v)))

  normalize_condition_idem :
      (c : Condition)
      → normalize_condition to_lower (normalize_condition to_lower c)
        ≡ normalize_condition to_lower c
  unfolding normalize_condition
  normalize_condition_idem c = entries_idem (normalize_operator to_lower) c λ p.
      ap (λ d. (p.0, d))
        (entries_idem (normalize_key to_lower) p.1
          (λ q. cc (to_lower_idem q.0, normalize_value_idem q.1)))

  as_array_idem :
      (o : Option Texts)
      → when_set (as_array to_lower) (when_set (as_array to_lower) o)
        ≡ when_set (as_array to_lower) o
  as_array_idem o = when_set_idem (as_array to_lower) o (λ t. (listed_texts t, refl)) (λ t. refl)

  actions_idem :
      (o : Option Texts)
      → when_set (normalize_action to_lower) (when_set (normalize_action to_lower) o)
        ≡ when_set (normalize_action to_lower) o
  unfolding normalize_action
  actions_idem o =
      when_set_idem (normalize_action to_lower) o (λ t. (_, several_action t)) normalize_action_idem
    where
      several_action :
          (t : Texts)
          → normalize_action to_lower t ≡ several (sort_texts (map to_lower (listed_texts t)))
      several_action t = refl

  resources_idem :
      (o : Option Texts)
      → when_set (normalize_resource to_lower) (when_set (normalize_resource to_lower) o)
        ≡ when_set (normalize_resource to_lower) o
  unfolding normalize_resource
  resources_idem o =
      when_set_idem (normalize_resource to_lower) o (λ t. (_, several_resource t))
        normalize_resource_idem
    where
      several_resource :
          (t : Texts) → normalize_resource to_lower t ≡ several (sort_texts (listed_texts t))
      several_resource t = refl

  principal_idem :
      (p : Principal)
      → normalize_principal to_lower (normalize_principal to_lower p)
        ≡ normalize_principal to_lower p
  unfolding normalize_principal
  principal_idem everyone = refl
  principal_idem (principals p) =
      cc (as_array_idem p.aws, as_array_idem p.service, as_array_idem p.federated)

  on_some_idem :
      {A : Type 0} (f : A → A) (o : Option A)
      → ((a : A) → f (f a) ≡ f a)
      → on_some to_lower f (on_some to_lower f o) ≡ on_some to_lower f o
  on_some_idem f none h = refl
  on_some_idem f (some a) h = ap some (h a)

  statement_idem :
      (s : Statement)
      → normalize_statement to_lower (normalize_statement to_lower s)
        ≡ normalize_statement to_lower s
  unfolding normalize_statement
  statement_idem s = cc (
    actions_idem s.action,
    actions_idem s.not_action,
    on_some_idem (normalize_principal to_lower) s.principal principal_idem,
    on_some_idem (normalize_principal to_lower) s.not_principal principal_idem,
    resources_idem s.resource,
    resources_idem s.not_resource,
    on_some_idem (normalize_condition to_lower) s.condition normalize_condition_idem,
  )

  map_idem :
      (ss : List Statement)
      → map (normalize_statement to_lower) (map (normalize_statement to_lower) ss)
        ≡ map (normalize_statement to_lower) ss
  map_idem ss = map-Fixes (normalize_statement to_lower) (map (normalize_statement to_lower) ss) (
      map-All (normalize_statement to_lower) (Fixes (normalize_statement to_lower)) ss
        statement_idem)

  -- Where putting a text into lower case twice is the same as once, the canonical form of the canonical
  -- form of a policy is that form.
  pub normalize_policy_idem :
      (p : Policy)
      → normalize_policy to_lower (normalize_policy to_lower p) ≡ normalize_policy to_lower p
  unfolding normalize_policy
  normalize_policy_idem p =
      ap (λ ss. record p { statement = list ss })
        (map_idem (listed_statements to_lower p.statement))

-- Two policies with one statement, which differ in the order of its actions and of its resources only, are
-- the same, for a comparison of canonical forms by which each is equal to itself.
pub policies_are_same-perm :
    (to_lower : String → String) (is_equal : Policy → Policy → Bool)
    → ((p : Policy) → is_equal p p ≡ true)
    → (p : Policy) (s : Statement) (actions actions' resources resources' : List String)
    → Permᴰ actions actions'
    → Permᴰ resources resources'
    → policies_are_same to_lower is_equal
        (some (record p {
          statement =
              lone
                (record s { action = some (several actions); resource = some (several resources) });
        }))
        (some (record p {
          statement =
              lone (record s {
                action = some (several actions');
                resource = some (several resources');
              });
        }))
      ≡ true
unfolding policies_are_same normalize_policy normalize_statement normalize_action normalize_resource
policies_are_same-perm to_lower is_equal same p s actions actions' resources resources' a r =
    rw
      (
        sort_texts-perm (map to_lower actions) (map to_lower actions')
            (map-perm to_lower actions actions' a),
        sort_texts-perm resources resources' r,
      )
      (same _)
