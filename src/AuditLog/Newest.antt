-- ===== src/AuditLog/Newest.antt =====
-- The first row of a query's result is the newest row that meets its condition.
use iasql.Base.{
  ◌≤◌, ◌<◌, ◌≡◌, ◌⊎◌, inl, inr, refl, ap, ◌∙◌, Bool, true, false, none, some, [], ◌∷◌, head?, take,
  arith, Option-cases, Bool-cases,
}
use iasql.Base.Members.{In, All-In}
use iasql.AuditLog.{AuditLog}
use iasql.AuditLog.Repo.{Table, IsNewestFirst, LogRepo}

head?-In : (l : Table) (x : AuditLog) → head? l ≡ some x → In x l
head?-In [] x h = absurd (cc)
head?-In (y ∷ l) x h = inl (ground arith)

head?-newest :
    (l : Table) (x y : AuditLog) → IsNewestFirst l → head? l ≡ some x → In y l → y.ts ≤ x.ts
head?-newest [] x y s h m = absurd m
head?-newest (z ∷ l) x y s h (inl e) =
    let q : z ≡ x = ground arith in omega (arith, ap (λ (a : AuditLog). a.ts) (e ∙ q))
head?-newest (z ∷ l) x y s h (inr m) =
    let q : z ≡ x = ground arith in
    omega (arith, All-In (λ w. w.ts ≤ z.ts) y l s.0 m, ap (λ (a : AuditLog). a.ts) q)

nothing-In : (l : Table) (x : AuditLog) → head? l ≡ none → ¬ In x l
nothing-In [] x h m = m
nothing-In (y ∷ l) x h m = absurd (cc)

-- take: 1
pub head?-take_one : (l : Table) → head? (take 1 l) ≡ head? l
head?-take_one [] = refl
head?-take_one (x ∷ l) = refl

pub head?-take_two : (l : Table) → head? (take 2 l) ≡ head? l
head?-take_two [] = refl
head?-take_two (x ∷ l) = refl

module _ (orm : LogRepo) (p : AuditLog → Bool) (t : Table) where
  open orm use {find, find_sound, find_complete, find_newest_first}

  -- The newest row that meets `p`, for what a query returns first.
  abbrev pub IsNewest : AuditLog → Type 0
  IsNewest x = In x t × (p x ≡ true) × ((y : AuditLog) → In y t → p y ≡ true → y.ts ≤ x.ts)

  pub found-IsNewest : (x : AuditLog) → head? (find p t) ≡ some x → IsNewest x
  found-IsNewest x h =
      let (i, e) = find_sound p t x (head?-In (find p t) x h) in
      (
        i,
        e,
        λ y j q. head?-newest (find p t) x y (find_newest_first p t) h (find_complete p t y j q),
      )

  pub found-none : head? (find p t) ≡ none → (x : AuditLog) → In x t → p x ≡ false
  found-none h x i = elim (Bool-cases (p x)) [
    | inl e ↦ absurd (nothing-In (find p t) x h (find_complete p t x i e))
    | inr e ↦ e
  ]

  -- A row that meets `p` and is newer than all others that do is found first.
  pub found_latest :
      (x : AuditLog)
      → In x t
      → p x ≡ true
      → ((y : AuditLog) → In y t → p y ≡ true → (y ≡ x) ⊎ (y.ts < x.ts))
      → head? (find p t) ≡ some x
  found_latest x i e latest = elim (Option-cases (head? (find p t))) [
    | inl q ↦ absurd (cc (found-none q x i))
    | inr (y, q) ↦
        let (j, f, newest) = found-IsNewest y q in
        elim (latest y j f) [
          | inl same ↦ q ∙ ap some same
          | inr older ↦ absurd (omega (arith, newest x i e))
        ]
  ]
