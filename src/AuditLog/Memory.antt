-- ===== src/AuditLog/Memory.antt =====
-- A repository in memory: it shows that what `LogRepo` asks of TypeORM can be had, and runs in tests.
use iasql.Base.{
  ℕ, suc, ◌+◌, ◌≤◌, ◌<◌, ◌≡◌, ◌⊎◌, ◌↔◌, inl, inr, ap, Bool, true, false, not, [], ◌∷◌, ◌++◌, leb,
  filter, arith, if◌then◌else◌, Bool-cases,
}
use iasql.Base.Members.{
  In, In-filter, filter-In, In-append, In-append_left, In-append_right, In-All, All-In,
}
use iasql.AuditLog.{AuditLog}
use iasql.AuditLog.Repo.{Table, IsNewestFirst, is_saved, LogRepo}

unfoldable pub put_newest : AuditLog → Table → Table
put_newest x [] = x ∷ []
put_newest x (y ∷ ys) = let rest = put_newest x ys in if leb y.ts x.ts then x ∷ y ∷ ys else y ∷ rest

unfoldable pub sort_newest : Table → Table
unfolding put_newest
sort_newest [] = []
sort_newest (x ∷ xs) = put_newest x (sort_newest xs)

In-put_newest : (a x : AuditLog) (t : Table) → In a (put_newest x t) → In a (x ∷ t)
unfolding put_newest
In-put_newest a x [] m = m
In-put_newest a x (y ∷ ys) m = ground (arith, In-put_newest a x ys)

put_newest-In : (a x : AuditLog) (t : Table) → In a (x ∷ t) → In a (put_newest x t)
unfolding put_newest
put_newest-In a x [] m = m
put_newest-In a x (y ∷ ys) m = ground (arith, put_newest-In a x ys)

In-sort_newest : (a : AuditLog) (t : Table) → In a (sort_newest t) → In a t
unfolding sort_newest
In-sort_newest a [] m = m
In-sort_newest a (x ∷ t) m = elim (In-put_newest a x (sort_newest t) m) [
  | inl e ↦ inl e
  | inr i ↦ inr (In-sort_newest a t i)
]

sort_newest-In : (a : AuditLog) (t : Table) → In a t → In a (sort_newest t)
unfolding sort_newest
sort_newest-In a [] m = m
sort_newest-In a (x ∷ t) (inl e) = put_newest-In a x (sort_newest t) (inl e)
sort_newest-In a (x ∷ t) (inr i) = put_newest-In a x (sort_newest t) (inr (sort_newest-In a t i))

put_newest-IsNewestFirst :
    (x : AuditLog) (t : Table) → IsNewestFirst t → IsNewestFirst (put_newest x t)
unfolding put_newest
put_newest-IsNewestFirst x [] h = (tt, tt)
put_newest-IsNewestFirst x (y ∷ ys) h = elim (Bool-cases (leb y.ts x.ts)) [
  | inl e ↦ rw e (
    (
      ground arith,
      In-All (λ z. z.ts ≤ x.ts) ys (λ z i. below e z (All-In (λ z. z.ts ≤ y.ts) z ys h.0 i)),
    ),
    h,
  )
  | inr e ↦ rw e (
    In-All (λ z. z.ts ≤ y.ts) (put_newest x ys) (λ z i. under e z (In-put_newest z x ys i)),
    put_newest-IsNewestFirst x ys h.1,
  )
]
  where
    below : leb y.ts x.ts ≡ true → (z : AuditLog) → z.ts ≤ y.ts → z.ts ≤ x.ts
    below e z le = ground arith

    under : leb y.ts x.ts ≡ false → (z : AuditLog) → In z (x ∷ ys) → z.ts ≤ y.ts
    under e z (inl q) = ground (arith, ap (λ (a : AuditLog). a.ts) q)
    under e z (inr i) = All-In (λ z. z.ts ≤ y.ts) z ys h.0 i

sort_newest-IsNewestFirst : (t : Table) → IsNewestFirst (sort_newest t)
unfolding sort_newest
sort_newest-IsNewestFirst [] = tt
sort_newest-IsNewestFirst (x ∷ t) =
    put_newest-IsNewestFirst x (sort_newest t) (sort_newest-IsNewestFirst t)

unfoldable pub above_ids : Table → ℕ
above_ids [] = 0
above_ids (x ∷ t) = suc x.id + above_ids t

pub above_ids-fresh : (t : Table) (x : AuditLog) → In x t → x.id < above_ids t
unfolding above_ids
above_ids-fresh [] x m = absurd m
above_ids-fresh (y ∷ t) x (inl e) = omega (arith, ap (λ (a : AuditLog). a.id) e)
above_ids-fresh (y ∷ t) x (inr m) = omega (arith, above_ids-fresh t x m)

abbrev pub save_rows : Table → Table → Table
save_rows rows t = filter (λ x. not (is_saved rows x)) t ++ filter (λ x. is_saved t x) rows

not-false : (b : Bool) → not b ≡ true → b ≡ false
not-false b h = ground arith

pub save_rows_iff :
    (rows t : Table) (x : AuditLog)
    → In x (save_rows rows t)
      ↔ (In x t × (is_saved rows x ≡ false)) ⊎ (In x rows × (is_saved t x ≡ true))
save_rows_iff rows t x = (
  (λ m.
      elim (In-append x (filter (λ y. not (is_saved rows y)) t) (filter (λ y. is_saved t y) rows)
        m) [
          | inl l ↦
              let (i, e) = In-filter (λ y. not (is_saved rows y)) x t l in
              inl (i, not-false (is_saved rows x) e)
          | inr r ↦ inr (In-filter (λ y. is_saved t y) x rows r)
        ]),
  (λ h. elim h [
    | inl (i, e) ↦ In-append_left x _ _ (filter-In (λ y. not (is_saved rows y)) x t i (rw e))
    | inr (i, e) ↦
        In-append_right x (filter (λ y. not (is_saved rows y)) t) _
          (filter-In (λ y. is_saved t y) x rows i e)
  ]),
)

pub found_sound :
    (p : AuditLog → Bool) (t : Table) (x : AuditLog)
    → In x (sort_newest (filter p t))
    → In x t × (p x ≡ true)
found_sound p t x m = In-filter p x t (In-sort_newest x (filter p t) m)

pub found_complete :
    (p : AuditLog → Bool) (t : Table) (x : AuditLog)
    → In x t
    → p x ≡ true
    → In x (sort_newest (filter p t))
found_complete p t x m e = sort_newest-In x (filter p t) (filter-In p x t m e)

pub found-IsNewestFirst :
    (p : AuditLog → Bool) (t : Table) → IsNewestFirst (sort_newest (filter p t))
found-IsNewestFirst p t = sort_newest-IsNewestFirst (filter p t)

abbrev pub memory_repo : LogRepo
memory_repo = record {
  find = λ p t. sort_newest (filter p t);
  find_sound = found_sound;
  find_complete = found_complete;
  find_newest_first = found-IsNewestFirst;
  next_id = above_ids;
  next_id_fresh = above_ids-fresh;
  save = save_rows;
  save_iff = save_rows_iff;
}
