-- ===== src/AuditLog/Locking.antt =====
-- The transaction lock: what opening and closing do to `is_open_transaction`, and what
-- `is_commit_running` sees.
use iasql.Base.{
  ℕ, zero, suc, ◌<◌, ◌≡◌, ◌≢◌, ◌⊎◌, ◌↔◌, ◌∙◌, ap, inl, inr, refl, String, eq_iff, Bool, true, false,
  Option, none, some, List, [], ◌∷◌, head?, arith, map, Bool-cases, Option-cases,
}
use iasql.Base.Members.{In, map-In}
use iasql.AuditLog.{ChangeType, open_transaction, close_transaction, AuditLog}
use iasql.AuditLog.Repo.{LogRepo, Table}
use iasql.AuditLog.Newest.{found_latest, head?-take_one}
use iasql.AuditLog.Query.{
  is_one_of, is_commit_running, insert_log, is_open_transaction, get_current_transaction_id,
  update_iasql_records_since, with_transaction,
}
use iasql.AuditLog.Transactions.{
  Surroundings, is_busy, try_open, maybe_open_transaction, close_transaction_of,
}

-- Every row of the table is older than the given time.
abbrev pub IsBefore : ℕ → Table → Type 0
IsBefore now t = (x : AuditLog) → In x t → x.ts < now

abbrev transaction_marks : List ChangeType
transaction_marks = open_transaction ∷ close_transaction ∷ []

module _ (orm : LogRepo) (engine : String) where
  open orm use {find}

  -- A row that is newer than all others is found first by each query that it meets.
  newest_row :
      (p : AuditLog → Bool) (x : AuditLog) (t : Table)
      → IsBefore x.ts t
      → p x ≡ true
      → head? (find p (x ∷ t)) ≡ some x
  newest_row p x t before e = found_latest orm p (x ∷ t) x (inl refl) e (λ y i _. latest y i)
    where
      latest : (y : AuditLog) → In y (x ∷ t) → (y ≡ x) ⊎ (y.ts < x.ts)
      latest y (inl q) = inl q
      latest y (inr i) = inr (before y i)

  is_open_of_first :
      (t : Table) (l : AuditLog)
      → head? (find (is_one_of transaction_marks) t) ≡ some l
      → is_open_transaction orm engine t ≡ is_one_of (open_transaction ∷ []) l
  unfolding is_open_transaction
  is_open_of_first t l e = rw (head?-take_one, e, is_open_transaction) refl

  current_id_of_first :
      (t : Table) (l : AuditLog)
      → head? (find (is_one_of (open_transaction ∷ [])) t) ≡ some l
      → get_current_transaction_id orm engine t ≡ l.transaction_id
  unfolding get_current_transaction_id
  current_id_of_first t l e = rw (e, get_current_transaction_id) refl

  insert_open :
      (t : Table) (now : ℕ) (i : String)
      → IsBefore now t
      → i ≢ ""
      → (is_open_transaction orm engine
            (insert_log orm engine t now open_transaction (some i) none).1
          ≡ true)
        × (get_current_transaction_id orm engine
              (insert_log orm engine t now open_transaction (some i) none).1
            ≡ some i)
  unfolding insert_log
  insert_open t now i before named = (
    is_open_of_first _ _ (newest_row (is_one_of transaction_marks) _ t before refl),
    current_id_of_first _ _ (newest_row (is_one_of (open_transaction ∷ [])) _ t before refl)
        ∙ ground (arith, eq_iff i ""),
  )

  ts-with_transaction :
      (i : Option String) (l : AuditLog) → (with_transaction orm engine i l).ts ≡ l.ts
  ts-with_transaction none l = refl
  ts-with_transaction (some i) l = ground arith

  -- Giving rows a transaction id changes no time.
  IsBefore-update :
      (t : Table) (now : ℕ) (mark : ChangeType) (i : Option String)
      → IsBefore now t
      → IsBefore now (update_iasql_records_since orm engine t mark i)
  unfolding update_iasql_records_since
  IsBefore-update t now mark i before x m =
      elim (Option-cases (head? (find (is_one_of (mark ∷ [])) t))) [
        | inl e ↦ before x (rw (e, update_iasql_records_since) at m)
        | inr (last, e) ↦
            saved _ (λ y j. (orm.find_sound _ t y j).0) (rw (e, update_iasql_records_since) at m)
      ]
    where
      saved :
          (rows : Table)
          → ((y : AuditLog) → In y rows → In y t)
          → In x (orm.save (map (with_transaction orm engine i) rows) t)
          → x.ts < now
      saved rows sub j = elim ((orm.save_iff (map (with_transaction orm engine i) rows) t x).0 j) [
        | inl (old, _) ↦ before x old
        | inr (new, _) ↦
            let (y, k, q) = map-In (with_transaction orm engine i) x rows new in
            omega
              (arith, before y (sub y k), ap (λ (a : AuditLog). a.ts) q ∙ ts-with_transaction i y)
      ]

  -- Once a transaction is closed, at a time after all rows, none is open.
  pub close_transaction-closes :
      (t : Table) (now : ℕ)
      → IsBefore now t
      → is_open_transaction orm engine (close_transaction_of orm engine t now) ≡ false
  unfolding close_transaction_of insert_log
  close_transaction-closes t now before = is_open_of_first _ _ (
      newest_row (is_one_of transaction_marks) _ _
        (IsBefore-update t now open_transaction (get_current_transaction_id orm engine t) before)
        refl)

  -- At every poll the clock is past all rows, and the generated id is a text that is not empty.
  abbrev pub IsTimely : Surroundings → ℕ → Table → Type 0
  IsTimely env zero t = Unit
  IsTimely env (suc loops) t =
      IsBefore (env.clock loops) t × (env.uuid loops ≢ "") × IsTimely env loops (env.others loops t)

  -- At every poll a commit runs or a transaction is open.
  abbrev pub IsBusyThroughout : Surroundings → ℕ → Table → Type 0
  IsBusyThroughout env zero t = Unit
  IsBusyThroughout env (suc loops) t =
      ((is_commit_running orm engine t ≡ true) ⊎ (is_open_transaction orm engine t ≡ true))
      × IsBusyThroughout env loops (env.others loops t)

  busy-cases :
      (t : Table)
      → is_busy orm engine t ≡ true
      → (is_commit_running orm engine t ≡ true) ⊎ (is_open_transaction orm engine t ≡ true)
  busy-cases t h = ground arith

  not-busy :
      (t : Table)
      → is_busy orm engine t ≡ false
      → ((is_commit_running orm engine t ≡ true) ⊎ (is_open_transaction orm engine t ≡ true))
      → ⊥
  not-busy t h (inl r) = ground arith
  not-busy t h (inr o) = ground arith

  try_open-opens :
      (env : Surroundings) (loops : ℕ) (t : Table)
      → IsTimely env loops t
      → (try_open orm engine env loops t).opened ≡ true
      → (is_open_transaction orm engine (try_open orm engine env loops t).table ≡ true)
        × (n : ℕ) × (get_current_transaction_id orm engine (try_open orm engine env loops t).table
            ≡ some (env.uuid n))
  unfolding try_open
  try_open-opens env zero t h e = absurd (cc)
  try_open-opens env (suc loops) t h e = elim (Bool-cases (is_busy orm engine t)) [
    | inl busy ↦ rw busy (try_open-opens env loops (env.others loops t) h.2 (rw busy at e))
    | inr free ↦
        let (opened, id) = insert_open t (env.clock loops) (env.uuid loops) h.0 h.1 in
        rw free (opened, loops, id)
  ]

  try_open-fails :
      (env : Surroundings) (loops : ℕ) (t : Table)
      → (try_open orm engine env loops t).opened ≡ false ↔ IsBusyThroughout env loops t
  unfolding try_open
  try_open-fails env zero t = (λ h. tt, λ h. refl)
  try_open-fails env (suc loops) t = elim (Bool-cases (is_busy orm engine t)) [
    | inl busy ↦ rw busy (
      λ h. (busy-cases t busy, (try_open-fails env loops (env.others loops t)).0 h),
      λ h. (try_open-fails env loops (env.others loops t)).1 h.1,
    )
    | inr free ↦ rw free (λ h. absurd (cc), λ h. absurd (not-busy t free h.0))
  ]

  pub maybe_open_transaction_lem :
      (env : Surroundings) (t : Table)
      → IsTimely env 120 t
      → ((maybe_open_transaction orm engine env t).opened ≡ true
          → (is_open_transaction orm engine (maybe_open_transaction orm engine env t).table ≡ true)
            × (n : ℕ) × (get_current_transaction_id orm engine
                  (maybe_open_transaction orm engine env t).table
                ≡ some (env.uuid n)))
        × ((maybe_open_transaction orm engine env t).opened ≡ false ↔ IsBusyThroughout env 120 t)
  unfolding maybe_open_transaction
  maybe_open_transaction_lem env t h = (try_open-opens env 120 t h, try_open-fails env 120 t)
