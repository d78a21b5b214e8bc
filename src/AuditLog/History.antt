-- ===== src/AuditLog/History.antt =====
-- The audit log over time: what the engine and the triggers of the managed tables write, and what
-- the engine's queries can see of it.
use iasql.Base.{
  ℕ, ◌≤◌, ◌<◌, ◌≡◌, ◌≢◌, ◌↔◌, ◌∙◌, sym, ap, inl, inr, refl, String, ◌==◌, eq_iff, Bool, true, false,
  not, ◌&&◌, Option, none, some, List, [], ◌∷◌, head?, any, beq, ltb, arith, map, Option-cases,
  ltb→lt,
}
use iasql.Base.Members.{In, map-In}
use iasql.AuditLog.{
  ChangeType, insert, update, delete, start_commit, preview_start_commit, end_commit,
  preview_end_commit, AuditLog, tag,
}
use iasql.AuditLog.Repo.{LogRepo, Table}
use iasql.AuditLog.Newest.{found-none, found-IsNewest, head?-take_one, head?-take_two}
use iasql.AuditLog.Query.{
  is_one_of, commit_marks, is_commit_running, insert_log, insert_error_log, associate_transaction,
  with_transaction, get_previous_start_commit, get_changes_to_commit, in_window,
}

abbrev row_changes : List ChangeType
row_changes = insert ∷ update ∷ delete ∷ []

module _ (orm : LogRepo) (engine : String) where
  open orm use {find, find_sound, find_complete}

  -- One write: a log of the engine, an error log, a transaction id for rows of the table, or a
  -- trigger's row for a change by any user.
  pub data Write : Table → Table → Type 0 where
    engine_log :
        (t : Table) (now : ℕ) (type : ChangeType) (i m : Option String)
        → Write t (insert_log orm engine t now type i m).1
    error_log :
        (t : Table) (now : ℕ) (err : String) (i : Option String)
        → Write t (insert_error_log orm engine t now err i)
    associate :
        (t rows : Table) (i : Option String)
        → ((x : AuditLog) → In x rows → In x t)
        → Write t (associate_transaction orm engine t rows i)
    trigger : (t : Table) (row : AuditLog) → is_one_of row_changes row ≡ true → Write t (row ∷ t)

  pub data History : Table → Type 0 where
    created : History []
    written : {t u : Table} → History t → Write t u → History u

  -- The rows that mark a commit are the engine's own.
  abbrev MarksAreEngine : Table → Type 0
  MarksAreEngine t = (x : AuditLog) → In x t → is_one_of commit_marks x ≡ true → x.user ≡ engine

  user-with_transaction :
      (i : Option String) (l : AuditLog)
      → ((with_transaction orm engine i l).user ≡ l.user)
        × ((with_transaction orm engine i l).change_type ≡ l.change_type)
  user-with_transaction none l = (refl, refl)
  user-with_transaction (some i) l = ground arith

  not_mark :
      (c : ChangeType)
      → any (λ s. beq (tag s) (tag c)) row_changes ≡ true
      → any (λ s. beq (tag s) (tag c)) commit_marks ≡ false
  not_mark insert h = refl
  not_mark update h = refl
  not_mark delete h = refl
  not_mark _ h = absurd (cc)

  Write-MarksAreEngine : {t u : Table} → Write t u → MarksAreEngine t → MarksAreEngine u
  unfolding insert_log insert_error_log associate_transaction
  Write-MarksAreEngine (engine_log t now type i m) h x (inl e) q = ap (λ (a : AuditLog). a.user) e
  Write-MarksAreEngine (engine_log t now type i m) h x (inr j) q = h x j q
  Write-MarksAreEngine (error_log t now err i) h x (inl e) q = ap (λ (a : AuditLog). a.user) e
  Write-MarksAreEngine (error_log t now err i) h x (inr j) q = h x j q
  Write-MarksAreEngine (associate t rows i sub) h x j q =
      elim ((orm.save_iff (map (with_transaction orm engine i) rows) t x).0 j) [
        | inl (old, _) ↦ h x old q
        | inr (new, _) ↦
            let (y, k, e) = map-In (with_transaction orm engine i) x rows new in
            let (same_user, same_type) = user-with_transaction i y in
            let marked : is_one_of commit_marks y ≡ true =
              ap (λ c. any (λ s. beq (tag s) (tag c)) commit_marks)
                (sym same_type ∙ ap (λ (a : AuditLog). a.change_type) (sym e))
              ∙ q in
            ap (λ (a : AuditLog). a.user) e ∙ same_user ∙ h y (sub y k) marked
      ]
  Write-MarksAreEngine (trigger t row changed) h x (inl e) q =
      absurd (cc (not_mark row.change_type changed, sym q ∙ ap (is_one_of commit_marks) e))
  Write-MarksAreEngine (trigger t row changed) h x (inr j) q = h x j q

  History-MarksAreEngine : {t : Table} → History t → MarksAreEngine t
  History-MarksAreEngine created x i q = absurd i
  History-MarksAreEngine (written h w) x i q =
      Write-MarksAreEngine w (History-MarksAreEngine h) x i q

  -- Whatever the engine and the triggers have written, no commit is ever seen as running: the engine
  -- marks its commits under its own user, and the query leaves out the rows of that user.
  pub is_commit_running-blind : {t : Table} → History t → is_commit_running orm engine t ≡ false
  unfolding is_commit_running
  is_commit_running-blind {t} h = elim (Option-cases (head? (find sees t))) [
    | inl e ↦ rw (head?-take_one, e, is_commit_running) refl
    | inr (x, e) ↦
        let (i, seen, _) = found-IsNewest orm sees t x e in
        absurd (ground (arith, eq_iff x.user engine, History-MarksAreEngine h x i))
  ]
    where
      sees : AuditLog → Bool
      sees l = is_one_of commit_marks l && not (l.user == engine)

and_parts : (a b : Bool) → (a && b) ≡ true → (a ≡ true) × (b ≡ true)
and_parts a b h = ground arith

and_true : (a b : Bool) → a ≡ true → b ≡ true → (a && b) ≡ true
and_true a b h k = ground arith

select :
    (mark window own : Bool)
    → (not mark && window && not own) ≡ true
    → (mark ≡ false) × (window ≡ true) × (own ≡ false)
select mark window own h = ground arith

choose :
    (mark window own : Bool)
    → mark ≡ false
    → window ≡ true
    → own ≡ false
    → (not mark && window && not own) ≡ true
choose mark window own h k l = ground arith

lt→ltb : (a b : ℕ) → a < b → ltb a b ≡ true
lt→ltb a b h = ground arith

module _ (orm : LogRepo) (engine : String) (t : Table) where
  open orm use {find, find_sound, find_complete}

  -- A change of the user: a row of another user than the engine that marks no commit, and no preview.
  abbrev pub IsUserChange : AuditLog → Type 0
  IsUserChange x =
      In x t
      × (x.user ≢ engine)
      × (x.change_type ≢ start_commit)
      × (x.change_type ≢ preview_start_commit)
      × (x.change_type ≢ end_commit)
      × (x.change_type ≢ preview_end_commit)

  -- From the previous start to the new one, both included, or strictly before the new one.
  abbrev pub IsBetween : Option AuditLog → AuditLog → ℕ → Type 0
  IsBetween (some previous) new_start ts = (previous.ts ≤ ts) × (ts ≤ new_start.ts)
  IsBetween none new_start ts = ts < new_start.ts

  unmarked :
      (c : ChangeType)
      → any (λ s. beq (tag s) (tag c)) commit_marks ≡ false
      → (c ≢ start_commit)
        × (c ≢ preview_start_commit)
        × (c ≢ end_commit)
        × (c ≢ preview_end_commit)
  unmarked c h = (
    λ e. absurd (cc (rw e at h)),
    λ e. absurd (cc (rw e at h)),
    λ e. absurd (cc (rw e at h)),
    λ e. absurd (cc (rw e at h)),
  )

  unmarked-any :
      (c : ChangeType)
      → c ≢ start_commit
      → c ≢ preview_start_commit
      → c ≢ end_commit
      → c ≢ preview_end_commit
      → any (λ s. beq (tag s) (tag c)) commit_marks ≡ false
  unmarked-any start_commit a b d e = absurd (a refl)
  unmarked-any preview_start_commit a b d e = absurd (b refl)
  unmarked-any end_commit a b d e = absurd (d refl)
  unmarked-any preview_end_commit a b d e = absurd (e refl)
  unmarked-any _ a b d e = refl

  in_window-IsBetween :
      (previous : Option AuditLog) (new_start : AuditLog) (ts : ℕ)
      → in_window orm engine new_start previous ts ≡ true ↔ IsBetween previous new_start ts
  in_window-IsBetween (some previous) new_start ts = (λ h. ground arith, λ h. ground arith)
  in_window-IsBetween none new_start ts = (λ h. ground arith, λ h. ground arith)

  abbrev pub is_start : AuditLog → Bool
  is_start = is_one_of (start_commit ∷ [])

  -- The previous start of a commit is the newest one strictly before the given time, and there is
  -- none exactly when no commit started before.
  pub get_previous_start_commit-newest :
      (now : ℕ)
      → ((x : AuditLog)
          → get_previous_start_commit orm engine t now ≡ some x
          → In x t
            × (is_start x ≡ true)
            × (x.ts < now)
            × ((y : AuditLog) → In y t → is_start y ≡ true → y.ts < now → y.ts ≤ x.ts))
        × (get_previous_start_commit orm engine t now ≡ none
            → (x : AuditLog) → In x t
            → is_start x ≡ true
            → now ≤ x.ts)
  unfolding get_previous_start_commit
  get_previous_start_commit-newest now = (
    λ x e.
        let (i, s, newest) =
          found-IsNewest orm before t x (sym (head?-take_two (find before t)) ∙ e) in
        (
          i,
          (and_parts _ _ s).0,
          ltb→lt x.ts now (and_parts _ _ s).1,
          λ y j m lt. newest y j (and_true _ _ m (lt→ltb y.ts now lt)),
        ),
    λ e x i s. late x s (found-none orm before t (sym (head?-take_two (find before t)) ∙ e) x i),
  )
    where
      before : AuditLog → Bool
      before l = is_start l && ltb l.ts now

      late : (x : AuditLog) → is_start x ≡ true → before x ≡ false → now ≤ x.ts
      late x s e = ground arith

  -- What a commit applies: exactly the user's changes from the previous start of a commit up to its
  -- own start, both included, or all before its start if it is the first.
  pub get_changes_to_commit_iff :
      (new_start : AuditLog) (previous : Option AuditLog) (x : AuditLog)
      → In x (get_changes_to_commit orm engine t new_start previous)
        ↔ (IsUserChange x × IsBetween previous new_start x.ts)
  unfolding get_changes_to_commit
  get_changes_to_commit_iff new_start previous x = (
    λ m.
        let (i, e) = find_sound wanted t x m in
        let (a, b, c) = select _ _ _ e in
        let (p, q, r, s) = unmarked x.change_type a in
        (
          (i, λ same. cc (c, (eq_iff x.user engine).1 same), p, q, r, s),
          (in_window-IsBetween previous new_start x.ts).0 b,
        ),
    λ h.
        let (i, user, a, b, d, e) = h.0 in
        find_complete wanted t x i (
          choose _ _ _ (unmarked-any x.change_type a b d e)
            ((in_window-IsBetween previous new_start x.ts).1 h.1) (differ user)),
  )
    where
      wanted : AuditLog → Bool
      wanted l =
          not (is_one_of commit_marks l)
          && in_window orm engine new_start previous l.ts
          && not (l.user == engine)

      differ : x.user ≢ engine → (x.user == engine) ≡ false
      differ n = ground (arith, eq_iff x.user engine)
