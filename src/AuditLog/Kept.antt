-- ===== src/AuditLog/Kept.antt =====
-- An error in the audit log stays when the rows of a commit get their transaction
-- (updateIasqlRecordsSince of modules/iasql_functions/iasql.ts).
use iasql.Base.{
  ℕ, ◌<◌, ◌≡◌, ◌∙◌, ap, inl, inr, refl, String, ◌==◌, Bool, true, false, ◌&&◌, Option, none, some,
  [], ◌∷◌, head?, beq, ltb, arith, map, Bool-cases, Option-cases,
}
use iasql.Base.Members.{In, In-any, map-In}
use iasql.AuditLog.{ChangeType, insert, update, delete, error, AuditLog, tag}
use iasql.AuditLog.Repo.{LogRepo, Table, is_saved}
use iasql.AuditLog.Query.{
  is_one_of, is_none, associate_transaction, update_iasql_records_since, with_transaction,
}

module _ (orm : LogRepo) (engine : String) where
  id-with_transaction :
      (i : Option String) (l : AuditLog) → (with_transaction orm engine i l).id ≡ l.id
  id-with_transaction none l = refl
  id-with_transaction (some i) l = ground arith

  -- The rows that get a transaction: changes of rows, by the engine, since the given time.
  abbrev is_updated : ℕ → AuditLog → Bool
  is_updated since l =
      is_one_of (insert ∷ update ∷ delete ∷ []) l
      && is_none l.transaction_id
      && ltb since l.ts
      && l.user == engine

  not-error : (since : ℕ) (l : AuditLog) → is_updated since l ≡ true → l.change_type ≡ error → ⊥
  not-error since l h e = absurd (ground (arith, ap tag e))

  module _ (x : AuditLog) (rest : Table) (is_error : x.change_type ≡ error)
      (newest : (y : AuditLog) → In y rest → y.id < x.id) where
    not-saved :
        (since : ℕ) (i : Option String)
        → is_saved (map (with_transaction orm engine i) (orm.find (is_updated since) (x ∷ rest))) x
          ≡ false
    not-saved since i = elim (Bool-cases (is_saved rows x)) [
      | inr e ↦ e
      | inl e ↦
          let (a, m, q) = In-any (λ (r : AuditLog). beq r.id x.id) rows e in
          let (y, k, s) =
            map-In (with_transaction orm engine i) a (orm.find (is_updated since) (x ∷ rest)) m in
          let (j, p) = orm.find_sound (is_updated since) (x ∷ rest) y k in
          absurd (older a y j p (ap (λ (r : AuditLog). r.id) s ∙ id-with_transaction i y) q)
    ]
      where
        rows : Table
        rows = map (with_transaction orm engine i) (orm.find (is_updated since) (x ∷ rest))

        older :
            (a y : AuditLog)
            → In y (x ∷ rest)
            → is_updated since y ≡ true
            → a.id ≡ y.id
            → beq a.id x.id ≡ true
            → ⊥
        older a y (inl s) p e q =
            not-error since y p (ap (λ (r : AuditLog). r.change_type) s ∙ is_error)
        older a y (inr j) p e q = absurd (ground (arith, newest y j))

    pub update-keeps :
        (mark : ChangeType) (i : Option String)
        → In x (update_iasql_records_since orm engine (x ∷ rest) mark i)
    unfolding update_iasql_records_since associate_transaction
    update-keeps mark i =
        elim (Option-cases (head? (orm.find (is_one_of (mark ∷ [])) (x ∷ rest)))) [
          | inl e ↦ rw (e, update_iasql_records_since) (inl refl)
          | inr (last, e) ↦
              rw (e, update_iasql_records_since)
                ((orm.save_iff _ (x ∷ rest) x).1 (inl (inl refl, not-saved last.ts i)))
        ]
