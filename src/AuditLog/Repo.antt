-- ===== src/AuditLog/Repo.antt =====
-- What the engine relies on of TypeORM's repository of the audit log, which is not part of the
-- sources: `find` with a `where` condition and `order: { ts: 'DESC' }`, and `save`.
use iasql.Base.{ℕ, ◌≤◌, ◌<◌, ◌≡◌, ◌⊎◌, ◌↔◌, Bool, true, false, List, [], ◌∷◌, any, beq}
use iasql.Base.Members.{In, All}
use iasql.AuditLog.{AuditLog}

abbrev pub Table : Type 0
Table = List AuditLog

-- Newest first.
abbrev pub IsNewestFirst : Table → Type 0
IsNewestFirst [] = Unit
IsNewestFirst (x ∷ xs) = All (λ y. y.ts ≤ x.ts) xs × IsNewestFirst xs

-- A row of the table has the id of one of these rows.
abbrev pub is_saved : Table → AuditLog → Bool
is_saved rows x = any (λ r. beq r.id x.id) rows

pub record LogRepo : Type 0 where
  -- find({ where, order: { ts: 'DESC' } })
  pub find : (AuditLog → Bool) → Table → Table
  pub find_sound :
      (p : AuditLog → Bool) (t : Table) (x : AuditLog) → In x (find p t) → In x t × (p x ≡ true)
  pub find_complete :
      (p : AuditLog → Bool) (t : Table) (x : AuditLog) → In x t → p x ≡ true → In x (find p t)
  pub find_newest_first : (p : AuditLog → Bool) (t : Table) → IsNewestFirst (find p t)
  -- the generated id of a new row
  pub next_id : Table → ℕ
  pub next_id_fresh : (t : Table) (x : AuditLog) → In x t → x.id < next_id t
  -- save(rows) for rows that are in the table: each replaces the row of its id
  pub save : Table → Table → Table
  pub save_iff :
      (rows t : Table) (x : AuditLog)
      → In x (save rows t)
        ↔ (In x t × (is_saved rows x ≡ false)) ⊎ (In x rows × (is_saved t x ≡ true))
