-- ===== src/Plan/Columns.antt =====
-- colToRow (modules/iasql_functions/iasql.ts): from one list for each column to one object for each
-- row. A list that is too short gives `undefined`, which is `none`.
use iasql.Base.{ℕ, zero, suc, Option, none, some, List, [], ◌∷◌, length}
use iasql.Base.Dict.{Dict}

module _ {A : Type 0} where
  abbrev pub get_elem? : List A → ℕ → Option A
  get_elem? [] i = none
  get_elem? (x ∷ xs) zero = some x
  get_elem? (x ∷ xs) (suc i) = get_elem? xs i

  abbrev pub row_at : Dict (List A) → ℕ → Dict (Option A)
  row_at [] i = []
  row_at ((key, values) ∷ cols) i = (key, get_elem? values i) ∷ row_at cols i

  -- for (let i = 0; i < n; i++)
  abbrev pub rows_from : Dict (List A) → ℕ → ℕ → List (Dict (Option A))
  rows_from cols i zero = []
  rows_from cols i (suc n) = row_at cols i ∷ rows_from cols (suc i) n

  -- `cols[keys[0]].length`; a call without columns throws, which is `none`.
  unfoldable pub col_to_row : Dict (List A) → Option (List (Dict (Option A)))
  col_to_row [] = none
  col_to_row ((key, values) ∷ cols) = some (rows_from ((key, values) ∷ cols) 0 (length values))
