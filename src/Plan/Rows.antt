-- ===== src/Plan/Rows.antt =====
-- What the plan lists: each entry once, under its action and table.
use iasql.Base.{
  ◌≡◌, ◌↔◌, ◌∙◌, sym, ap, inl, inr, refl, String, ◌==◌, eq_iff, eq_refl, Bool, true, false, ◌||◌,
  some, List, [], ◌∷◌, ◌++◌, map, any, arith, Bool-cases,
}
use iasql.Base.Members.{
  In, In-append, In-append_left, In-append_right, In-flat_map, flat_map-In, map-In, In-map,
}
use iasql.Base.Dict.{get, set, get-set}
use iasql.Plan.{
  PlanEntry, Crupde, CrupdeOperations, Action, create, update, replace, delete, PlanRow, row_of,
  rows_of, iasql_plan_v3, same_entry, add_entries, listed_or_empty, update_commit_plan,
}

abbrev pub is_listed : List PlanEntry → PlanEntry → Bool
is_listed listed r = any (λ r2. same_entry r2 r) listed

abbrev pub IsOnce : List PlanEntry → Type 0
IsOnce [] = Unit
IsOnce (r ∷ rs) = (is_listed rs r ≡ false) × IsOnce rs

same_entry-eq : (a b : PlanEntry) → same_entry a b ≡ true → a ≡ b
same_entry-eq a b h = ground (arith, eq_iff a.id b.id, eq_iff a.description b.description)

same_entry_refl : (a : PlanEntry) → same_entry a a ≡ true
same_entry_refl a = ground (arith, eq_refl a.id, eq_refl a.description)

same_entry_comm : (a b : PlanEntry) → same_entry a b ≡ same_entry b a
same_entry_comm a b = ground (
  arith,
  eq_iff a.id b.id,
  eq_iff a.description b.description,
  eq_iff b.id a.id,
  eq_iff b.description a.description,
)

or_assoc : (a b c : Bool) → (a || (b || c)) ≡ ((a || b) || c)
or_assoc a b c = ground arith

or_false : (a b : Bool) → (a || b) ≡ false → (a ≡ false) × (b ≡ false)
or_false a b h = ground arith

or_false_right : (a : Bool) → (a || false) ≡ a
or_false_right a = ground arith

or_true_right : (a : Bool) → (a || true) ≡ true
or_true_right a = ground arith

absorb : (a b c : Bool) → (a ≡ true → b ≡ true) → (b || c) ≡ (b || (a || c))
absorb a true c h = refl
absorb false false c h = refl
absorb true false c h = absurd (cc (h refl))

is_listed-snoc :
    (l : List PlanEntry) (r x : PlanEntry)
    → is_listed (l ++ r ∷ []) x ≡ (is_listed l x || same_entry r x)
is_listed-snoc [] r x = ground arith
is_listed-snoc (y ∷ l) r x =
    rw (is_listed-snoc l r x) (or_assoc (same_entry y x) (is_listed l x) (same_entry r x))

IsOnce-snoc :
    (l : List PlanEntry) (r : PlanEntry) → IsOnce l → is_listed l r ≡ false → IsOnce (l ++ r ∷ [])
IsOnce-snoc [] r h n = (refl, tt)
IsOnce-snoc (y ∷ l) r h n =
    let (apart, rest) = or_false (same_entry y r) (is_listed l r) n in
    (rw (is_listed-snoc l r y, h.0, same_entry_comm r y, apart), IsOnce-snoc l r h.1 rest)

add_entries-IsOnce : (listed rs : List PlanEntry) → IsOnce listed → IsOnce (add_entries listed rs)
unfolding add_entries
add_entries-IsOnce listed [] h = h
add_entries-IsOnce listed (r ∷ rs) h = elim (Bool-cases (is_listed listed r)) [
  | inl e ↦ rw e (add_entries-IsOnce listed rs h)
  | inr e ↦ rw e (add_entries-IsOnce (listed ++ r ∷ []) rs (IsOnce-snoc listed r h e))
]

is_listed-add_entries :
    (listed rs : List PlanEntry) (x : PlanEntry)
    → is_listed (add_entries listed rs) x ≡ (is_listed listed x || is_listed rs x)
unfolding add_entries
is_listed-add_entries listed [] x = sym (or_false_right (is_listed listed x))
is_listed-add_entries listed (r ∷ rs) x = elim (Bool-cases (is_listed listed r)) [
  | inl e ↦ rw e (
      is_listed-add_entries listed rs x
      ∙ absorb (same_entry r x) (is_listed listed x) (is_listed rs x)
          (λ q. ap (is_listed listed) (sym (same_entry-eq r x q)) ∙ e))
  | inr e ↦ rw e (
      is_listed-add_entries (listed ++ r ∷ []) rs x
      ∙ ap (λ b. b || is_listed rs x) (is_listed-snoc listed r x)
      ∙ sym (or_assoc (is_listed listed x) (same_entry r x) (is_listed rs x)))
]

abbrev pub entries_for : Crupde → String → List PlanEntry
entries_for crupde name = listed_or_empty (get crupde name)

-- Recording entities in the plan lists each of them once under its table, keeps what was listed,
-- adds nothing else, and leaves the other tables alone.
pub update_commit_plan-lists :
    {E : Type 0} (entry : E → PlanEntry) (crupde : Crupde) (name : String) (es : List E)
    → IsOnce (entries_for crupde name)
    → IsOnce (entries_for (update_commit_plan entry crupde name es) name)
      × ((x : PlanEntry)
          → is_listed (entries_for (update_commit_plan entry crupde name es) name) x
            ≡ (is_listed (entries_for crupde name) x || is_listed (map entry es) x))
      × ((other : String)
          → (name == other) ≡ false
          → get (update_commit_plan entry crupde name es) other ≡ get crupde other)
unfolding update_commit_plan
update_commit_plan-lists entry crupde name es once = (
  rw (get-set, eq_refl) (add_entries-IsOnce (entries_for crupde name) (map entry es) once),
  λ x. rw (get-set, eq_refl) (is_listed-add_entries (entries_for crupde name) (map entry es) x),
  λ other apart. rw (get-set, apart),
)

add_entries_known :
    (listed rs : List PlanEntry)
    → ((x : PlanEntry) → is_listed rs x ≡ true → is_listed listed x ≡ true)
    → add_entries listed rs ≡ listed
unfolding add_entries
add_entries_known listed [] h = refl
add_entries_known listed (r ∷ rs) h =
    rw (h r (rw same_entry_refl))
      (add_entries_known listed rs (λ x e. h x (rw e (or_true_right (same_entry r x)))))

twice :
    (crupde : Crupde) (name other : String) (l : List PlanEntry)
    → get (set (set crupde name l) name l) other ≡ get (set crupde name l) other
twice crupde name other l =
    ground (arith, get-set (set crupde name l) name other l, get-set crupde name other l)

-- Recording the same entities again changes nothing that a lookup shows.
pub update_commit_plan_idem :
    {E : Type 0} (entry : E → PlanEntry) (crupde : Crupde) (name : String) (es : List E)
    (other : String)
    → get (update_commit_plan entry (update_commit_plan entry crupde name es) name es) other
      ≡ get (update_commit_plan entry crupde name es) other
unfolding update_commit_plan
update_commit_plan_idem entry crupde name es other =
    let listed : List PlanEntry = add_entries (entries_for crupde name) (map entry es) in
    let known : add_entries listed (map entry es) ≡ listed =
      add_entries_known listed (map entry es) λ x e.
        rw (is_listed-add_entries (entries_for crupde name) (map entry es) x, e)
          (or_true_right (is_listed (entries_for crupde name) x)) in
    let found : get (set crupde name listed) name ≡ some listed = rw (get-set, eq_refl) refl in
    let again : add_entries (listed_or_empty (get (set crupde name listed) name)) (map entry es)
        ≡ listed =
      ap (λ o. add_entries (listed_or_empty o) (map entry es)) found ∙ known in
    ap (λ l. get (set (set crupde name listed) name l) other) again ∙ twice crupde name other listed

abbrev pub operations_of : CrupdeOperations → Action → Crupde
operations_of c create = c.to_create
operations_of c update = c.to_update
operations_of c replace = c.to_replace
operations_of c delete = c.to_delete

-- A plan row stands for an entry that its operation lists under a table.
abbrev pub StandsFor : (String → String) → CrupdeOperations → PlanRow → Type 0
StandsFor snake_case c row =
    (tbl : String) × (entries : List PlanEntry) × (rec : PlanEntry) × In (tbl, entries)
      (operations_of c row.action)
    × In rec entries
    × (row ≡ row_of snake_case row.action tbl rec)

module _ (snake_case : String → String) (c : CrupdeOperations) (row : PlanRow) where
  Listed : Action → Type 0
  Listed a =
      (tbl : String) × (entries : List PlanEntry) × (rec : PlanEntry) × In (tbl, entries)
        (operations_of c a)
      × In rec entries
      × (row ≡ row_of snake_case a tbl rec)

  rows_of-Listed : (a : Action) → In row (rows_of snake_case a (operations_of c a)) → Listed a
  unfolding Listed
  rows_of-Listed a m =
      let (entry, i, j) =
        flat_map-In (λ (e : String × List PlanEntry). map (row_of snake_case a e.0) e.1) row
          (operations_of c a) m in
      let (rec, k, e) = map-In (row_of snake_case a entry.0) row entry.1 j in
      (entry.0, entry.1, rec, i, k, e)

  Listed-rows_of : (a : Action) → Listed a → In row (rows_of snake_case a (operations_of c a))
  unfolding Listed
  Listed-rows_of a (tbl, entries, rec, i, k, e) =
      In-flat_map (λ (x : String × List PlanEntry). map (row_of snake_case a x.0) x.1)
        (tbl, entries) row (operations_of c a) i
        (rw e (In-map (row_of snake_case a tbl) rec entries k))

  own_action : (a : Action) → Listed a → StandsFor snake_case c row
  unfolding Listed
  own_action a (tbl, entries, rec, i, k, e) =
      let same : a ≡ row.action = ap (λ (r : PlanRow). r.action) (sym e) in
      (tbl, entries, rec, rw same at i, k, rw same at e)

  -- The plan's rows are exactly the entries of the four operations, each under its action and the
  -- snake-case name of its table.
  pub iasql_plan_v3-rows : In row (iasql_plan_v3 snake_case c).rows ↔ StandsFor snake_case c row
  unfolding iasql_plan_v3
  iasql_plan_v3-rows = (
    λ m. elim (In-append row (rows_of snake_case create c.to_create) _ m) [
      | inl h ↦ own_action create (rows_of-Listed create h)
      | inr m2 ↦ elim (In-append row (rows_of snake_case update c.to_update) _ m2) [
        | inl h ↦ own_action update (rows_of-Listed update h)
        | inr m3 ↦ elim (In-append row (rows_of snake_case replace c.to_replace) _ m3) [
          | inl h ↦ own_action replace (rows_of-Listed replace h)
          | inr h ↦ own_action delete (rows_of-Listed delete h)
        ]
      ]
    ],
    λ h. place row.action (Listed-rows_of row.action (unfold Listed in h)),
  )
    where
      place :
          (a : Action)
          → In row (rows_of snake_case a (operations_of c a))
          → In row (
              rows_of snake_case create c.to_create
              ++ (rows_of snake_case update c.to_update
                  ++ (rows_of snake_case replace c.to_replace
                      ++ rows_of snake_case delete c.to_delete)))
      place create h = In-append_left row (rows_of snake_case create c.to_create) _ h
      place update h =
          In-append_right row (rows_of snake_case create c.to_create) _
            (In-append_left row (rows_of snake_case update c.to_update) _ h)
      place replace h = In-append_right row (rows_of snake_case create c.to_create) _ (
          In-append_right row (rows_of snake_case update c.to_update) _
            (In-append_left row (rows_of snake_case replace c.to_replace) _ h))
      place delete h = In-append_right row (rows_of snake_case create c.to_create) _ (
          In-append_right row (rows_of snake_case update c.to_update) _
            (In-append_right row (rows_of snake_case replace c.to_replace) _ h))
