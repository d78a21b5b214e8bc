-- ===== src/Reconcile/Refusing.antt =====
-- `apply` on a database of one bucket and a cloud that takes no bucket. The world is whether the memo of
-- the database is filled.
use iasql.Base.{
  ◌+◌, ◌≡◌, ◌≢◌, refl, subst, inl, inr, String, ◌==◌, Bool, true, false, none, some, List, [], ◌∷◌,
  beq, arith, if◌then◌else◌, Bool-cases,
}
use iasql.Base.Dict.{get, set, has, from_entries}
use iasql.Diff.{find_diff, map_segmentation}
use iasql.LazyDep.{lazy_loader, load_loop, run_round}
use iasql.Plan.{Counts, no_operations, record_count}
use iasql.Reconcile.{
  Mapper, Context, entities, Loop, Step, inner_again, outer_again, finished, stopped,
}
use iasql.Reconcile.Parts.{load, note_counts, same_counts, run_generators, compare_sides}
use iasql.Reconcile.Rounds.{Reaches, into_inner}
use iasql.Reconcile.Apply.{apply, apply_outer, apply_inner, apply_records, apply_generators}
use iasql.Reconcile.Halting.{HasCounts, apply-halts}

abbrev lone_mapper : Mapper Bool String String
lone_mapper = record {
  entity_name = "Bucket";
  source_is_db = true;
  entity_id = λ w e. e;
  equals = λ w a b. a == b;
  db_read = λ w. (true, none);
  cloud_read = λ w. (w, none);
  db_create = λ e w. (w, entities []);
  db_update = λ e w. (w, entities []);
  db_delete = λ e w. (w, entities []);
  cloud_create = λ e w. (w, entities []);
  cloud_update = λ e w. (w, entities []);
  cloud_delete = λ e w. (w, entities []);
  is_update = λ w c d. true;
}

abbrev refusing : Context Bool String String
refusing = record {
  open_conn = λ w. w;
  drop_conn = λ w. w;
  flush_db = λ w. false;
  flush_cloud = λ w. w;
  memo_db = λ w t. if w then "logs" ∷ [] else [];
  memo_cloud = λ w t. [];
  assign = λ a b w. w;
  copy_id = λ a b w. w;
  id_text = λ w e. "";
  changes_after_commit = λ w. some [];
  changes_by_entity = λ w. some [];
  snake_case = λ s. s;
}

abbrev one_left : Counts
one_left = record { db = 1; cloud = 0; both = 0 }

abbrev mappers : List (Mapper Bool String String)
mappers = lone_mapper ∷ []

-- At the top of the inner loop the memo is filled, and no change is to be left out.
abbrev IsRead : Bool → Loop Bool String → Type 0
IsRead true s = Unit
IsRead false s = (s.world ≡ true) × (s.changes_after ≡ [])

abbrev GoesOnRead : Step Bool String String → Type 0
GoesOnRead (inner_again s) = IsRead false s
GoesOnRead (outer_again s) = Unit
GoesOnRead (finished s) = Unit
GoesOnRead (stopped s f) = Unit

outer-GoesOnRead :
    (st : Loop Bool String) → GoesOnRead (apply_outer refusing mappers false false st)
unfolding apply_outer load lazy_loader load_loop run_round
outer-GoesOnRead st = (refl, refl)

abbrev read_loop : Loop Bool String → Loop Bool String
read_loop st = record st { world = true; changes_after = [] }

read_loop-GoesOnRead :
    (st : Loop Bool String) → GoesOnRead (apply_inner refusing mappers false false (read_loop st))
unfolding apply_inner apply_records apply_generators load lazy_loader load_loop run_round
    compare_sides find_diff map_segmentation from_entries get has set record_count note_counts
    run_generators
read_loop-GoesOnRead st = elim (Bool-cases (same_counts st.counts one_left)) [
  | inl e ↦ elim (Bool-cases (beq (st.spin_count + 1) 4)) [
    | inl q ↦ rw (e, q) tt
    | inr q ↦ rw (e, q) (refl, refl)
  ]
  | inr e ↦ rw e (refl, refl)
]

inner-GoesOnRead :
    (st : Loop Bool String)
    → IsRead false st
    → GoesOnRead (apply_inner refusing mappers false false st)
inner-GoesOnRead st (world, after) =
    let same : read_loop st ≡ st = cc (world, after) in
    subst (λ s. GoesOnRead (apply_inner refusing mappers false false s)) same
      (read_loop-GoesOnRead st)

Reaches-IsRead :
    {start : Loop Bool String} {b : Bool} {st : Loop Bool String}
    → Reaches
        (apply_outer refusing mappers false false)
        (apply_inner refusing mappers false false)
        start
        b
        st
    → IsRead b st
Reaches-IsRead {b = true} r = tt
Reaches-IsRead (into_inner {b = true} {st} r e) = subst GoesOnRead e (outer-GoesOnRead st)
Reaches-IsRead (into_inner {b = false} {st} r e) =
    subst GoesOnRead e (inner-GoesOnRead st (Reaches-IsRead r))

always_one :
    (st : Loop Bool String) → IsRead false st → HasCounts refusing one_left mappers false st
unfolding record_count compare_sides find_diff map_segmentation from_entries get has set load
    lazy_loader load_loop run_round
always_one st (world, after) w e = let filled : w ≡ true = cc (e, world) in rw (filled, after) refl

apply-halts_example : apply refusing mappers false false no_operations 12 false ≢ none
apply-halts_example =
    apply-halts refusing one_left mappers false no_operations 12 false
      (λ st r. always_one st (Reaches-IsRead r)) (omega arith)
