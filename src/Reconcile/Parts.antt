-- ===== src/Reconcile/Parts.antt =====
-- The parts of a round of `apply` and `sync` (modules/iasql_functions/iasql.ts), and the nested
-- loops around the rounds.
use iasql.Base.{
  ℕ, zero, suc, ◌+◌, ◌==◌, Bool, true, false, not, ◌&&◌, Option, none, some, List, [], ◌∷◌, filter,
  any, length, beq, if◌then◌else◌,
}
use iasql.Base.Dict.{Dict, get}
use iasql.Diff.{DiffResult, find_diff}
use iasql.LazyDep.{Generator, Outcome, loaded, halted, lazy_loader}
use iasql.Plan.{PlanEntry, CrupdeOperations, Counts}
use iasql.Reconcile.{
  Returned, entities, threw, Mapper, Context, Finish, load_failed, Loop, Step, inner_again,
  outer_again, finished, stopped, Record,
}

module _ {W Err : Type 0} where
  -- lazyLoader; its loop always ends, so the first case never occurs.
  abbrev pub loaded_result : W → Option (W × Outcome W Err) → W × Outcome W Err
  loaded_result w none = (w, loaded)
  loaded_result w (some r) = r

  unfoldable pub load : List (Generator W Err) → W → W × Outcome W Err
  load gs w = loaded_result w (lazy_loader gs w)

module _ {E Err : Type 0} where
  abbrev pub has_error : Returned E Err → Option Err
  has_error (entities es) = none
  has_error (threw e) = some e

abbrev pub listed_or_none {ℓ} : {E : Type ℓ} → Option (List E) → List E
listed_or_none none = []
listed_or_none (some es) = es

module _ {W E Err : Type 0} where
  module _ (ctx : Context W E Err) where
    open ctx use {memo_db, memo_cloud, assign, id_text}

    -- The returned entities' properties go to the entity that was passed.
    abbrev pub assign_all : E → List E → W → W
    assign_all e [] w = w
    assign_all e (e2 ∷ es) w = assign_all e es (assign e e2 w)

    abbrev pub finish_call : E → W × Returned E Err → W × Option Err
    finish_call e (w, entities es) = (assign_all e es w, none)
    finish_call e (w, threw err) = (w, some err)

    -- The body of a create or an update.
    abbrev pub call_and_assign : (E → W → W × Returned E Err) → E → Generator W Err
    call_and_assign call e w = finish_call e (call e w)

    -- The body of a delete.
    abbrev pub call_only : (E → W → W × Returned E Err) → E → Generator W Err
    call_only call e w = let (w', r) = call e w in (w', has_error r)

    -- A row of `colToRow({ table, mapper, dbEntity, cloudEntity, comparator, idGen })`, compared.
    unfoldable pub compare_sides : W → Mapper W E Err → Record W E Err
    compare_sides w m = record {
      mapper = m;
      diff =
          find_diff (memo_db w m.entity_name) (memo_cloud w m.entity_name) (m.entity_id w)
            (m.equals w);
    }

    -- changes[r.table]?.find(re => r.idGen(e) === r.idGen(re))
    abbrev pub is_among : W → Mapper W E Err → Dict (List E) → E → Bool
    is_among w m changes e =
        any (λ re. m.entity_id w e == m.entity_id w re) (listed_or_none (get changes m.entity_name))

    abbrev pub filter_diff : (E → Bool) → DiffResult E → DiffResult E
    filter_diff keep d = record {
      entities_in_db_only = filter keep d.entities_in_db_only;
      entities_in_aws_only = filter keep d.entities_in_aws_only;
      entities_changed = filter (λ o. keep o.db) d.entities_changed;
    }

    -- With changes by the user to apply, only these stay; else what changed after the start goes.
    abbrev pub filter_changes :
        W → Option (Dict (List E)) → Dict (List E) → Record W E Err → Record W E Err
    filter_changes w (some changes) after r = record r {
      diff = filter_diff (λ e. is_among w r.mapper changes e) r.diff;
    }
    filter_changes w none after r = record r {
      diff = filter_diff (λ e. not (is_among w r.mapper after e)) r.diff;
    }

    abbrev pub entry_of : W → Mapper W E Err → E → PlanEntry
    entry_of w m e = record { id = id_text w e; description = m.entity_id w e }

    abbrev pub counts_of : Record W E Err → Counts
    counts_of r = record {
      db = length r.diff.entities_in_db_only;
      cloud = length r.diff.entities_in_aws_only;
      both = length r.diff.entities_changed;
    }

abbrev pub same_counts : Option Counts → Counts → Bool
same_counts none c = false
same_counts (some b) c = beq b.db c.db && beq b.cloud c.cloud && beq b.both c.both

abbrev pub same_count : Option ℕ → ℕ → Bool
same_count none n = false
same_count (some m) n = beq m n

module _ {W E : Type 0} where
  -- The counts of this round, and for how many rounds they have stayed the same.
  unfoldable pub note_counts : Counts → Loop W E → Loop W E
  note_counts c st =
      if same_counts st.counts c
      then record st { spin_count = st.spin_count + 1 }
      else record st { counts = some c; spin_count = 0 }

module _ {W E Err : Type 0} where
  -- What follows `lazyLoader(generators)`: a failure as large as the last one is thrown on.
  abbrev pub after_load : Loop W E → W × Outcome W Err → Step W E Err
  after_load st (w, loaded) = inner_again (record st { world = w; ran_full_update = true })
  after_load st (w, halted left failures) =
      let st' : Loop W E = record st { world = w; ran_full_update = true } in
      if same_count st.failure_count (length left)
      then stopped st' (load_failed left failures)
      else outer_again (record st' { failure_count = some (length left) })

  -- The end of the inner loop's body: run the generators, if there are any.
  unfoldable pub run_generators : List (Generator W Err) → Loop W E → Step W E Err
  run_generators [] st = if st.ran_full_update then outer_again st else finished st
  run_generators (g ∷ gs) st = after_load st (load (g ∷ gs) st.world)

  -- The nested loops: `outer` is the part of the outer body above the inner loop, `inner` the body of
  -- the inner one, `close` what is returned at the end. Fuel bounds the rounds of both.
  unfoldable pub run_loops :
      (Loop W E → Step W E Err)
      → (Loop W E → Step W E Err)
      → (Loop W E → Loop W E × Finish W Err)
      → ℕ
      → Bool
      → Loop W E
      → Option (Loop W E × Finish W Err)
  run_loops outer inner close zero at_outer st = none
  run_loops outer inner close (suc fuel) at_outer st =
      elim (if at_outer then outer st else inner st) [
        | inner_again s ↦ run_loops outer inner close fuel false s
        | outer_again s ↦ run_loops outer inner close fuel true s
        | finished s ↦ some (close s)
        | stopped s f ↦ some (s, f)
      ]

module _ {W E : Type 0} where
  -- The variables before the loops.
  abbrev pub start_loop : W → CrupdeOperations → Loop W E
  start_loop w crupdes = record {
    world = w;
    plan = crupdes;
    changes_after = [];
    ran_full_update = false;
    failure_count = none;
    counts = none;
    spin_count = 0;
    records_touched = 0;
  }
