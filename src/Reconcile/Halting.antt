-- ===== src/Reconcile/Halting.antt =====
-- `apply` does not go on for ever where nothing gets better: the rule of four equal rounds.
use iasql.Base.{
  ℕ, ◌-◌, ◌≤◌, ◌<◌, ◌≡◌, ◌≢◌, ◌∙◌, inl, inr, refl, Bool, true, false, Option, none, some, List, [],
  ◌∷◌, map, filter, arith, if◌then◌else◌, Bool-cases,
}
use iasql.Base.Dict.{Dict}
use iasql.LazyDep.{Outcome, loaded, halted}
use iasql.Plan.{Counts, CrupdeOperations, record_count}
use iasql.Reconcile.{Mapper, Context, returned, Loop, inner_again, stopped, Record, query_failed}
use iasql.Reconcile.Parts.{load, start_loop, counts_of}
use iasql.Reconcile.Spins.{RoundsLeft, apply_records-Falls}
use iasql.Reconcile.Rounds.{Falls, Reaches, begins, run_loops-returns}
use iasql.Reconcile.Apply.{
  close_with_plan, after_db_read, apply_outer, apply_planned, apply_compared, after_cloud_read,
  apply_inner, apply, filtered_records, plan_apply_all,
}

module _ {W E Err : Type 0} (ctx : Context W E Err) (c : Counts) where
  -- The changes to apply only, as `apply` asks for them.
  abbrev pub chosen_changes : Bool → W → Option (Dict (List E))
  chosen_changes has_changes w = if has_changes then ctx.changes_by_entity w else none

  -- What a round of the inner loop compares, after its reads, has the counts.
  abbrev pub HasCounts : List (Mapper W E Err) → Bool → Loop W E → Type 0
  HasCounts mappers has_changes st =
      (w : W)
      → load (map (λ m. m.cloud_read) mappers) (ctx.flush_cloud st.world) ≡ (w, loaded)
      → record_count (
          map (counts_of ctx) (
            filtered_records ctx mappers false has_changes w (chosen_changes has_changes w)
              st.changes_after))
        ≡ c

  module _ (mappers : List (Mapper W E Err)) (has_changes : Bool) where
    apply_planned-Falls :
        (st : Loop W E) (n : ℕ) (changes : Option (Dict (List E)))
        → record_count (
            map
              (counts_of ctx)
              (filtered_records ctx mappers false has_changes st.world changes st.changes_after))
          ≡ c
        → RoundsLeft c n false st
        → Falls {Err = Err} (RoundsLeft c) n (
            apply_planned ctx mappers false has_changes
              (filtered_records ctx mappers false has_changes st.world changes st.changes_after)
              st)
    apply_planned-Falls st n changes same left =
        let records : List (Record W E Err) =
          filtered_records ctx mappers false has_changes st.world changes st.changes_after in
        apply_records-Falls ctx c records
          (record st { plan = plan_apply_all ctx st.world records st.plan }) n same left

    apply_compared-Falls :
        (st : Loop W E) (n : ℕ)
        → record_count (
            map (counts_of ctx) (
              filtered_records ctx mappers false has_changes st.world
                (chosen_changes has_changes st.world)
                st.changes_after))
          ≡ c
        → RoundsLeft c n false st
        → Falls {Err = Err} (RoundsLeft c) n (apply_compared ctx mappers false has_changes st)
    apply_compared-Falls st n same left = elim (Bool-cases has_changes) [
      | inl e ↦
          rw (e, apply_compared)
            (found (ctx.changes_by_entity st.world) (rw (e, chosen_changes) refl))
      | inr e ↦
          rw (e, apply_compared)
            (apply_planned-Falls st n none (counted none (rw (e, chosen_changes) refl)) left)
    ]
      where
        counted :
            (changes : Option (Dict (List E)))
            → chosen_changes has_changes st.world ≡ changes
            → record_count (
                map (counts_of ctx) (
                  filtered_records ctx mappers false has_changes st.world changes st.changes_after))
              ≡ c
        counted changes e = rw e at same

        found :
            (changes : Option (Dict (List E)))
            → chosen_changes has_changes st.world ≡ changes
            → Falls {Err = Err} (RoundsLeft c) n (elim changes [
              | none ↦ stopped st query_failed
              | some cs ↦
                  apply_planned ctx mappers false has_changes
                    (filtered_records ctx mappers false has_changes st.world
                      (some cs)
                      st.changes_after)
                    st
            ])
        found none e = tt
        found (some cs) e = apply_planned-Falls st n (some cs) (counted (some cs) e) left

    apply_inner-Falls :
        (st : Loop W E) (n : ℕ)
        → HasCounts mappers has_changes st
        → RoundsLeft c n false st
        → Falls {Err = Err} (RoundsLeft c) n (apply_inner ctx mappers false has_changes st)
    unfolding apply_inner
    apply_inner-Falls st n same left =
        read (load (map (λ m. m.cloud_read) mappers) (ctx.flush_cloud st.world)) same
      where
        compared :
            (w : W) (ms : List (Mapper W E Err))
            → record_count (
                map (counts_of ctx) (
                  filtered_records ctx mappers false has_changes w
                    (chosen_changes has_changes w)
                    st.changes_after))
              ≡ c
            → Falls {Err = Err} (RoundsLeft c) n (elim ms [
              | [] ↦
                  stopped
                    (record st { world = ctx.drop_conn w })
                    (returned (record { iasql_plan_version = 3; rows = [] }))
              | m ∷ ms' ↦ apply_compared ctx mappers false has_changes (record st { world = w })
            ])
        compared w [] e = tt
        compared w (m ∷ ms) e = apply_compared-Falls (record st { world = w }) n e left

        read :
            (r : W × Outcome W Err)
            → ((w : W)
                → r ≡ (w, loaded)
                → record_count (
                    map (counts_of ctx) (
                      filtered_records ctx mappers false has_changes w
                        (chosen_changes has_changes w)
                        st.changes_after))
                  ≡ c)
            → Falls {Err = Err}
                (RoundsLeft c)
                n
                (after_cloud_read ctx mappers false has_changes st r)
        read (w, halted gs failures) e = tt
        read (w, loaded) e = compared w mappers (e w refl)

    apply_outer-Falls :
        (st : Loop W E) (n : ℕ)
        → RoundsLeft c n true st
        → Falls {Err = Err} (RoundsLeft c) n (apply_outer ctx mappers false has_changes st)
    unfolding apply_outer
    apply_outer-Falls st n left = read (load (map (λ m. m.db_read) mappers) (ctx.flush_db st.world))
      where
        one_less :
            (s : Loop W E)
            → s.counts ≡ st.counts
            → s.spin_count ≡ st.spin_count
            → RoundsLeft c n true st
            → (m : ℕ) × (m < n) × RoundsLeft c m false s
        one_less s e q (inl (e2, m)) = (n - 1, omega arith, inl (e ∙ e2, omega arith))
        one_less s e q (inr (e2, m, l)) =
            (n - 1, omega arith, inr (e ∙ e2, omega arith, omega arith))

        found :
            (w : W) (after : Option (Dict (List E)))
            → Falls {Err = Err} (RoundsLeft c) n (elim after [
              | none ↦ stopped (record st { world = w; ran_full_update = false }) query_failed
              | some cs ↦
                  inner_again (record st { world = w; ran_full_update = false; changes_after = cs })
            ])
        found w none = tt
        found w (some cs) =
            one_less (record st { world = w; ran_full_update = false; changes_after = cs }) refl
              refl left

        read :
            (r : W × Outcome W Err)
            → Falls {Err = Err} (RoundsLeft c) n (
                after_db_read ctx mappers false has_changes
                  (record st { ran_full_update = false })
                  r)
        read (w, halted gs failures) = tt
        read (w, loaded) = found w (ctx.changes_after_commit w)

  -- Where every round of the inner loop that `apply` comes to from its start counts the same entities
  -- left to create, delete and change, it ends within twelve rounds of its loops: it returns or throws.
  pub apply-halts :
      (all_mappers : List (Mapper W E Err)) (has_changes : Bool) (crupdes : CrupdeOperations)
      (fuel : ℕ) (w : W)
      → ((st : Loop W E)
          → Reaches
              (apply_outer ctx (filter (λ m. m.source_is_db) all_mappers) false has_changes)
              (apply_inner ctx (filter (λ m. m.source_is_db) all_mappers) false has_changes)
              (start_loop (ctx.open_conn w) crupdes)
              false
              st
          → HasCounts (filter (λ m. m.source_is_db) all_mappers) has_changes st)
      → 12 ≤ fuel
      → apply ctx all_mappers false has_changes crupdes fuel w ≢ none
  unfolding apply
  apply-halts all_mappers has_changes crupdes fuel w stuck enough =
      let own : List (Mapper W E Err) = filter (λ m. m.source_is_db) all_mappers in
      let start : Loop W E = start_loop (ctx.open_conn w) crupdes in
      run_loops-returns (close_with_plan ctx) (apply_outer ctx own false has_changes)
        (apply_inner ctx own false has_changes) start (RoundsLeft c) (by_round own start stuck) 11
        fuel true start begins (inl (refl, omega arith)) (omega arith)
    where
      by_round :
          (own : List (Mapper W E Err)) (start : Loop W E)
          → ((st : Loop W E)
              → Reaches
                  (apply_outer ctx own false has_changes)
                  (apply_inner ctx own false has_changes)
                  start
                  false
                  st
              → HasCounts own has_changes st)
          → (n : ℕ) (b : Bool) (s : Loop W E)
          → Reaches
              (apply_outer ctx own false has_changes)
              (apply_inner ctx own false has_changes)
              start
              b
              s
          → RoundsLeft c n b s
          → Falls {Err = Err} (RoundsLeft c) n (
              if b
              then apply_outer ctx own false has_changes s
              else apply_inner ctx own false has_changes s)
      by_round own start h n true s reached left = apply_outer-Falls own has_changes s n left
      by_round own start h n false s reached left =
          apply_inner-Falls own has_changes s n (h s reached) left
