-- ===== src/Reconcile/NoWork.antt =====
-- When a round of `apply` (modules/iasql_functions/iasql.ts) returns a plan: it has no operation to run.
use mathlib.Core.List.{reverse, reverse_aux}
use iasql.Base.{
  ◌+◌, ◌≡◌, ◌⊎◌, ◌++◌, sym, ap, ◌∙◌, inl, inr, refl, Bool, true, false, none, some, List, [], ◌∷◌,
  map, flat_map, beq, if◌then◌else◌, length,
}
use iasql.Base.Members.{All, In, In-All}
use iasql.LazyDep.{Generator, Outcome, loaded, halted}
use iasql.Plan.{Counts, IasqlPlan, iasql_plan_v3, record_count}
use iasql.Reconcile.{
  Mapper, Context, Finish, returned, load_failed, progress_halted, Loop, outer_again, finished,
  stopped, Record,
}
use iasql.Reconcile.Parts.{
  load, run_generators, after_load, note_counts, counts_of, same_count, same_counts,
}
use iasql.Reconcile.Rounds.{EndsWith}
use iasql.Reconcile.Apply.{
  close_with_plan, filtered_records, apply_generators, apply_records, apply_forward, apply_backward,
}

module _ {A : Type 0} where
  append-nil_left : (xs ys : List A) → xs ++ ys ≡ [] → xs ≡ []
  append-nil_left [] ys h = refl
  append-nil_left (x ∷ xs) ys h = absurd (cc)

  append-nil_right : (xs ys : List A) → xs ++ ys ≡ [] → ys ≡ []
  append-nil_right [] ys h = h
  append-nil_right (x ∷ xs) ys h = absurd (cc)

module _ {A B : Type 0} where
  map-nil : (f : A → B) (xs : List A) → map f xs ≡ [] → xs ≡ []
  map-nil f [] h = refl
  map-nil f (x ∷ xs) h = absurd (cc)

  flat_map-nil : (f : A → List B) (xs : List A) → flat_map f xs ≡ [] → (a : A) → In a xs → f a ≡ []
  flat_map-nil f [] h a m = absurd m
  flat_map-nil f (x ∷ xs) h a (inl e) = rw e (append-nil_left (f x) (flat_map f xs) h)
  flat_map-nil f (x ∷ xs) h a (inr m) =
      flat_map-nil f xs (append-nil_right (f x) (flat_map f xs) h) a m

module _ {A : Type 0} where
  In-reverse_aux : (a : A) (xs r : List A) → In a xs ⊎ In a r → In a (reverse_aux xs r)
  In-reverse_aux a [] r (inl m) = absurd m
  In-reverse_aux a [] r (inr m) = m
  In-reverse_aux a (x ∷ xs) r (inl (inl e)) = In-reverse_aux a xs (x ∷ r) (inr (inl e))
  In-reverse_aux a (x ∷ xs) r (inl (inr m)) = In-reverse_aux a xs (x ∷ r) (inl m)
  In-reverse_aux a (x ∷ xs) r (inr m) = In-reverse_aux a xs (x ∷ r) (inr (inr m))

module _ {W E Err : Type 0} where
  -- Nothing is left to create, update, replace or delete.
  abbrev pub IsSettled : Record W E Err → Type 0
  IsSettled r =
      (r.diff.entities_in_db_only ≡ [])
      × (r.diff.entities_in_aws_only ≡ [])
      × (r.diff.entities_changed ≡ [])

  module _ (ctx : Context W E Err) where
    no_generators-IsSettled :
        (records : List (Record W E Err))
        → apply_generators ctx records ≡ []
        → All IsSettled records
    unfolding apply_generators
    no_generators-IsSettled records h = In-All IsSettled records λ r m.
        let forward : apply_forward ctx r ≡ [] =
          flat_map-nil (apply_forward ctx) records
            (append-nil_left _ (flat_map (apply_backward ctx) (reverse records)) h) r m in
        let backward : apply_backward ctx r ≡ [] =
          flat_map-nil (apply_backward ctx) (reverse records)
            (append-nil_right (flat_map (apply_forward ctx) records) _ h) r
            (In-reverse_aux r records [] (inl m)) in
        (
          map-nil _ r.diff.entities_in_db_only (append-nil_left _ _ forward),
          map-nil _ r.diff.entities_in_aws_only backward,
          map-nil _ r.diff.entities_changed (append-nil_right _ _ forward),
        )

    run_generators-returned :
        (gs : List (Generator W Err)) (st s : Loop W E) (p : IasqlPlan)
        → EndsWith (close_with_plan ctx) (run_generators gs st) s (returned p)
        → (gs ≡ []) × (close_with_plan ctx st ≡ (s, returned p))
    unfolding run_generators
    run_generators-returned [] st s p h = (refl, clear st.ran_full_update h)
      where
        clear :
            (b : Bool)
            → EndsWith
                (close_with_plan ctx)
                (if b then outer_again st else finished st)
                s
                (returned p)
            → close_with_plan ctx st ≡ (s, returned p)
        clear true h2 = absurd h2
        clear false h2 = h2
    run_generators-returned (g ∷ gs) st s p h = absurd (none_returned (load (g ∷ gs) st.world) h)
      where
        failed :
            (b : Bool) (st2 st3 : Loop W E) (left : List (Generator W Err)) (failures : List Err)
            → EndsWith
                (close_with_plan ctx)
                (if b then stopped st2 (load_failed left failures) else outer_again st3)
                s
                (returned p)
            → ⊥
        failed true st2 st3 left failures h2 =
            let (_, k) : (st2 ≡ s) × (load_failed left failures ≡ returned p) = h2 in cc
        failed false st2 st3 left failures h2 = h2

        none_returned :
            (r : W × Outcome W Err)
            → EndsWith (close_with_plan ctx) (after_load st r) s (returned p)
            → ⊥
        none_returned (w, loaded) h2 = h2
        none_returned (w, halted left failures) h2 =
            failed (same_count st.failure_count (length left)) _ _ left failures h2

    -- The records that a round of `apply` compares.
    abbrev pub round_records : List (Mapper W E Err) → Bool → Loop W E → List (Record W E Err)
    round_records mappers has_changes st =
        filtered_records ctx mappers false has_changes st.world
          (if has_changes then ctx.changes_by_entity st.world else none) st.changes_after

    note_counts-rest :
        (c : Counts) (st : Loop W E)
        → ((note_counts c st).world ≡ st.world) × ((note_counts c st).plan ≡ st.plan)
    unfolding note_counts
    note_counts-rest c st = rest (same_counts st.counts c)
      where
        rest :
            (b : Bool)
            → let s : Loop W E =
                (if b
                  then record st { spin_count = st.spin_count + 1 }
                  else record st { counts = some c; spin_count = 0 }) in
              (s.world ≡ st.world) × (s.plan ≡ st.plan)
        rest true = (refl, refl)
        rest false = (refl, refl)

    pub apply_records-returned :
        (records : List (Record W E Err)) (st s : Loop W E) (p : IasqlPlan)
        → EndsWith (close_with_plan ctx) (apply_records ctx records st) s (returned p)
        → All IsSettled records
          × (s.world ≡ ctx.drop_conn st.world)
          × (s.plan ≡ st.plan)
          × (p ≡ iasql_plan_v3 ctx.snake_case st.plan)
    unfolding apply_records close_with_plan
    apply_records-returned records st s p h =
        let counts : Counts = record_count (map (counts_of ctx) records) in
        let (none_left, closed) =
          not_halted (beq (note_counts counts st).spin_count 4) (note_counts counts st) _ h in
        let (same_world, same_plan) = note_counts-rest counts st in
        (
          no_generators-IsSettled records none_left,
          ap (λ (x : Loop W E × Finish W Err). x.0.world) (sym closed)
              ∙ ap ctx.drop_conn same_world,
          ap (λ (x : Loop W E × Finish W Err). x.0.plan) (sym closed) ∙ same_plan,
          returned-injective (ap (λ (x : Loop W E × Finish W Err). x.1) (sym closed))
              ∙ ap (iasql_plan_v3 ctx.snake_case) same_plan,
        )
      where
        returned-injective :
            {a b : IasqlPlan} → Path (Finish W Err) (returned a) (returned b) → a ≡ b
        returned-injective e = cc

        not_halted :
            (b : Bool) (st2 st3 : Loop W E)
            → EndsWith
                (close_with_plan ctx)
                (if b
                  then stopped st2 (progress_halted st2.plan)
                  else run_generators (apply_generators ctx records) st3)
                s
                (returned p)
            → (apply_generators ctx records ≡ []) × (close_with_plan ctx st3 ≡ (s, returned p))
        not_halted true st2 st3 h2 =
            let (_, k) : (st2 ≡ s) × (progress_halted st2.plan ≡ returned p) = h2 in absurd (cc)
        not_halted false st2 st3 h2 =
            run_generators-returned (apply_generators ctx records) st3 s p h2
