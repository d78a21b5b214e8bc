-- ===== src/Reconcile/Spins.antt =====
-- The rule of four equal rounds of `apply` (modules/iasql_functions/iasql.ts): how many rounds are left
-- where every round counts the same.
use iasql.Base.{
  ℕ, ◌+◌, ◌-◌, ◌*◌, ◌<◌, ◌≡◌, ◌⊎◌, inl, inr, refl, Bool, true, false, none, some, List, [], ◌∷◌,
  map, beq, arith, if◌then◌else◌, Bool-cases, length,
}
use iasql.LazyDep.{Generator, Outcome, loaded, halted}
use iasql.Plan.{Counts, record_count}
use iasql.Reconcile.{
  Context, Finish, load_failed, Loop, outer_again, finished, stopped, Record, progress_halted,
}
use iasql.Reconcile.Parts.{
  load, run_generators, after_load, note_counts, counts_of, same_counts, same_count,
}
use iasql.Reconcile.Rounds.{Falls}
use iasql.Reconcile.Apply.{apply_generators, apply_records}

abbrev pub bit : Bool → ℕ
bit true = 1
bit false = 0

same_counts_refl : (c : Counts) → same_counts (some c) c ≡ true
same_counts_refl c = ground arith

module _ {W E : Type 0} (c : Counts) where
  -- At most `n` rounds are left, where every round counts `c`.
  abbrev pub RoundsLeft : ℕ → Bool → Loop W E → Type 0
  RoundsLeft n b s =
      ((s.counts ≡ none) × (n ≡ 10 + bit b))
      ⊎ ((s.counts ≡ some c) × (2 * s.spin_count + n ≡ 8 + bit b) × (s.spin_count < 4))

  Spun : ℕ → Loop W E → Type 0
  Spun k s = (s.counts ≡ some c) × (s.spin_count ≡ k)

  note_counts-Spun :
      (st : Loop W E) (n : ℕ)
      → RoundsLeft n false st
      → (k : ℕ) × Spun k (note_counts c st) × (2 * k + n ≡ 10) × (k < 5)
  unfolding note_counts Spun
  note_counts-Spun st n (inl (e, m)) = (0, rw e (refl, refl), omega arith, omega arith)
  note_counts-Spun st n (inr (e, m, l)) =
      (st.spin_count + 1, rw (e, same_counts_refl c) (refl, refl), omega arith, omega arith)

module _ {W E Err : Type 0} (ctx : Context W E Err) (c : Counts) where
  -- With `k` equal rounds behind it, a step that goes on has fewer rounds left.
  run_generators-Falls :
      (gs : List (Generator W Err)) (st : Loop W E) (k n : ℕ)
      → Spun c k st
      → 2 * k + n ≡ 10
      → k < 4
      → Falls {Err = Err} (RoundsLeft c) n (run_generators gs st)
  unfolding run_generators Spun
  run_generators-Falls [] st k n (e, q) m l = clear st.ran_full_update
    where
      clear :
          (b : Bool)
          → Falls {Err = Err} (RoundsLeft c) n (if b then outer_again st else finished st)
      clear true = (9 - 2 * k, omega arith, inr (e, omega arith, omega arith))
      clear false = tt
  run_generators-Falls (g ∷ gs) st k n (e, q) m l = after (load (g ∷ gs) st.world)
    where
      failed :
          (b : Bool) (s1 s2 : Loop W E) (f : Finish W Err)
          → s2.counts ≡ some c
          → s2.spin_count ≡ k
          → Falls {Err = Err} (RoundsLeft c) n (if b then stopped s1 f else outer_again s2)
      failed true s1 s2 f e2 q2 = tt
      failed false s1 s2 f e2 q2 = (9 - 2 * k, omega arith, inr (e2, omega arith, omega arith))

      after : (r : W × Outcome W Err) → Falls {Err = Err} (RoundsLeft c) n (after_load st r)
      after (w, loaded) = (8 - 2 * k, omega arith, inr (e, omega arith, omega arith))
      after (w, halted left failures) =
          failed (same_count st.failure_count (length left)) _ _ (load_failed left failures) e q

  pub apply_records-Falls :
      (records : List (Record W E Err)) (st : Loop W E) (n : ℕ)
      → record_count (map (counts_of ctx) records) ≡ c
      → RoundsLeft c n false st
      → Falls {Err = Err} (RoundsLeft c) n (apply_records ctx records st)
  unfolding apply_records Spun
  apply_records-Falls records st n same left =
      let (k, spun, m, l) = note_counts-Spun c st n left in
      rw same
        (spin (note_counts c st) k _ (Bool-cases (beq (note_counts c st).spin_count 4)) spun m l)
    where
      below_four :
          (st2 : Loop W E) (k : ℕ)
          → beq st2.spin_count 4 ≡ false
          → st2.spin_count ≡ k
          → k < 5
          → k < 4
      below_four st2 k e q l = ground arith

      spin :
          (st2 : Loop W E) (k extra : ℕ)
          → (beq st2.spin_count 4 ≡ true) ⊎ (beq st2.spin_count 4 ≡ false)
          → (st2.counts ≡ some c) × (st2.spin_count ≡ k)
          → 2 * k + n ≡ 10
          → k < 5
          → Falls {Err = Err} (RoundsLeft c) n (
              if beq st2.spin_count 4
              then stopped st2 (progress_halted st2.plan)
              else run_generators
                  (apply_generators ctx records)
                  (record st2 { records_touched = st2.records_touched + extra }))
      spin st2 k extra (inl e) spun m l = rw e tt
      spin st2 k extra (inr e) spun m l = rw e (
          run_generators-Falls (apply_generators ctx records) _ k n spun m
            (below_four st2 k e spun.1 l))
