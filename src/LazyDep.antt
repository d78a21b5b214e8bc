-- ===== src/LazyDep.antt =====
-- services/lazy-dep.ts: `lazyLoader` runs operations that may fail until they depend on nothing that
-- is still to come: what fails is run again, as long as some operation of the last round succeeded.
-- An operation (`promiseGenerators`) is a function on the state `S` of the world; what it changed
-- before it threw stays changed. `Err` is the type of what it throws, which is
-- no `null` or `undefined`: lazyLoader itself throws at the stack of these.
pub mod Loop
pub mod Completion
mod Tests
use iasql.Base.{
  ℕ, zero, suc, ◌+◌, Option, none, some, List, [], ◌∷◌, ◌++◌, length, beq, ltb, if◌then◌else◌,
}

abbrev pub Generator : Type 0 → Type 0 → Type 0
Generator S Err = S → S × Option Err

pub record Round (S Err : Type 0) : Type 0 where
  pub state : S
  pub rerun : List (Generator S Err)
  pub failures : List Err

-- `true`, or the thrown `DepError` with its metadata.
pub data Outcome (S Err : Type 0) : Type 0 where
  loaded : Outcome S Err
  halted : (generators_to_run : List (Generator S Err)) (failures : List Err) → Outcome S Err

module _ {S Err : Type 0} where
  abbrev pub add_outcome : Generator S Err → Option Err → Round S Err → Round S Err
  add_outcome g none r = r
  add_outcome g (some e) r = record {
    state = r.state;
    rerun = g ∷ r.rerun;
    failures = e ∷ r.failures;
  }

  -- The `for` loop of one round.
  unfoldable pub run_round : List (Generator S Err) → S → Round S Err
  run_round [] s = record { state = s; rerun = []; failures = [] }
  run_round (g ∷ gs) s = let (s', o) = g s in add_outcome g o (run_round gs s')

  -- What follows the loop.
  abbrev pub conclude : List (Generator S Err) → List Err → Outcome S Err
  conclude [] failures = loaded
  conclude (g ∷ gs) failures = halted (g ∷ gs) failures

  -- The `do` loop. The fuel bounds the rounds; `none` means that it ran out.
  unfoldable pub load_loop : ℕ → List (Generator S Err) → List Err → S → Option (S × Outcome S Err)
  load_loop zero gs failures s = none
  load_loop (suc fuel) gs failures s =
      let r = run_round gs s in
      let failures' = failures ++ r.failures in
      let again = load_loop fuel r.rerun failures' r.state in
      if beq (length gs) (length r.rerun)
      then some (r.state, conclude gs failures')
      else if ltb 0 (length r.rerun)
      then again
      else some (r.state, conclude r.rerun failures')

  unfoldable pub lazy_loader : List (Generator S Err) → S → Option (S × Outcome S Err)
  lazy_loader gs s = load_loop (length gs + 1) gs [] s
