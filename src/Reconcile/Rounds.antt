-- ===== src/Reconcile/Rounds.antt =====
-- The nested loops of `apply` and `sync`, whatever their bodies are: where they end, what they keep,
-- when they have to end.
use iasql.Base.{
  ℕ, zero, suc, ◌+◌, ◌<◌, ◌≡◌, ◌≢◌, ap, inl, inr, refl, Bool, true, false, none, some, List, [],
  ◌∷◌, arith, length, if◌then◌else◌, Option-cases,
}
use iasql.Base.Members.{All}
use iasql.LazyDep.{Generator, Outcome, run_round, load_loop, lazy_loader}
use iasql.LazyDep.Loop.{lazy_loader_total, load_loop-cases}
use iasql.Reconcile.{Finish, Loop, Step, inner_again, outer_again, finished, stopped}
use iasql.Reconcile.Parts.{load, run_loops}

module _ {W E Err : Type 0} where
  -- A bound on the rounds that are left, which every round that goes on makes smaller.
  abbrev pub Falls : (ℕ → Bool → Loop W E → Type 0) → ℕ → Step W E Err → Type 0
  Falls I n (inner_again s) = (m : ℕ) × (m < n) × I m false s
  Falls I n (outer_again s) = (m : ℕ) × (m < n) × I m true s
  Falls I n (finished s) = Unit
  Falls I n (stopped s g) = Unit

-- What the loops can come to from `start`: `Reaches true s` at the top of the outer body, `Reaches false s`
-- at the top of the inner one.
module _ {W E Err : Type 0} (outer inner : Loop W E → Step W E Err) (start : Loop W E) where
  pub data Reaches : Bool → Loop W E → Type 0 where
    begins : Reaches true start
    into_inner :
        {b : Bool} {st s : Loop W E}
        → Reaches b st
        → (if b then outer st else inner st) ≡ inner_again s
        → Reaches false s
    into_outer :
        {b : Bool} {st s : Loop W E}
        → Reaches b st
        → (if b then outer st else inner st) ≡ outer_again s
        → Reaches true s

module _ {W E Err : Type 0} (close : Loop W E → Loop W E × Finish W Err) where
  -- A step that ends the loops, with this result.
  abbrev pub EndsWith : Step W E Err → Loop W E → Finish W Err → Type 0
  EndsWith (inner_again s) st f = ⊥
  EndsWith (outer_again s) st f = ⊥
  EndsWith (finished s) st f = close s ≡ (st, f)
  EndsWith (stopped s g) st f = (s ≡ st) × (g ≡ f)

  module _ (outer inner : Loop W E → Step W E Err) where
    -- What the loops return was returned by a round of one of them, which they have come to.
    abbrev pub LastRound : Loop W E → Loop W E → Finish W Err → Type 0
    LastRound start st f =
        (at_outer : Bool) × (s : Loop W E) × Reaches outer inner start at_outer s
        × EndsWith (if at_outer then outer s else inner s) st f

    pub run_loops-LastRound :
        (start : Loop W E) (fuel : ℕ) (at_outer : Bool) (st s : Loop W E) (f : Finish W Err)
        → Reaches outer inner start at_outer st
        → run_loops outer inner close fuel at_outer st ≡ some (s, f)
        → LastRound start s f
    unfolding run_loops
    run_loops-LastRound start zero at_outer st s f reached h = absurd (cc)
    run_loops-LastRound start (suc fuel) at_outer st s f reached h =
        next (λ b s2. run_loops-LastRound start fuel b s2 s f)
          (if at_outer then outer st else inner st) refl h
      where
        next :
            (ih : (b : Bool) (s2 : Loop W E)
              → Reaches outer inner start b s2
              → run_loops outer inner close fuel b s2 ≡ some (s, f)
              → LastRound start s f)
            (step : Step W E Err)
            → (if at_outer then outer st else inner st) ≡ step
            → (elim step [
              | inner_again s2 ↦ run_loops outer inner close fuel false s2
              | outer_again s2 ↦ run_loops outer inner close fuel true s2
              | finished s2 ↦ some (close s2)
              | stopped s2 f2 ↦ some (s2, f2)
            ])
              ≡ some (s, f)
            → LastRound start s f
        next ih (inner_again s2) e g = ih false s2 (into_inner reached e) g
        next ih (outer_again s2) e g = ih true s2 (into_outer reached e) g
        next ih (finished s2) e g = (at_outer, st, reached, rw e (ground arith))
        next ih (stopped s2 f2) e g = (at_outer, st, reached, rw e (ground arith))

    pub run_loops-inner_again :
        (fuel : ℕ) (at_outer : Bool) (st s : Loop W E)
        → (if at_outer then outer st else inner st) ≡ inner_again s
        → run_loops outer inner close (suc fuel) at_outer st
          ≡ run_loops outer inner close fuel false s
    unfolding run_loops
    run_loops-inner_again fuel at_outer st s e =
        ap
          (λ (step : Step W E Err). elim step [
            | inner_again s2 ↦ run_loops outer inner close fuel false s2
            | outer_again s2 ↦ run_loops outer inner close fuel true s2
            | finished s2 ↦ some (close s2)
            | stopped s2 f2 ↦ some (s2, f2)
          ])
          e

    pub run_loops-stopped :
        (fuel : ℕ) (at_outer : Bool) (st s : Loop W E) (f : Finish W Err)
        → (if at_outer then outer st else inner st) ≡ stopped s f
        → run_loops outer inner close (suc fuel) at_outer st ≡ some (s, f)
    unfolding run_loops
    run_loops-stopped fuel at_outer st s f e =
        ap
          (λ (step : Step W E Err). elim step [
            | inner_again s2 ↦ run_loops outer inner close fuel false s2
            | outer_again s2 ↦ run_loops outer inner close fuel true s2
            | finished s2 ↦ some (close s2)
            | stopped s2 f2 ↦ some (s2, f2)
          ])
          e

    pub run_loops-returns :
        (start : Loop W E) (I : ℕ → Bool → Loop W E → Type 0)
        (falls : (n : ℕ) (b : Bool) (s : Loop W E)
          → Reaches outer inner start b s
          → I n b s
          → Falls I n (if b then outer s else inner s))
        (n fuel : ℕ) (at_outer : Bool) (st : Loop W E)
        → Reaches outer inner start at_outer st
        → I n at_outer st
        → n < fuel
        → run_loops outer inner close fuel at_outer st ≢ none
    unfolding run_loops
    run_loops-returns start I falls n zero at_outer st reached i h = absurd (omega arith)
    run_loops-returns start I falls n (suc fuel) at_outer st reached i h =
        next (λ m b s2. run_loops-returns start I falls m fuel b s2)
          (if at_outer then outer st else inner st) refl (falls n at_outer st reached i)
      where
        next :
            (ih : (m : ℕ) (b : Bool) (s2 : Loop W E)
              → Reaches outer inner start b s2
              → I m b s2
              → m < fuel
              → run_loops outer inner close fuel b s2 ≢ none)
            (step : Step W E Err)
            → (if at_outer then outer st else inner st) ≡ step
            → Falls I n step
            → (elim step [
              | inner_again s2 ↦ run_loops outer inner close fuel false s2
              | outer_again s2 ↦ run_loops outer inner close fuel true s2
              | finished s2 ↦ some (close s2)
              | stopped s2 f2 ↦ some (s2, f2)
            ])
              ≢ none
        next ih (inner_again s2) e (m, less, j) =
            ih m false s2 (into_inner reached e) j (omega arith)
        next ih (outer_again s2) e (m, less, j) =
            ih m true s2 (into_outer reached e) j (omega arith)
        next ih (finished s2) e d = λ g. cc
        next ih (stopped s2 f2) e d = λ g. cc

-- Operations that keep a property of the world.
module _ {W Err : Type 0} (P : W → Type 0) where
  abbrev pub Keeps : Generator W Err → Type 0
  Keeps g = (w : W) → P w → P (g w).0

  run_round-Keeps :
      (gs : List (Generator W Err)) (w : W)
      → All Keeps gs
      → P w
      → P (run_round gs w).state × All Keeps (run_round gs w).rerun
  unfolding run_round
  run_round-Keeps [] w ks p = (p, tt)
  run_round-Keeps (g ∷ gs) w ks p =
      let ih = run_round-Keeps gs (g w).0 ks.1 (ks.0 w p) in
      elim (Option-cases (g w).1) [ inl e ↦ rw e ih | inr (x, e) ↦ rw e (ih.0, (ks.0, ih.1)) ]

  load_loop-Keeps :
      (fuel : ℕ) (gs : List (Generator W Err)) (failures : List Err) (w w' : W)
      (out : Outcome W Err)
      → All Keeps gs
      → P w
      → load_loop fuel gs failures w ≡ some (w', out)
      → P w'
  load_loop-Keeps zero gs failures w w' out ks p h = absurd (unfold load_loop in cc)
  load_loop-Keeps (suc fuel) gs failures w w' out ks p h =
      let (q, left) = run_round-Keeps gs w ks p in
      elim (load_loop-cases fuel gs failures w w' out h) [
        | inl (_, same, _) ↦ rw same q
        | inr (inl (_, on)) ↦
            load_loop-Keeps fuel (run_round gs w).rerun _ (run_round gs w).state w' out left q on
        | inr (inr (_, same, _)) ↦ rw same q
      ]

  pub load-Keeps : (gs : List (Generator W Err)) (w : W) → All Keeps gs → P w → P (load gs w).0
  unfolding load
  load-Keeps gs w ks p =
      let ((w', out), e) = lazy_loader_total gs w in
      rw e (load_loop-Keeps (length gs + 1) gs [] w w' out ks p (unfold lazy_loader in e))
