-- ===== src/LazyDep/Completion.antt =====
-- What the two outcomes of `lazy_loader` say about the operations.
use iasql.Base.{
  ℕ, zero, suc, ◌+◌, ◌*◌, ◌≤◌, ◌≡◌, ◌≢◌, ◌∙◌, sym, subst, ap, refl, none, some, List, [], ◌∷◌, ◌++◌,
  length, arith, append_assoc, Option-cases, inl, inr,
}
use iasql.LazyDep.{Generator, loaded, halted, run_round, conclude, load_loop, lazy_loader}
use iasql.LazyDep.Loop.{load_loop-cases, length-rerun-le, length-zero, conclude-halted, failures-le}

module _ {S Err : Type 0} where
  -- Attempts at the operations of a list, one after the other: each is an operation that is still to be
  -- done; it stays in the list if it fails, which may have changed the state too, and leaves it when it
  -- succeeds. `Runs todo s left t` leads from the list `todo` in the state `s` to `left` in `t`.
  pub data Runs : List (Generator S Err) → S → List (Generator S Err) → S → Type 0 where
    stop : {todo : List (Generator S Err)} {s : S} → Runs todo s todo s
    fails :
        {left : List (Generator S Err)} {s t : S} (before after : List (Generator S Err))
        (g : Generator S Err) {e : Err}
        → (g s).1 ≡ some e
        → Runs (before ++ g ∷ after) (g s).0 left t
        → Runs (before ++ g ∷ after) s left t
    succeeds :
        {left : List (Generator S Err)} {s t : S} (before after : List (Generator S Err))
        (g : Generator S Err)
        → (g s).1 ≡ none
        → Runs (before ++ after) (g s).0 left t
        → Runs (before ++ g ∷ after) s left t

  Runs-trans :
      {xs ys zs : List (Generator S Err)} {s t u : S}
      → Runs xs s ys t
      → Runs ys t zs u
      → Runs xs s zs u
  Runs-trans stop q = q
  Runs-trans (fails before after g e r) q = fails before after g e (Runs-trans r q)
  Runs-trans (succeeds before after g e r) q = succeeds before after g e (Runs-trans r q)

  -- A round, behind the operations of the same round that have failed already.
  round-Runs :
      (failed gs : List (Generator S Err)) (s : S)
      → Runs (failed ++ gs) s (failed ++ (run_round gs s).rerun) (run_round gs s).state
  unfolding run_round
  round-Runs failed [] s = stop
  round-Runs failed (g ∷ gs) s = elim (Option-cases (g s).1) [
    | inl e ↦ rw e (succeeds failed gs g e (round-Runs failed gs (g s).0))
    | inr (x, e) ↦
        let r : Runs (failed ++ g ∷ gs) (g s).0 (failed ++ g ∷ (run_round gs (g s).0).rerun)
            (run_round gs (g s).0).state =
          subst
            (λ l.
              Runs l (g s).0 (failed ++ g ∷ (run_round gs (g s).0).rerun)
                (run_round gs (g s).0).state)
            (append_assoc failed (g ∷ []) gs)
            (subst (λ l. Runs ((failed ++ (g ∷ [])) ++ gs) (g s).0 l (run_round gs (g s).0).state)
              (append_assoc failed (g ∷ []) (run_round gs (g s).0).rerun)
              (round-Runs (failed ++ (g ∷ [])) gs (g s).0)) in
        rw e (fails failed gs g e r)
  ]

  load_loop-Loaded :
      (fuel : ℕ) (gs : List (Generator S Err)) (failures : List Err) (s t : S)
      → load_loop fuel gs failures s ≡ some (t, loaded)
      → Runs gs s [] t
  load_loop-Loaded zero gs failures s t h = absurd (unfold load_loop in cc)
  load_loop-Loaded (suc fuel) gs failures s t h =
      elim (load_loop-cases fuel gs failures s t loaded h) [
        | inl (all, same, e) ↦ nothing gs e same all (round-Runs [] gs s)
        | inr (inl (fewer, on)) ↦ Runs-trans (round-Runs [] gs s) (
            load_loop-Loaded fuel (run_round gs s).rerun (failures ++ (run_round gs s).failures)
              (run_round gs s).state t on)
        | inr (inr (clear, same, _)) ↦
            rw same (rw (length-zero (run_round gs s).rerun clear) at (round-Runs [] gs s))
      ]
    where
      nothing :
          (l : List (Generator S Err))
          → loaded ≡ conclude l (failures ++ (run_round gs s).failures)
          → t ≡ (run_round gs s).state
          → length (run_round gs s).rerun ≡ length l
          → Runs gs s (run_round gs s).rerun (run_round gs s).state
          → Runs gs s [] t
      nothing [] e same all r = rw same (rw (length-zero (run_round gs s).rerun all) at r)
      nothing (g ∷ l) e same all r = absurd (cc)

  -- On success some order of attempts leads from all given operations to none, each attempt being of an
  -- operation that has not succeeded yet: so every operation has succeeded exactly once, none was run
  -- again after that, and the state is the one that these attempts leave.
  pub lazy_loader-Loaded :
      (gs : List (Generator S Err)) (s t : S) → lazy_loader gs s ≡ some (t, loaded) → Runs gs s [] t
  unfolding lazy_loader
  lazy_loader-Loaded gs s t h = load_loop-Loaded (length gs + 1) gs [] s t h

  -- Each operation fails, one after the other, on the way from one state to the other.
  abbrev pub AllFail : List (Generator S Err) → S → S → Type 0
  AllFail [] u t = u ≡ t
  AllFail (g ∷ gs) u t = ((e : Err) × ((g u).1 ≡ some e)) × AllFail gs (g u).0 t

  round-AllFail :
      (gs : List (Generator S Err)) (s : S)
      → length (run_round gs s).rerun ≡ length gs
      → AllFail gs s (run_round gs s).state
  unfolding run_round
  round-AllFail [] s h = refl
  round-AllFail (g ∷ gs) s h = elim (Option-cases (g s).1) [
    | inl e ↦ absurd (ground (arith, length-rerun-le gs (g s).0))
    | inr (x, e) ↦ rw e ((x, refl), round-AllFail gs (g s).0 (ground arith))
  ]

  load_loop-halted :
      (fuel : ℕ) (gs : List (Generator S Err)) (failures : List Err) (s t : S)
      (left : List (Generator S Err)) (fs : List Err)
      → load_loop fuel gs failures s ≡ some (t, halted left fs)
      → (u : S) × Runs gs s left u × (left ≢ []) × AllFail left u t
  load_loop-halted zero gs failures s t left fs h = absurd (unfold load_loop in cc)
  load_loop-halted (suc fuel) gs failures s t left fs h =
      elim (load_loop-cases fuel gs failures s t (halted left fs) h) [
        | inl (all, same, e) ↦
            let (same_left, _, pos) = conclude-halted gs left fs _ e in
            (
              s,
              rw same_left stop,
              λ q. omega (arith, ap length (sym same_left ∙ q)),
              rw (same_left, same) (round-AllFail gs s all),
            )
        | inr (inl (fewer, on)) ↦
            let (u, r, ne, all) =
              load_loop-halted fuel (run_round gs s).rerun (failures ++ (run_round gs s).failures)
                (run_round gs s).state t left fs on in
            (u, Runs-trans (round-Runs [] gs s) r, ne, all)
        | inr (inr (_, _, e)) ↦ absurd (cc)
      ]

  -- On the error some order of attempts, each of an operation that has not succeeded yet, leads from the
  -- given operations to the reported ones: the others have succeeded exactly once. The reported ones are
  -- not none, and from the state that these attempts left, each of them, in turn, has failed once more.
  pub lazy_loader-halted :
      (gs : List (Generator S Err)) (s t : S) (left : List (Generator S Err)) (fs : List Err)
      → lazy_loader gs s ≡ some (t, halted left fs)
      → (u : S) × Runs gs s left u × (left ≢ []) × AllFail left u t
  unfolding lazy_loader
  lazy_loader-halted gs s t left fs h = load_loop-halted (length gs + 1) gs [] s t left fs h

  -- At most n (n + 1) / 2 failures are recorded for n operations.
  pub lazy_loader-failures_le :
      (gs : List (Generator S Err)) (s t : S) (left : List (Generator S Err)) (fs : List Err)
      → lazy_loader gs s ≡ some (t, halted left fs)
      → 2 * length fs ≤ length gs * (length gs + 1)
  unfolding lazy_loader
  lazy_loader-failures_le gs s t left fs h =
      omega (arith, failures-le (length gs + 1) gs [] s t left fs h)
