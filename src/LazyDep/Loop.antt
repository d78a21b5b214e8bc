-- ===== src/LazyDep/Loop.antt =====
-- The loop of `lazy_loader`: rounds never grow, so the fuel suffices and the failures are bounded.
use iasql.Base.{
  ℕ, zero, suc, ◌+◌, ◌*◌, ◌≤◌, ◌<◌, ◌≡◌, none, some, List, [], ◌∷◌, ◌++◌, length, arith,
  length-append, Option-cases, inl, inr, refl, ◌⊎◌, ◌≢◌, ap, ◌-◌, ◌∙◌,
}
use iasql.LazyDep.{Generator, Outcome, loaded, halted, run_round, conclude, load_loop, lazy_loader}

gauss_sum : (r d : ℕ) → r * (r + 1) + 2 * r ≤ (r + 1 + d) * (r + 1 + d + 1)
gauss_sum r d = omega arith

gauss_step : (r l : ℕ) → r < l → r * (r + 1) + 2 * r ≤ l * (l + 1)
gauss_step r l h =
    let e : r + 1 + (l - (r + 1)) ≡ l = omega arith in rw e at (gauss_sum r (l - (r + 1)))

square-ge : (l : ℕ) → 2 * suc l ≤ suc l * (suc l + 1)
square-ge l = omega arith

stuck_bound : (f l n : ℕ) → 0 < l → n ≡ f + l → 2 * n ≤ 2 * f + l * (l + 1)
stuck_bound f zero n h e = absurd (omega arith)
stuck_bound f (suc l) n h e = omega (arith, square-ge l)

pub length-zero {ℓ} : {A : Type ℓ} (xs : List A) → length xs ≡ 0 → xs ≡ []
length-zero [] h = refl
length-zero (x ∷ xs) h = absurd (omega arith)

module _ {S Err : Type 0} where
  pub length-rerun-le :
      (gs : List (Generator S Err)) (s : S) → length (run_round gs s).rerun ≤ length gs
  unfolding run_round
  length-rerun-le [] s = omega arith
  length-rerun-le (g ∷ gs) s = ground (arith, length-rerun-le gs (g s).0)

  -- A round keeps exactly one failure for each operation that it marks for a rerun.
  pub length-failures :
      (gs : List (Generator S Err)) (s : S)
      → length (run_round gs s).failures ≡ length (run_round gs s).rerun
  unfolding run_round
  length-failures [] s = refl
  length-failures (g ∷ gs) s = ground (arith, length-failures gs (g s).0)

  load_loop-ne-none :
      (fuel : ℕ) (gs : List (Generator S Err)) (failures : List Err) (s : S)
      → length gs < fuel
      → load_loop fuel gs failures s ≢ none
  unfolding load_loop
  load_loop-ne-none zero gs failures s h = absurd (omega arith)
  load_loop-ne-none (suc fuel) gs failures s h = ground (
    arith,
    length-rerun-le gs s,
    load_loop-ne-none fuel (run_round gs s).rerun (failures ++ (run_round gs s).failures)
        (run_round gs s).state,
  )

  -- `lazy_loader` ends, with success or with the error, whatever its operations do.
  pub lazy_loader_total :
      (gs : List (Generator S Err)) (s : S) → (r : S × Outcome S Err) × (lazy_loader gs s ≡ some r)
  unfolding lazy_loader
  lazy_loader_total gs s = elim (Option-cases (load_loop (length gs + 1) gs [] s)) [
    | inl e ↦ absurd (load_loop-ne-none (length gs + 1) gs [] s (omega arith) e)
    | inr found ↦ found
  ]

  module _ (fuel : ℕ) (gs : List (Generator S Err)) (failures : List Err) (s s' : S)
      (out : Outcome S Err) where
    -- How one round of the loop goes on: all failed, some failed, none failed.
    abbrev pub Stuck : Type 0
    Stuck =
        (length (run_round gs s).rerun ≡ length gs)
        × (s' ≡ (run_round gs s).state)
        × (out ≡ conclude gs (failures ++ (run_round gs s).failures))

    abbrev pub GoesOn : Type 0
    GoesOn =
        (length (run_round gs s).rerun < length gs)
        × (load_loop fuel (run_round gs s).rerun (failures ++ (run_round gs s).failures)
              (run_round gs s).state
            ≡ some (s', out))

    abbrev pub Finished : Type 0
    Finished = (length (run_round gs s).rerun ≡ 0) × (s' ≡ (run_round gs s).state) × (out ≡ loaded)

    pub load_loop-cases :
        load_loop (suc fuel) gs failures s ≡ some (s', out) → Stuck ⊎ GoesOn ⊎ Finished
    unfolding load_loop
    load_loop-cases h = ground (arith, length-rerun-le gs s, length-zero (run_round gs s).rerun)

  pub conclude-halted :
      (gs left : List (Generator S Err)) (fs failures : List Err)
      → halted left fs ≡ conclude gs failures
      → (left ≡ gs) × (fs ≡ failures) × (0 < length gs)
  conclude-halted [] left fs failures h = absurd (cc)
  conclude-halted (g ∷ gs) left fs failures h = ground arith

  pub failures-le :
      (fuel : ℕ) (gs : List (Generator S Err)) (failures : List Err) (s s' : S)
      (left : List (Generator S Err)) (fs : List Err)
      → load_loop fuel gs failures s ≡ some (s', halted left fs)
      → 2 * length fs ≤ 2 * length failures + length gs * (length gs + 1)
  failures-le zero gs failures s s' left fs h = absurd (unfold load_loop in cc)
  failures-le (suc fuel) gs failures s s' left fs h =
      elim (load_loop-cases fuel gs failures s s' (halted left fs) h) [
        | inl (all, _, e) ↦
            let (_, same, some_left) = conclude-halted gs left fs _ e in
            stuck_bound (length failures) (length gs) (length fs) some_left (
              ap length same
              ∙ length-append failures (run_round gs s).failures
              ∙ ap (λ (n : ℕ). length failures + n) (length-failures gs s ∙ all))
        | inr (inl (fewer, on)) ↦
            let ih =
              failures-le fuel (run_round gs s).rerun (failures ++ (run_round gs s).failures)
                (run_round gs s).state s' left fs on in
            omega (
              arith,
              ih,
              length-append failures (run_round gs s).failures,
              length-failures gs s,
              gauss_step (length (run_round gs s).rerun) (length gs) fewer,
            )
        | inr (inr done) ↦ absurd (cc)
      ]
