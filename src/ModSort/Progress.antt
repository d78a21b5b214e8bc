-- ===== src/ModSort/Progress.antt =====
-- When `sort_modules` returns: for modules whose dependencies can be met it does, and for modules
-- one of which can never be met it does not.
use iasql.Base.{
  ℕ, zero, suc, ◌+◌, ◌*◌, ◌<◌, ◌≡◌, ◌≢◌, ◌⊎◌, ◌∙◌, sym, ap, subst, refl, ◌-◌, String, true, false,
  none, some, List, [], ◌∷◌, ◌++◌, length, beq, includes, arith, append-nil, append_assoc,
  length-append, Bool-cases, inl, inr, eq_iff,
}
use iasql.Base.Members.{In, includes-In, In-all, In-append, In-append_left, In-append_right}
use iasql.Modules.{Module, full_name}
use iasql.ModSort.Order.{is_ready_lem}
use iasql.ModSort.{is_ready, sort_loop, sort_modules, enough}

-- Every dependency is known or names a waiting module of a lower rank: no cycle, nothing missing.
abbrev pub IsSolvable : (String → ℕ) → List String → List Module → Type 0
IsSolvable rank known queue =
    (m : Module)
    → In m queue
    → (d : String) → In d m.dependencies
    → In d known ⊎ ((n : Module) × In n queue × (full_name n ≡ d) × (rank d < rank (full_name m)))

ready_of_deps :
    (known : List String) (m : Module)
    → ((d : String) → In d m.dependencies → In d known)
    → is_ready known m ≡ true
ready_of_deps known m h = elim (Bool-cases (beq (length m.dependencies) 0)) [
  | inl e ↦ rw e
  | inr e ↦
      rw e (In-all (λ dep. includes known dep) m.dependencies (λ d i. includes-In d known (h d i)))
]

-- No waiting module has a rank below any bound, if none is ready.
descent :
    (rank : String → ℕ) (known : List String) (queue : List Module)
    → IsSolvable rank known queue
    → ((m : Module) → In m queue → is_ready known m ≡ false)
    → (bound : ℕ) (m : Module) → In m queue
    → ¬ (rank (full_name m) < bound)
descent rank known queue solvable idle zero m i h = omega arith
descent rank known queue solvable idle (suc bound) m i h = absurd (
    cc (
      idle m i,
      ready_of_deps known m
          λ d dep. met d dep (solvable m i d dep) (descent rank known queue solvable idle bound),
    ))
  where
    met :
        (d : String)
        → In d m.dependencies
        → In d known
          ⊎ ((n : Module) × In n queue × (full_name n ≡ d) × (rank d < rank (full_name m)))
        → ((n : Module) → In n queue → ¬ (rank (full_name n) < bound))
        → In d known
    met d dep (inl k) ih = k
    met d dep (inr (n, j, e, lower)) ih = absurd (ih n j (omega (arith, ap rank e)))

-- A queue splits at its first ready module.
record FirstReady (known : List String) (queue : List Module) : Type 0 where
  before : List Module
  first : Module
  after : List Module
  split : queue ≡ before ++ first ∷ after
  idle : (m : Module) → In m before → is_ready known m ≡ false
  ready : is_ready known first ≡ true

first_ready :
    (known : List String) (queue : List Module)
    → FirstReady known queue ⊎ ((m : Module) → In m queue → is_ready known m ≡ false)
first_ready known [] = inr (λ m i. absurd i)
first_ready known (x ∷ queue) = elim (Bool-cases (is_ready known x)) [
  | inl e ↦ inl (record {
    before = [];
    first = x;
    after = queue;
    split = refl;
    idle = λ m i. absurd i;
    ready = e;
  })
  | inr e ↦ elim (first_ready known queue) [
    | inl r ↦ inl (record {
      before = x ∷ r.before;
      first = r.first;
      after = r.after;
      split = ap (λ l. x ∷ l) r.split;
      idle = λ m. either _ m e (r.idle m);
      ready = r.ready;
    })
    | inr none_ready ↦ inr (λ m. either _ m e (none_ready m))
  ]
]
  where
    either :
        (l : List Module) (m : Module)
        → is_ready known x ≡ false
        → (In m l → is_ready known m ≡ false)
        → In m (x ∷ l)
        → is_ready known m ≡ false
    either l m e rest (inl same) = rw same e
    either l m e rest (inr i) = rest i

abbrev turn : List Module → ℕ → ℕ
turn [] fuel = suc fuel
turn (x ∷ before) fuel = suc (turn before fuel)

turn-eq : (before : List Module) (fuel : ℕ) → turn before fuel ≡ length before + suc fuel
turn-eq [] fuel = omega arith
turn-eq (x ∷ before) fuel = omega (arith, turn-eq before fuel)

-- The modules before the first ready one go to the end of the queue, and it is emitted.
sort_loop-turn :
    (before : List Module) (fuel : ℕ) (first : Module) (after : List Module) (known : List String)
    (sorted : List Module)
    → ((m : Module) → In m before → is_ready known m ≡ false)
    → is_ready known first ≡ true
    → sort_loop (turn before fuel) (before ++ first ∷ after) known sorted
      ≡ sort_loop fuel (after ++ before) (full_name first ∷ known) (sorted ++ first ∷ [])
unfolding sort_loop
sort_loop-turn [] fuel first after known sorted idle ready = rw (ready, append-nil after)
sort_loop-turn (x ∷ before) fuel first after known sorted idle ready =
    rw (idle x (inl refl), append_assoc before (first ∷ after) (x ∷ []))
      (sort_loop-turn before fuel first (after ++ x ∷ []) known sorted (λ m i. idle m (inr i)) ready
        ∙ rw append_assoc)

IsSolvable-turn :
    (rank : String → ℕ) (known : List String) (before after : List Module) (first : Module)
    → IsSolvable rank known (before ++ first ∷ after)
    → IsSolvable rank (full_name first ∷ known) (after ++ before)
IsSolvable-turn rank known before after first solvable m i d dep =
    still (solvable m (back m i) d dep)
  where
    back : (n : Module) → In n (after ++ before) → In n (before ++ first ∷ after)
    back n j = elim (In-append n after before j) [
      | inl k ↦ In-append_right n before (first ∷ after) (inr k)
      | inr k ↦ In-append_left n before (first ∷ after) k
    ]

    still :
        In d known
          ⊎ ((n : Module) × In n (before ++ first ∷ after)
              × (full_name n ≡ d)
              × (rank d < rank (full_name m)))
        → In d (full_name first ∷ known)
          ⊎ ((n : Module) × In n (after ++ before)
              × (full_name n ≡ d)
              × (rank d < rank (full_name m)))
    still (inl k) = inl (inr k)
    still (inr (n, j, e, lower)) = elim (In-append n before (first ∷ after) j) [
      | inl k ↦ inr (n, In-append_right n after before k, e, lower)
      | inr (inl q) ↦ inl (inl (sym e ∙ ap full_name q))
      | inr (inr k) ↦ inr (n, In-append_left n after before k, e, lower)
    ]

sort_loop-returns :
    (rank : String → ℕ) (size fuel : ℕ) (queue : List Module) (known : List String)
    (sorted : List Module)
    → length queue ≡ size
    → size * size < fuel
    → IsSolvable rank known queue
    → (out : List Module) × (sort_loop fuel queue known sorted ≡ some out)
sort_loop-returns rank size zero queue known sorted e h solvable = absurd (omega arith)
sort_loop-returns rank zero (suc fuel) [] known sorted e h solvable =
    (sorted, unfold sort_loop in refl)
sort_loop-returns rank zero (suc fuel) (x ∷ queue) known sorted e h solvable = absurd (omega arith)
sort_loop-returns rank (suc size) (suc fuel) queue known sorted e h solvable =
    elim (first_ready known queue) [
      | inr idle ↦ absurd (nobody queue e idle solvable)
      | inl r ↦
          let rest : ℕ = suc fuel - suc (length r.before) in
          let short : length r.before + suc (length r.after) ≡ suc size =
            sym (length-append r.before (r.first ∷ r.after)) ∙ ap length (sym r.split) ∙ e in
          let same : turn r.before rest ≡ suc fuel = omega (arith, turn-eq r.before rest) in
          let (out, q) =
            sort_loop-returns rank size rest (r.after ++ r.before) (full_name r.first ∷ known)
              (sorted ++ r.first ∷ []) (omega (arith, length-append r.after r.before)) (omega arith)
              (IsSolvable-turn rank known r.before r.after r.first
                (subst (IsSolvable rank known) r.split solvable)) in
          (
            out,
            ap (λ l. sort_loop (suc fuel) l known sorted) r.split
                ∙ ap (λ f. sort_loop f (r.before ++ r.first ∷ r.after) known sorted) (sym same)
                ∙ sort_loop-turn r.before rest r.first r.after known sorted r.idle r.ready
                ∙ q,
          )
    ]
  where
    nobody :
        (l : List Module)
        → length l ≡ suc size
        → ((m : Module) → In m l → is_ready known m ≡ false)
        → IsSolvable rank known l
        → ⊥
    nobody [] q idle ok = omega arith
    nobody (m ∷ l) q idle ok =
        descent rank known (m ∷ l) ok idle (suc (rank (full_name m))) m (inl refl) (omega arith)

-- For modules with neither a cycle nor a missing dependency among them, sorting returns.
pub sort_modules-returns :
    (rank : String → ℕ) (modules : List Module) (existing : List String)
    → IsSolvable rank existing modules
    → (out : List Module) × (sort_modules modules existing ≡ some out)
unfolding sort_modules
sort_modules-returns rank modules existing solvable =
    sort_loop-returns rank (length modules) (enough modules) modules existing [] refl (omega arith)
      solvable

-- A dependency that is neither known nor a name of a waiting module stays so.
module _ (d : String) where
  abbrev pub IsBlocked : List String → List Module → Type 0
  IsBlocked known queue =
      (includes known d ≡ false)
      × ((m : Module) → In m queue → full_name m ≢ d)
      × (m : Module) × In m queue
      × In d m.dependencies

  not_ready :
      (known : List String) (m : Module)
      → includes known d ≡ false
      → In d m.dependencies
      → is_ready known m ≡ false
  not_ready known m missing dep = elim (Bool-cases (is_ready known m)) [
    | inl e ↦ absurd (cc (missing, includes-In d known (is_ready_lem known m e d dep)))
    | inr e ↦ e
  ]

  sort_loop-spins :
      (fuel : ℕ) (queue : List Module) (known : List String) (sorted : List Module)
      → IsBlocked known queue
      → sort_loop fuel queue known sorted ≡ none
  unfolding sort_loop
  sort_loop-spins zero queue known sorted b = refl
  sort_loop-spins (suc fuel) [] known sorted (missing, others, m, i, dep) = absurd i
  sort_loop-spins (suc fuel) (x ∷ queue) known sorted (missing, others, m, i, dep) =
      elim (Bool-cases (is_ready known x)) [
        | inl e ↦ rw e (
            sort_loop-spins fuel queue (full_name x ∷ known) (sorted ++ x ∷ []) (
              ground (arith, eq_iff (full_name x) d, others x (inl refl)),
              (λ n j. others n (inr j)),
              m,
              waits e i,
              dep,
            ))
        | inr e ↦ rw e (
            sort_loop-spins fuel (queue ++ x ∷ []) known sorted
              (missing, (λ n j. others n (forth n (In-append n queue (x ∷ []) j))), m, back i, dep))
      ]
    where
      waits : is_ready known x ≡ true → In m (x ∷ queue) → In m queue
      waits e (inl q) = absurd (cc (ap (is_ready known) q, not_ready known m missing dep))
      waits e (inr j) = j

      forth : (n : Module) → In n queue ⊎ In n (x ∷ []) → In n (x ∷ queue)
      forth n (inl j) = inr j
      forth n (inr (inl q)) = inl q
      forth n (inr (inr j)) = absurd j

      back : In m (x ∷ queue) → In m (queue ++ x ∷ [])
      back (inl q) = In-append_right m queue (x ∷ []) (inl q)
      back (inr j) = In-append_left m queue (x ∷ []) j

-- If a module has a dependency that is neither installed nor a name of one of the given modules, the
-- loop never ends: no number of rounds is enough.
pub sort_loop_never_returns :
    (d : String) (m : Module) (modules : List Module) (existing : List String)
    → In m modules
    → In d m.dependencies
    → includes existing d ≡ false
    → ((n : Module) → In n modules → full_name n ≢ d)
    → (fuel : ℕ) → sort_loop fuel modules existing [] ≡ none
sort_loop_never_returns d m modules existing i dep missing others fuel =
    sort_loop-spins d fuel modules existing [] (missing, others, m, i, dep)
