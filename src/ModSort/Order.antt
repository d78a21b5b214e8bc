-- ===== src/ModSort/Order.antt =====
-- What `sort_modules` returns: the given modules, each behind its dependencies.
use mathlib.Core.List.{Perm, perm_append_comm}
use mathlib.Core.List.Perm
use iasql.Base.{
  ℕ, zero, suc, ◌≡◌, refl, String, true, some, List, [], ◌∷◌, ◌++◌, length, beq, includes, arith,
  append-nil, append_assoc, Bool-cases, inl, inr,
}
use iasql.Base.Members.{In, In-includes, all-In}
use iasql.Modules.{Module, full_name}
use iasql.ModSort.{is_ready, sort_loop, sort_modules, enough}

-- Every dependency of a module is among the known names or names a module that stands before it.
abbrev pub IsOrdered : List String → List Module → Type 0
IsOrdered known [] = Unit
IsOrdered known (m ∷ ms) =
    ((d : String) → In d m.dependencies → In d known) × IsOrdered (full_name m ∷ known) ms

abbrev names_after : List String → List Module → List String
names_after known [] = known
names_after known (m ∷ ms) = names_after (full_name m ∷ known) ms

names_after-snoc :
    (known : List String) (ms : List Module) (m : Module)
    → names_after known (ms ++ m ∷ []) ≡ full_name m ∷ names_after known ms
names_after-snoc known [] m = refl
names_after-snoc known (x ∷ ms) m = names_after-snoc (full_name x ∷ known) ms m

IsOrdered-snoc :
    (known : List String) (ms : List Module) (m : Module)
    → IsOrdered known ms
    → ((d : String) → In d m.dependencies → In d (names_after known ms))
    → IsOrdered known (ms ++ m ∷ [])
IsOrdered-snoc known [] m h d = (d, tt)
IsOrdered-snoc known (x ∷ ms) m h d = (h.0, IsOrdered-snoc (full_name x ∷ known) ms m h.1 d)

pub is_ready_lem :
    (known : List String) (m : Module)
    → is_ready known m ≡ true
    → (d : String) → In d m.dependencies
    → In d known
is_ready_lem known m h d i = elim (Bool-cases (beq (length m.dependencies) 0)) [
  | inl e ↦ absurd (none_in m.dependencies e i)
  | inr e ↦ In-includes d known (all-In (λ x. includes known x) d m.dependencies (rw e at h) i)
]
  where
    none_in : (ds : List String) → beq (length ds) 0 ≡ true → ¬ In d ds
    none_in [] q k = k
    none_in (x ∷ ds) q k = ground arith

sort_loop-sorts :
    (fuel : ℕ) (queue : List Module) (existing : List String) (sorted out : List Module)
    → IsOrdered existing sorted
    → sort_loop fuel queue (names_after existing sorted) sorted ≡ some out
    → IsOrdered existing out × Perm out (sorted ++ queue)
unfolding sort_loop
sort_loop-sorts zero queue existing sorted out o h = absurd (cc)
sort_loop-sorts (suc fuel) [] existing sorted out o h =
    let e : sorted ≡ out = ground arith in (rw e at o, rw (append-nil, e) (Perm.refl out))
sort_loop-sorts (suc fuel) (m ∷ queue) existing sorted out o h =
    elim (Bool-cases (is_ready (names_after existing sorted) m)) [
      | inl e ↦
          let before = is_ready_lem (names_after existing sorted) m e in
          let (o', p) =
            sort_loop-sorts fuel queue existing (sorted ++ m ∷ []) out
              (IsOrdered-snoc existing sorted m o before) (rw names_after-snoc (rw e at h)) in
          (o', rw append_assoc at p)
      | inr e ↦
          let (o', p) = sort_loop-sorts fuel (queue ++ m ∷ []) existing sorted out o (rw e at h) in
          (o', Perm.trans p (Perm.append_left sorted (perm_append_comm queue (m ∷ []))))
    ]

-- If sorting returns, it returns the given modules, each as often as given, and each behind all of
-- its dependencies that are not installed already.
pub sort_modules-sorts :
    (modules : List Module) (existing : List String) (out : List Module)
    → sort_modules modules existing ≡ some out
    → IsOrdered existing out × Perm out modules
unfolding sort_modules
sort_modules-sorts modules existing out h =
    sort_loop-sorts (enough modules) modules existing [] out tt h
