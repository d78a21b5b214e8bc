-- ===== src/LazyDep/Tests.antt =====
-- `lazy_loader` on operations that count: `second` needs what `first` has done, `never` always fails.
use iasql.Base.{
  ℕ, ◌+◌, ◌*◌, ◌≤◌, ◌≡◌, ◌≢◌, refl, String, none, some, List, [], ◌∷◌, length, beq, if◌then◌else◌,
}
use iasql.LazyDep.{Generator, Outcome, loaded, halted, run_round, load_loop, lazy_loader}
use iasql.LazyDep.Loop.{lazy_loader_total}
use iasql.LazyDep.Completion.{
  Runs, AllFail, lazy_loader-Loaded, lazy_loader-halted, lazy_loader-failures_le,
}

abbrev first : Generator ℕ String
first s = (s + 1, none)

abbrev second : Generator ℕ String
second s = if beq s 0 then (s, some "nothing there") else (s + 10, none)

abbrev never : Generator ℕ String
never s = (s, some "refused")

abbrev both : List (Generator ℕ String)
both = second ∷ first ∷ []

abbrev thrown : List String
thrown = "refused" ∷ "nothing there" ∷ "refused" ∷ "refused" ∷ []

abbrev hopeless : List (Generator ℕ String)
hopeless = never ∷ second ∷ first ∷ []

both_run : lazy_loader both 0 ≡ some (11, loaded)
unfolding lazy_loader load_loop run_round
both_run = refl

hopeless_run : lazy_loader hopeless 0 ≡ some (11, halted (never ∷ []) thrown)
unfolding lazy_loader load_loop run_round
hopeless_run = refl

lazy_loader_total_example : (r : ℕ × Outcome ℕ String) × (lazy_loader hopeless 0 ≡ some r)
lazy_loader_total_example = lazy_loader_total hopeless 0

lazy_loader-Loaded_example : Runs both 0 [] 11
lazy_loader-Loaded_example = lazy_loader-Loaded both 0 11 both_run

lazy_loader-halted_example :
    (u : ℕ) × Runs hopeless 0 (never ∷ []) u × (never ∷ [] ≢ []) × AllFail (never ∷ []) u 11
lazy_loader-halted_example = lazy_loader-halted hopeless 0 11 (never ∷ []) thrown hopeless_run

lazy_loader-failures_le_example : 2 * length thrown ≤ length hopeless * (length hopeless + 1)
lazy_loader-failures_le_example =
    lazy_loader-failures_le hopeless 0 11 (never ∷ []) thrown hopeless_run
