-- ===== src/Install/Attach.antt =====
-- The dependencies that install attaches, and the collisions of tables that it looks for.
use iasql.Base.{
  ℕ, zero, suc, ◌≡◌, ◌⊎◌, inl, inr, refl, String, Bool, true, false, not, ◌&&◌, Option, none, some,
  List, [], ◌∷◌, ◌++◌, map, filter, any, includes, dedupe, flat_map, Bool-cases,
}
use iasql.Base.Members.{In, filter-In, In-flat_map, includes-In, includes-dedupe}
use iasql.Base.Dict.{Dict, set}
use iasql.Modules.{Module, full_name}
use iasql.Selection.{is_core}
use iasql.Install.Requested.{found_modules, missing_names}

-- `mods` and `moduleList` after the loop, or the TypeError where a dependency has no module.
pub data Attached : Type 0 where
  attached : List Module → List String → Attached
  type_error : Attached

-- One turn of the loop: without missing dependencies it ends, and a missing one that has no module
-- throws at `mod.name`.
abbrev pub attach_step :
    (missing unknown : List String) → Attached → Option Attached → Option Attached
attach_step [] unknown now again = some now
attach_step (d ∷ ds) [] now again = again
attach_step (d ∷ ds) (n ∷ ns) now again = some type_error

module _ (all_modules : List Module) (version : String) (existing : List String) where
  abbrev pub is_missing : List String → String → Bool
  is_missing module_list d = not (includes module_list d) && not (includes existing d)

  unfoldable pub missing_deps : List Module → List String → List String
  missing_deps mods module_list = dedupe (
      filter (λ d. not (is_core version d))
        (flat_map (λ (m : Module). filter (is_missing module_list) m.dependencies) mods))

  -- The `do` loop, with fuel for its rounds.
  unfoldable pub attach_deps : ℕ → List Module → List String → Option Attached
  attach_deps zero mods module_list = none
  attach_deps (suc fuel) mods module_list =
      let missing = missing_deps mods module_list in
      let extra = found_modules all_modules missing in
      let again = attach_deps fuel (mods ++ extra) (module_list ++ map full_name extra) in
      attach_step missing (missing_names all_modules missing) (attached mods module_list) again

  -- Every dependency is in the list, installed, or part of the engine.
  abbrev pub IsClosed : List Module → List String → Type 0
  IsClosed mods module_list =
      (m : Module)
      → In m mods
      → (d : String) → In d m.dependencies
      → (includes module_list d ≡ true) ⊎ (includes existing d ≡ true) ⊎ (is_core version d ≡ true)

  missing_deps-IsClosed :
      (mods : List Module) (module_list : List String)
      → missing_deps mods module_list ≡ []
      → IsClosed mods module_list
  unfolding missing_deps
  missing_deps-IsClosed mods module_list h m i d dep =
      by_tests (Bool-cases (includes module_list d)) (Bool-cases (includes existing d))
        (Bool-cases (is_core version d))
    where
      nothing_in : (c : String) → includes [] c ≡ false
      nothing_in c = refl

      by_tests :
          (includes module_list d ≡ true) ⊎ (includes module_list d ≡ false)
          → (includes existing d ≡ true) ⊎ (includes existing d ≡ false)
          → (is_core version d ≡ true) ⊎ (is_core version d ≡ false)
          → (includes module_list d ≡ true)
            ⊎ (includes existing d ≡ true)
            ⊎ (is_core version d ≡ true)
      by_tests (inl a) b c = inl a
      by_tests (inr a) (inl b) c = inr (inl b)
      by_tests (inr a) (inr b) (inl c) = inr (inr c)
      by_tests (inr a) (inr b) (inr c) =
          let kept : In d (filter (is_missing module_list) m.dependencies) =
            filter-In (is_missing module_list) d m.dependencies dep (rw (a, b) refl) in
          let all_deps : In d
              (flat_map (λ (n : Module). filter (is_missing module_list) n.dependencies) mods) =
            In-flat_map (λ (n : Module). filter (is_missing module_list) n.dependencies) m d mods i
              kept in
          let listed =
            includes-In d _ (filter-In (λ e. not (is_core version e)) d _ all_deps (rw c refl)) in
          absurd (
            cc (
              h,
              includes-dedupe
                  (filter (λ e. not (is_core version e))
                    (flat_map (λ (n : Module). filter (is_missing module_list) n.dependencies)
                      mods))
                  d,
              listed,
              nothing_in d,
            ))

  -- What the loop attaches is closed: each dependency of a module to install is to be installed too,
  -- is installed already, or is part of the engine.
  pub attach_deps-IsClosed :
      (fuel : ℕ) (mods : List Module) (module_list : List String) (ms : List Module)
      (names : List String)
      → attach_deps fuel mods module_list ≡ some (attached ms names)
      → IsClosed ms names
  unfolding attach_deps
  attach_deps-IsClosed zero mods module_list ms names h = absurd (cc)
  attach_deps-IsClosed (suc fuel) mods module_list ms names h =
      by_missing (missing_deps mods module_list)
        (missing_names all_modules (missing_deps mods module_list)) _ refl
        (attach_deps-IsClosed fuel
          (mods ++ found_modules all_modules (missing_deps mods module_list))
          (module_list ++ map full_name (found_modules all_modules (missing_deps mods module_list)))
          ms names)
        h
    where
      by_missing :
          (ds ns : List String) (again : Option Attached)
          → missing_deps mods module_list ≡ ds
          → (again ≡ some (attached ms names) → IsClosed ms names)
          → attach_step ds ns (attached mods module_list) again ≡ some (attached ms names)
          → IsClosed ms names
      by_missing [] ns again e ih g =
          let same : (mods ≡ ms) × (module_list ≡ names) = (cc, cc) in
          rw (same.0, same.1) at (missing_deps-IsClosed mods module_list e)
      by_missing (d ∷ ds) [] again e ih g = ih g
      by_missing (d ∷ ds) (n ∷ ns) again e ih g = absurd (cc)

-- The tables of each module that exist already, by the module's name.
abbrev pub collisions_onto : List String → Dict (List String) → List Module → Dict (List String)
collisions_onto tables found [] = found
collisions_onto tables found (m ∷ ms) =
    collisions_onto tables (set found m.name (filter (λ t. includes tables t) m.tables)) ms

unfoldable pub table_collisions_of : List String → List Module → Dict (List String)
table_collisions_of tables mods = collisions_onto tables [] mods

unfoldable pub has_collision : List String → List Module → Bool
has_collision tables mods = any (λ m. any (λ t. includes tables t) m.tables) mods
