-- ===== src/Install/Removal.antt =====
-- The checks of uninstall: no module that stays depends on one that goes.
use iasql.Base.{
  ◌==◌, ◌≡◌, inl, inr, refl, String, Bool, false, not, Option, none, some, List, [], ◌∷◌, filter,
  any, find?, includes, Bool-cases,
}
use iasql.Base.Members.{In, find?-none, filter-In, any-In}
use mathlib.Core.List.{reverse}
use mathlib.Core.Option
use iasql.ModSort.{sort_modules}
use iasql.Modules.{Module, full_name}
use iasql.Selection.{find_module}
use iasql.Install.{Problem, not_defined, still_needed_by}

module _ (all_modules : List Module) (installed : List String) where
  -- The first of the dependencies that is not installed.
  abbrev pub undefined_dep : Module → Option String
  undefined_dep m = find? (λ d. not (includes installed d)) m.dependencies

  -- The first loop over `leftoverModules`: each has a module, and its dependencies are installed.
  unfoldable pub check_defined : List String → Option Problem
  check_defined [] = none
  check_defined (n ∷ leftover) =
      let rest = check_defined leftover in
      elim (find_module all_modules n) [
        | none ↦ some (not_defined n)
        | some m ↦ elim (undefined_dep m) [ none ↦ rest | some d ↦ some (not_defined d) ]
      ]

  abbrev pub depends_on : List String → Option Module → Bool
  depends_on to_uninstall none = false
  depends_on to_uninstall (some m) = any (λ d. includes to_uninstall d) m.dependencies

  -- The second loop: the first module that stays and depends on one that goes.
  unfoldable pub first_dependent : List String → List String → Option String
  first_dependent to_uninstall leftover =
      find? (λ n. depends_on to_uninstall (find_module all_modules n)) leftover

  abbrev pub leftover_modules : List String → List String
  leftover_modules to_uninstall = filter (λ n. not (includes to_uninstall n)) installed

  abbrev pub check_dependent : Option String → Option Problem
  check_dependent none = none
  check_dependent (some n) = some (still_needed_by n)

  unfoldable pub refuses_uninstall : List String → Option Problem
  refuses_uninstall to_uninstall = elim (check_defined (leftover_modules to_uninstall)) [
    | some p ↦ some p
    | none ↦ check_dependent (first_dependent to_uninstall (leftover_modules to_uninstall))
  ]

  -- If uninstall goes ahead, no installed module that stays depends on a module that goes.
  pub refuses_uninstall-none :
      (to_uninstall : List String) (n : String) (m : Module) (d : String)
      → refuses_uninstall to_uninstall ≡ none
      → In n installed
      → includes to_uninstall n ≡ false
      → find_module all_modules n ≡ some m
      → In d m.dependencies
      → includes to_uninstall d ≡ false
  unfolding refuses_uninstall
  refuses_uninstall-none to_uninstall n m d h i stays found dep =
      checked (check_defined (leftover_modules to_uninstall)) h
    where
      clear :
          (o : Option String)
          → first_dependent to_uninstall (leftover_modules to_uninstall) ≡ o
          → check_dependent o ≡ none
          → includes to_uninstall d ≡ false
      clear (some x) e g = absurd (cc)
      clear none e g =
          let none_depends =
            find?-none (λ k. depends_on to_uninstall (find_module all_modules k)) n
              (leftover_modules to_uninstall) (unfold first_dependent in e)
              (filter-In (λ k. not (includes to_uninstall k)) n installed i (rw stays refl)) in
          elim (Bool-cases (includes to_uninstall d)) [
            | inl goes ↦ absurd (
                cc (
                  rw found at none_depends,
                  any-In (λ c. includes to_uninstall c) d m.dependencies dep goes,
                ))
            | inr kept ↦ kept
          ]

      checked :
          (o : Option Problem)
          → (elim o [
            | some p ↦ some p
            | none ↦ check_dependent (first_dependent to_uninstall (leftover_modules to_uninstall))
          ])
            ≡ none
          → includes to_uninstall d ≡ false
      checked (some p) g = absurd (cc)
      checked none g = clear _ refl g

-- remainingModules, and the modules to remove in the order in which their removal runs; `none` if
-- sorting them does not end.
unfoldable pub remaining_modules : List String → List Module → List String
remaining_modules existing mods = filter (λ n. not (any (λ m. full_name m == n) mods)) existing

unfoldable pub leaf_to_root_order : List String → List Module → Option (List Module)
leaf_to_root_order existing mods =
    Option.map reverse (sort_modules mods (remaining_modules existing mods))
