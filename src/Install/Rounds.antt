-- ===== src/Install/Rounds.antt =====
-- The rounds of the loop of install that attaches missing dependencies: each lists a module more.
use iasql.Base.{
  ℕ, zero, suc, ◌<◌, ◌≤◌, ◌≡◌, ◌∙◌, sym, ap, refl, inl, inr, String, true, false, not, Option, some,
  List, [], ◌∷◌, ◌++◌, map, filter, length, includes, arith, if◌then◌else◌, Option-cases, eq_refl,
  ◌==◌,
}
use iasql.Base.Members.{
  In, In-filter, flat_map-In, In-includes, includes-dedupe, includes-append, In-find?,
}
use iasql.Modules.{Module, full_name}
use iasql.Selection.{is_core, find_module}
use iasql.Install.Requested.{
  found_modules, missing_names, found_modules-full_name, full_name-find_module, is_defined,
}
use iasql.Install.Attach.{
  Attached, attached, type_error, attach_step, is_missing, missing_deps, attach_deps,
}

-- How many of the modules are not listed.
abbrev pub unlisted : List Module → List String → ℕ
unlisted modules names = length (filter (λ m. not (includes names (full_name m))) modules)

-- Listing more names leaves no more modules unlisted.
abbrev IsWider : List String → List String → Type 0
IsWider xs ys = (s : String) → includes xs s ≡ true → includes ys s ≡ true

unlisted-le :
    (modules : List Module) (xs ys : List String)
    → IsWider xs ys
    → unlisted modules ys ≤ unlisted modules xs
unlisted-le [] xs ys w = omega arith
unlisted-le (m ∷ ms) xs ys w = ground (arith, w (full_name m), unlisted-le ms xs ys w)

unlisted-lt :
    (modules : List Module) (xs ys : List String) (m : Module)
    → IsWider xs ys
    → In m modules
    → includes xs (full_name m) ≡ false
    → includes ys (full_name m) ≡ true
    → unlisted modules ys < unlisted modules xs
unlisted-lt [] xs ys m w i a b = absurd i
unlisted-lt (n ∷ ns) xs ys m w (inl e) a b =
    ground (arith, e, a, b, ap full_name e, unlisted-le ns xs ys w)
unlisted-lt (n ∷ ns) xs ys m w (inr i) a b =
    ground (arith, a, b, w (full_name n), unlisted-lt ns xs ys m w i a b)

module _ (all_modules : List Module) (version : String) (existing : List String) where
  missing_deps-unlisted :
      (mods : List Module) (module_list : List String) (d : String)
      → includes (missing_deps all_modules version existing mods module_list) d ≡ true
      → includes module_list d ≡ false
  unfolding missing_deps
  missing_deps-unlisted mods module_list d h =
      let i = In-includes d _ (sym (includes-dedupe _ d) ∙ h) in
      let (m, _, j) =
        flat_map-In
          (λ (m : Module).
            filter (is_missing all_modules version existing module_list) m.dependencies)
          d mods (In-filter (λ e. not (is_core version e)) d _ i).0 in
      ground (
        arith,
        (In-filter (is_missing all_modules version existing module_list) d m.dependencies j).1,
      )

  first_found :
      (d : String) (ds : List String)
      → missing_names all_modules (d ∷ ds) ≡ []
      → (m : Module) × (find_module all_modules d ≡ some m)
  unfolding missing_names
  first_found d ds h = elim (Option-cases (find_module all_modules d)) [
    | inl e ↦ absurd (nonempty (sym (ap kept e) ∙ h))
    | inr f ↦ f
  ]
    where
      kept : Option Module → List String
      kept o =
          if not (is_defined o)
          then d ∷ missing_names all_modules ds
          else missing_names all_modules ds

      nonempty : Path (List String) (d ∷ missing_names all_modules ds) [] → ⊥
      nonempty q = absurd (cc (q))

  -- A round that attaches modules leaves fewer unlisted.
  attach-unlisted :
      (mods : List Module) (module_list : List String) (d : String) (ds : List String)
      → missing_deps all_modules version existing mods module_list ≡ d ∷ ds
      → missing_names all_modules (d ∷ ds) ≡ []
      → unlisted all_modules (module_list ++ map full_name (found_modules all_modules (d ∷ ds)))
        < unlisted all_modules module_list
  unfolding find_module
  attach-unlisted mods module_list d ds e found =
      rw (found_modules-full_name all_modules (d ∷ ds) found) (
        let (m, f) = first_found d ds found in
        let named = full_name-find_module all_modules d m f in
        unlisted-lt all_modules module_list (module_list ++ d ∷ ds) m
          (λ s h. ground (arith, includes-append module_list (d ∷ ds) s, h)) (found_in m d f)
          (ap (includes module_list) named
            ∙ missing_deps-unlisted mods module_list d
                (ap (λ xs. includes xs d) e ∙ ground (arith, eq_refl d)))
          (ap (includes (module_list ++ d ∷ ds)) named
            ∙ ground (arith, includes-append module_list (d ∷ ds) d, eq_refl d)))
    where
      found_in : (m : Module) (d : String) → find_module all_modules d ≡ some m → In m all_modules
      found_in m d f = (In-find? (λ k. full_name k == d) m all_modules f).0

  -- With fuel for more rounds than modules that are not listed, the loop ends.
  pub attach_deps-ends :
      (fuel : ℕ) (mods : List Module) (module_list : List String)
      → unlisted all_modules module_list < fuel
      → (a : Attached) × (attach_deps all_modules version existing fuel mods module_list ≡ some a)
  unfolding attach_deps
  attach_deps-ends zero mods module_list h = absurd (omega (arith, h))
  attach_deps-ends (suc fuel) mods module_list h =
      by_missing (missing_deps all_modules version existing mods module_list)
        (missing_names all_modules (missing_deps all_modules version existing mods module_list))
        refl refl (attach_deps-ends fuel _ _)
    where
      by_missing :
          (ds ns : List String)
          → missing_deps all_modules version existing mods module_list ≡ ds
          → missing_names all_modules ds ≡ ns
          → (unlisted all_modules (module_list ++ map full_name (found_modules all_modules ds))
                < fuel
              → (a : Attached) × (attach_deps all_modules version existing fuel
                    (mods ++ found_modules all_modules ds)
                    (module_list ++ map full_name (found_modules all_modules ds))
                  ≡ some a))
          → (a : Attached) × (attach_step ds ns (attached mods module_list) (
                attach_deps all_modules version existing fuel
                  (mods ++ found_modules all_modules ds)
                  (module_list ++ map full_name (found_modules all_modules ds)))
              ≡ some a)
      by_missing [] ns e f ih = (attached mods module_list, refl)
      by_missing (d ∷ ds) [] e f ih =
          ih (omega (arith, h, attach-unlisted mods module_list d ds e f))
      by_missing (d ∷ ds) (n ∷ ns) e f ih = (type_error, refl)
