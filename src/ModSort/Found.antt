-- ===== src/ModSort/Found.antt =====
-- sortModules (services/mod-sort.ts) on a list that a search by name gave: a module that was not found
-- is `undefined`, and the loop breaks at it.
use iasql.Base.{
  ℕ, zero, suc, ◌+◌, ◌*◌, ◌≡◌, ◌∙◌, ap, refl, String, Option, none, some, List, [], ◌∷◌, ◌++◌, map,
  length, length-map, if◌then◌else◌, Bool-cases, inl, inr,
}
use iasql.Modules.{Module, full_name}
use iasql.ModSort.{is_ready, sort_loop, enough, sort_modules}

unfoldable pub sort_found_loop :
    ℕ → List (Option Module) → List String → List Module → Option (List Module)
sort_found_loop zero module_list sorted_module_names sorted_modules = none
sort_found_loop (suc fuel) [] sorted_module_names sorted_modules = some sorted_modules
sort_found_loop (suc fuel) (none ∷ module_list) sorted_module_names sorted_modules =
    some sorted_modules
sort_found_loop (suc fuel) (some m ∷ module_list) sorted_module_names sorted_modules =
    let emit =
      sort_found_loop fuel module_list (full_name m ∷ sorted_module_names)
        (sorted_modules ++ m ∷ []) in
    let requeue =
      sort_found_loop fuel (module_list ++ some m ∷ []) sorted_module_names sorted_modules in
    if is_ready sorted_module_names m then emit else requeue

unfoldable pub sort_found : List (Option Module) → List String → Option (List Module)
sort_found modules existing_modules =
    sort_found_loop (length modules * length modules + 1) modules existing_modules []

sort_found_loop-map-some :
    (fuel : ℕ) (queue : List Module) (known : List String) (sorted : List Module)
    → sort_found_loop fuel (map some queue) known sorted ≡ sort_loop fuel queue known sorted
unfolding sort_found_loop sort_loop
sort_found_loop-map-some zero queue known sorted = refl
sort_found_loop-map-some (suc fuel) [] known sorted = refl
sort_found_loop-map-some (suc fuel) (m ∷ queue) known sorted =
    elim (Bool-cases (is_ready known m)) [
      | inl e ↦ rw e (sort_found_loop-map-some fuel queue (full_name m ∷ known) (sorted ++ m ∷ []))
      | inr e ↦ rw e (
          ap (λ q. sort_found_loop fuel q known sorted) (map-append-sym queue m)
          ∙ sort_found_loop-map-some fuel (queue ++ m ∷ []) known sorted)
    ]
  where
    map-append-sym :
        (q : List Module) (m : Module) → map some q ++ some m ∷ [] ≡ map some (q ++ m ∷ [])
    map-append-sym [] m = refl
    map-append-sym (x ∷ q) m = ap (λ l. some x ∷ l) (map-append-sym q m)

-- Where every module was found, the two ways to sort agree.
pub sort_found-map-some :
    (modules : List Module) (existing : List String)
    → sort_found (map some modules) existing ≡ sort_modules modules existing
unfolding sort_found sort_modules
sort_found-map-some modules existing =
    ap (λ (n : ℕ). sort_found_loop (n * n + 1) (map some modules) existing [])
      (length-map some modules)
    ∙ sort_found_loop-map-some (enough modules) modules existing []
