-- ===== src/ModSort.antt =====
-- services/mod-sort.ts: `sortModules` puts modules behind what they depend on. The modules wait in a
-- queue; one that is not ready goes back to its end.
pub mod Order
pub mod Progress
pub mod Found
mod Tests
use iasql.Base.{
  ℕ, zero, suc, ◌+◌, ◌*◌, String, Bool, ◌||◌, Option, none, some, List, [], ◌∷◌, ◌++◌, length, beq,
  all, includes, if◌then◌else◌,
}
use iasql.Modules.{Module, full_name}

-- `sortedModuleNames` holds only `true`, so it is the list of its keys.
abbrev pub is_ready : List String → Module → Bool
is_ready sorted_module_names m =
    beq (length m.dependencies) 0 || all (λ dep. includes sorted_module_names dep) m.dependencies

-- The `do` loop, with fuel for its rounds; `none` means that the fuel ran out. On an empty queue
-- both the `break` and the loop's test end it.
unfoldable pub sort_loop : ℕ → List Module → List String → List Module → Option (List Module)
sort_loop zero module_list sorted_module_names sorted_modules = none
sort_loop (suc fuel) [] sorted_module_names sorted_modules = some sorted_modules
sort_loop (suc fuel) (m ∷ module_list) sorted_module_names sorted_modules =
    let emit =
      sort_loop fuel module_list (full_name m ∷ sorted_module_names) (sorted_modules ++ m ∷ []) in
    let requeue = sort_loop fuel (module_list ++ m ∷ []) sorted_module_names sorted_modules in
    if is_ready sorted_module_names m then emit else requeue

-- Each module is emitted after at most one turn of the queue.
abbrev pub enough : List Module → ℕ
enough modules = length modules * length modules + 1

unfoldable pub sort_modules : List Module → List String → Option (List Module)
sort_modules modules existing_modules = sort_loop (enough modules) modules existing_modules []
