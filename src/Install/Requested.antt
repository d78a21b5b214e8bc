-- ===== src/Install/Requested.antt =====
-- The names that install and uninstall are given, and the modules that they stand for.
use iasql.Base.{
  ◌≡◌, refl, String, ◌<>◌, ◌==◌, eq_iff, Bool, true, false, not, Option, none, some, List, [], ◌∷◌,
  map, filter, includes, dedupe, if◌then◌else◌,
}
use iasql.Base.Members.{In-find?}
use iasql.Modules.{Module, full_name}
use iasql.Selection.{find_module}

-- /@/.test(m) ? m : `${m}@${version}`; the regular expression's test is a parameter
abbrev pub with_version : (String → Bool) → String → String → String
with_version has_at version m = if has_at m then m else m <> "@" <> version

-- [...new Set(moduleList)], and then the versions
unfoldable pub requested_names : (String → Bool) → String → List String → List String
requested_names has_at version module_list = map (with_version has_at version) (dedupe module_list)

-- The list `mods`, unless a module is undefined; then the names without a module.
unfoldable pub found_modules : List Module → List String → List Module
found_modules all_modules [] = []
found_modules all_modules (n ∷ names) =
    let rest = found_modules all_modules names in
    elim (find_module all_modules n) [ none ↦ rest | some m ↦ m ∷ rest ]

abbrev pub is_defined : Option Module → Bool
is_defined none = false
is_defined (some m) = true

unfoldable pub missing_names : List Module → List String → List String
missing_names all_modules names = filter (λ n. not (is_defined (find_module all_modules n))) names

-- The names of installed modules are pruned from an install, the others from an uninstall.
unfoldable pub prune_installed : List String → List Module → List Module
prune_installed existing mods = filter (λ m. not (includes existing (full_name m))) mods

unfoldable pub keep_installed : List String → List Module → List Module
keep_installed existing mods = filter (λ m. includes existing (full_name m)) mods

pub full_name-find_module :
    (all_modules : List Module) (n : String) (m : Module)
    → find_module all_modules n ≡ some m
    → full_name m ≡ n
unfolding find_module
full_name-find_module all_modules n m h =
    (eq_iff (full_name m) n).0 (In-find? (λ k. full_name k == n) m all_modules h).1

-- Where no name is missing, the modules are found in the order of the names, each under its own name.
pub found_modules-full_name :
    (all_modules : List Module) (names : List String)
    → missing_names all_modules names ≡ []
    → map full_name (found_modules all_modules names) ≡ names
unfolding found_modules missing_names
found_modules-full_name all_modules [] h = refl
found_modules-full_name all_modules (n ∷ names) h =
    by_search (find_module all_modules n) refl (found_modules-full_name all_modules names) h
  where
    by_search :
        (o : Option Module)
        → find_module all_modules n ≡ o
        → (missing_names all_modules names ≡ []
            → map full_name (found_modules all_modules names) ≡ names)
        → (if not (is_defined o)
            then n ∷ missing_names all_modules names
            else missing_names all_modules names)
          ≡ []
        → map full_name (elim o [
          | none ↦ found_modules all_modules names
          | some m ↦ m ∷ found_modules all_modules names
        ])
          ≡ n ∷ names
    by_search none e ih g = absurd (cc)
    by_search (some m) e ih g = rw (full_name-find_module all_modules n m e, ih g) refl
