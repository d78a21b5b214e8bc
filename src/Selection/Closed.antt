-- ===== src/Selection/Closed.antt =====
-- What the selection of modules finds.
use iasql.Base.{
  ◌≡◌, ◌⊎◌, ◌↔◌, ◌∙◌, ap, inl, inr, refl, String, ◌==◌, Bool, true, false, not, Option, none, some,
  List, [], ◌∷◌, ◌++◌, map, filter, any, includes, dedupe, flat_map, if◌then◌else◌, arith,
  append-nil, Bool-cases,
}
use iasql.Base.Members.{
  In, In-filter, filter-In, flat_map-In, In-any, any-In, In-includes, includes-In,
}
use iasql.Base.Dict.{Dict, get, set, get-set}
use iasql.Modules.{Module, full_name}
use iasql.Selection.{
  is_core, modules_directly_affected, affected_deps_names, get_modules_with_changes, find_module,
  index_tables, index_onto, index_mods_by_table, Listed, listed, listed_name, modules,
  installed_modules,
}

-- A module is directly affected exactly when it is installed and one of its tables changed.
pub modules_directly_affected_lem :
    (installed : List Module) (tables : List String) (m : Module)
    → In m (modules_directly_affected installed tables)
      ↔ (In m installed × (t : String) × In t m.tables × In t tables)
unfolding modules_directly_affected
modules_directly_affected_lem installed tables m = (
  λ i.
      let (j, e) = In-filter (λ n. any (λ t. includes tables t) n.tables) m installed i in
      let (t, k, q) = In-any (λ t. includes tables t) m.tables e in
      (j, t, k, In-includes t tables q),
  λ h.
      filter-In (λ n. any (λ t. includes tables t) n.tables) m installed h.0
        (any-In (λ t. includes tables t) h.1 m.tables h.2 (includes-In h.1 tables h.3)),
)

no_members : (xs : List String) → ((x : String) → ¬ In x xs) → xs ≡ []
no_members [] h = refl
no_members (x ∷ xs) h = absurd (h x (inl refl))

not-true : (b : Bool) → not b ≡ true → b ≡ false
not-true b h = ground arith

-- Where each dependency of an installed module is installed or belongs to the engine, a commit works
-- on the directly affected modules alone, and each of them is defined.
pub get_modules_with_changes-closed :
    (imported installed : List Module) (names tables : List String) (version : String)
    → ((m : Module)
        → In m installed
        → (d : String) → In d m.dependencies
        → In d names ⊎ (is_core version d ≡ true))
    → get_modules_with_changes imported installed names tables version
      ≡ map some (modules_directly_affected installed tables)
unfolding get_modules_with_changes affected_deps_names
get_modules_with_changes-closed imported installed names tables version closed =
    ap
      (λ l.
        map some (modules_directly_affected installed tables)
        ++ map (find_module imported) (dedupe l))
      nothing
    ∙ append-nil (map some (modules_directly_affected installed tables))
  where
    missing : Module → List String
    missing m = filter (λ d. not (includes names d)) m.dependencies

    nothing :
        filter
          (λ n. not (is_core version n))
          (flat_map missing (modules_directly_affected installed tables))
        ≡ []
    nothing = no_members _ λ d i.
        let (j, outside) =
          In-filter (λ n. not (is_core version n)) d
            (flat_map missing (modules_directly_affected installed tables)) i in
        let (m, k, l) = flat_map-In missing d (modules_directly_affected installed tables) j in
        let (dep, away) = In-filter (λ c. not (includes names c)) d m.dependencies l in
        elim (closed m ((modules_directly_affected_lem installed tables m).0 k).0 d dep) [
          | inl known ↦ absurd (cc (includes-In d names known, not-true (includes names d) away))
          | inr core ↦ absurd (cc (core, not-true (is_core version d) outside))
        ]

-- The last module that provides the table.
abbrev pub provider_onto : String → Option Module → List Module → Option Module
provider_onto t found [] = found
provider_onto t found (m ∷ ms) = provider_onto t (if includes m.tables t then some m else found) ms

get-index_tables :
    (m : Module) (ts : List String) (d : Dict Module) (t : String)
    → get (index_tables m ts d) t ≡ (if includes ts t then some m else get d t)
get-index_tables m [] d t = refl
get-index_tables m (s ∷ ts) d t =
    ground (arith, get-index_tables m ts (set d s m) t, get-set d s t m)

get-index_onto :
    (d : Dict Module) (ms : List Module) (t : String)
    → get (index_onto d ms) t ≡ provider_onto t (get d t) ms
get-index_onto d [] t = refl
get-index_onto d (m ∷ ms) t =
    get-index_onto (index_tables m m.tables d) ms t
    ∙ ap (λ o. provider_onto t o ms) (get-index_tables m m.tables d t)

-- The index finds for each table the last module that provides it, and nothing for other tables.
pub index_mods_by_table-last :
    (mods : List Module) (t : String) → get (index_mods_by_table mods) t ≡ provider_onto t none mods
unfolding index_mods_by_table get
index_mods_by_table-last mods t = get-index_onto [] mods t

filter-map :
    (p : Listed → Bool) (q : Module → Bool) (ms : List Module)
    → ((m : Module) → p (listed m) ≡ q m)
    → filter p (map listed ms) ≡ map listed (filter q ms)
filter-map p q [] h = refl
filter-map p q (m ∷ ms) h = elim (Bool-cases (q m)) [
  | inl e ↦ rw (h m, e) (ap (λ l. listed m ∷ l) (filter-map p q ms h))
  | inr e ↦ rw (h m, e) (filter-map p q ms h)
]

-- The list of the installed modules shows exactly what `installed_modules` finds, in the same order.
pub modules-installed :
    (all_modules : List Module) (names : List String) (db_id : String)
    → (db_id == "") ≡ false
    → modules all_modules names false true db_id
      ≡ some (map listed (installed_modules all_modules names))
unfolding modules installed_modules full_name
modules-installed all_modules names db_id h = rw h (
    ap some (
      filter-map (λ l. includes names (listed_name l)) (λ m. includes names (full_name m))
        all_modules (λ m. refl)))
