-- ===== src/Rpc/Contexts.antt =====
-- getContext (router/db.ts): the context of an RPC, from what the installed modules provide. What a
-- value is, whether it is a function, and cloneDeep of lodash are parameters.
use iasql.Base.{
  ◌≡◌, sym, ◌∙◌, String, Bool, false, ◌||◌, Option, none, some, List, [], ◌∷◌, any, if◌then◌else◌,
  arith,
}
use iasql.Base.Dict.{Dict, set, has, has-set}
use iasql.Modules.{Module}
use iasql.Selection.{find_module}

module _ {C : Type 0} (is_function : C → Bool) (clone_deep : C → C)
    (context_of : Module → Dict C) where
  abbrev pub copied : C → C
  copied v = if is_function v then v else clone_deep v

  -- The keys of a module's context, onto the context.
  unfoldable pub provide_onto : Dict C → Dict C → Dict C
  provide_onto context [] = context
  provide_onto context ((k, v) ∷ d) = provide_onto (set context k (copied v)) d

  abbrev pub then_provide : (Module → Option (Dict C)) → Option Module → Option (Dict C)
  then_provide next none = none
  then_provide next (some m) = next m

  -- getContext, from the context with the connection and the empty memo; `none` is the error for a name
  -- without a module.
  unfoldable pub get_context : List Module → List String → Dict C → Option (Dict C)
  get_context all_modules [] context = some context
  get_context all_modules (n ∷ names) context =
      then_provide (λ m. get_context all_modules names (provide_onto context (context_of m)))
        (find_module all_modules n)

  has-provide_onto :
      (context d : Dict C) (k : String)
      → has (provide_onto context d) k ≡ (has context k || has d k)
  unfolding provide_onto has
  has-provide_onto context [] k = ground arith
  has-provide_onto context ((j, v) ∷ d) k =
      ground
        (arith, has-provide_onto (set context j (copied v)) d k, has-set context j k (copied v))

  abbrev provides_of : String → Option Module → Bool
  provides_of k none = false
  provides_of k (some m) = has (context_of m) k

  -- The context has the keys that it began with and those that an installed module provides, and no other.
  pub has-get_context :
      (all_modules : List Module) (names : List String) (context r : Dict C) (k : String)
      → get_context all_modules names context ≡ some r
      → has r k ≡ (has context k || any (λ n. provides_of k (find_module all_modules n)) names)
  unfolding get_context
  has-get_context all_modules [] context r k h =
      let same : context ≡ r = cc in rw (sym same) (ground arith)
  has-get_context all_modules (n ∷ names) context r k h =
      by_module (find_module all_modules n) h
        (λ m g. has-get_context all_modules names (provide_onto context (context_of m)) r k g)
    where
      rest : Bool
      rest = any (λ n. provides_of k (find_module all_modules n)) names

      by_module :
          (o : Option Module)
          → then_provide
              (λ m. get_context all_modules names (provide_onto context (context_of m)))
              o
            ≡ some r
          → ((m : Module)
              → get_context all_modules names (provide_onto context (context_of m)) ≡ some r
              → has r k ≡ (has (provide_onto context (context_of m)) k || rest))
          → has r k ≡ (has context k || (provides_of k o || rest))
      by_module none h ih = absurd (cc (h))
      by_module (some m) h ih = ih m h ∙ ground (arith, has-provide_onto context (context_of m) k)
