-- ===== src/ModSort/Tests.antt =====
-- `sort_modules` on three modules of the program, and on one with a dependency that is not there.
use mathlib.Core.List.{Perm}
use iasql.Base.{
  ℕ, ◌≡◌, ◌≢◌, ◌<◌, ◌⊎◌, subst, sym, ap, refl, inl, inr, String, ◌==◌, none, some, List, [], ◌∷◌,
  arith, if◌then◌else◌,
}
use iasql.Base.Members.{In}
use iasql.Modules.{Module, full_name}
use iasql.ModSort.{sort_loop, sort_modules}
use iasql.ModSort.Order.{IsOrdered, sort_modules-sorts}
use iasql.ModSort.Progress.{IsSolvable, sort_modules-returns, sort_loop_never_returns}

abbrev aws_account : Module
aws_account = record {
  name = "aws_account";
  version = "0.0.1";
  dependencies = "iasql_functions@0.0.1" ∷ [];
  tables = [];
}

abbrev aws_vpc : Module
aws_vpc = record {
  name = "aws_vpc";
  version = "0.0.1";
  dependencies = "aws_account@0.0.1" ∷ [];
  tables = [];
}

abbrev iasql_functions : Module
iasql_functions = record {
  name = "iasql_functions";
  version = "0.0.1";
  dependencies = [];
  tables = [];
}

abbrev unsorted : List Module
unsorted = aws_vpc ∷ aws_account ∷ iasql_functions ∷ []

abbrev in_order : List Module
in_order = iasql_functions ∷ aws_account ∷ aws_vpc ∷ []

unsorted_run : sort_modules unsorted [] ≡ some in_order
unfolding sort_modules sort_loop full_name
unsorted_run = refl

sort_modules-sorts_example : IsOrdered [] in_order × Perm in_order unsorted
sort_modules-sorts_example = sort_modules-sorts unsorted [] in_order unsorted_run

abbrev depth : String → ℕ
depth s = if s == "aws_vpc@0.0.1" then 2 else if s == "aws_account@0.0.1" then 1 else 0

abbrev DependsBelow : Module → String → Type 0
DependsBelow m d =
    In d [] ⊎ ((n : Module) × In n unsorted × (full_name n ≡ d) × (depth d < depth (full_name m)))

vpc_below : (d : String) → In d aws_vpc.dependencies → DependsBelow aws_vpc d
unfolding full_name
vpc_below d (inl q) = inr (aws_account, inr (inl refl), rw q, rw q (omega arith))
vpc_below d (inr i) = absurd i

account_below : (d : String) → In d aws_account.dependencies → DependsBelow aws_account d
unfolding full_name
account_below d (inl q) = inr (iasql_functions, inr (inr (inl refl)), rw q, rw q (omega arith))
account_below d (inr i) = absurd i

below :
    (m n : Module) (d : String)
    → m ≡ n
    → ((c : String) → In c n.dependencies → DependsBelow n c)
    → In d m.dependencies
    → DependsBelow m d
below m n d e h i =
    subst (λ k. DependsBelow k d) (sym e) (h d (subst (λ (k : Module). In d k.dependencies) e i))

solvable : IsSolvable depth [] unsorted
solvable m (inl e) d i = below m aws_vpc d e vpc_below i
solvable m (inr (inl e)) d i = below m aws_account d e account_below i
solvable m (inr (inr (inl e))) d i = absurd (subst (λ (k : Module). In d k.dependencies) e i)
solvable m (inr (inr (inr i))) d j = absurd i

sort_modules-returns_example : (out : List Module) × (sort_modules unsorted [] ≡ some out)
sort_modules-returns_example = sort_modules-returns depth unsorted [] solvable

other_name : (n : Module) → In n (aws_vpc ∷ []) → full_name n ≢ "aws_account@0.0.1"
unfolding full_name
other_name n (inl e) q = absurd (cc (ap full_name e, q))
other_name n (inr i) q = i

sort_loop_never_returns_example : sort_loop 1000 (aws_vpc ∷ []) [] [] ≡ none
sort_loop_never_returns_example =
    sort_loop_never_returns "aws_account@0.0.1" aws_vpc (aws_vpc ∷ []) [] (inl refl) (inl refl) refl
      other_name 1000
