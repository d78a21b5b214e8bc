-- ===== src/Selection/Tests.antt =====
-- The selection of modules, of two that depend on each other.
use iasql.Base.{◌≡◌, ◌⊎◌, inl, inr, refl, String, true, some, List, [], ◌∷◌, map}
use iasql.Base.Members.{In}
use iasql.Modules.{Module}
use iasql.Selection.{is_core, modules_directly_affected, get_modules_with_changes}
use iasql.Selection.Closed.{get_modules_with_changes-closed}

abbrev aws_account : Module
aws_account = record {
  name = "aws_account";
  version = "0.0.1";
  dependencies = "iasql_functions@0.0.1" ∷ [];
  tables = "aws_regions" ∷ [];
}

abbrev aws_s3 : Module
aws_s3 = record {
  name = "aws_s3";
  version = "0.0.1";
  dependencies = "aws_account@0.0.1" ∷ [];
  tables = "bucket" ∷ "bucket_object" ∷ [];
}

abbrev installed : List Module
installed = aws_account ∷ aws_s3 ∷ []

abbrev names : List String
names = "aws_account@0.0.1" ∷ "aws_s3@0.0.1" ∷ []

abbrev IsMet : Module → Type 0
IsMet m = (d : String) → In d m.dependencies → In d names ⊎ (is_core "0.0.1" d ≡ true)

account-IsMet : IsMet aws_account
account-IsMet d (inl e) = inr (rw e refl)
account-IsMet d (inr i) = absurd i

s3-IsMet : IsMet aws_s3
s3-IsMet d (inl e) = inl (inl e)
s3-IsMet d (inr i) = absurd i

all-IsMet : (m : Module) → In m installed → IsMet m
all-IsMet m (inl e) = rw e account-IsMet
all-IsMet m (inr (inl e)) = rw e s3-IsMet
all-IsMet m (inr (inr i)) = absurd i

get_modules_with_changes-closed_example :
    get_modules_with_changes installed installed names ("bucket" ∷ []) "0.0.1"
    ≡ map some (modules_directly_affected installed ("bucket" ∷ []))
get_modules_with_changes-closed_example =
    get_modules_with_changes-closed installed installed names ("bucket" ∷ []) "0.0.1" all-IsMet
