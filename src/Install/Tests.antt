-- ===== src/Install/Tests.antt =====
-- An install of a module with a dependency, and a refused uninstall.
use iasql.Base.{◌≡◌, inl, inr, refl, String, false, some, List, [], ◌∷◌, includes}
use iasql.Modules.{Module, full_name}
use iasql.Selection.{find_module}
use iasql.Install.Requested.{found_modules, missing_names}
use iasql.Install.Attach.{attached, attach_deps, missing_deps}
use iasql.Install.Removal.{
  check_defined, first_dependent, refuses_uninstall, refuses_uninstall-none,
}

abbrev aws_account : Module
aws_account = record {
  name = "aws_account";
  version = "0.0.1";
  dependencies = "iasql_functions@0.0.1" ∷ [];
  tables = "aws_regions" ∷ [];
}

abbrev aws_s3 : Module
aws_s3 = record {
  name = "aws_s3";
  version = "0.0.1";
  dependencies = "aws_account@0.0.1" ∷ [];
  tables = "bucket" ∷ [];
}

abbrev everything : List Module
everything = aws_account ∷ aws_s3 ∷ []

abbrev both_names : List String
both_names = "aws_s3@0.0.1" ∷ "aws_account@0.0.1" ∷ []

attach_run :
    attach_deps everything "0.0.1" [] 3 (aws_s3 ∷ []) ("aws_s3@0.0.1" ∷ [])
    ≡ some (attached (aws_s3 ∷ aws_account ∷ []) both_names)
unfolding attach_deps missing_deps found_modules missing_names find_module full_name
attach_run = refl

abbrev engine_and_both : List String
engine_and_both = "iasql_functions@0.0.1" ∷ both_names

abbrev iasql_functions : Module
iasql_functions = record {
  name = "iasql_functions";
  version = "0.0.1";
  dependencies = [];
  tables = [];
}

refuses_uninstall-none_example : includes ("aws_s3@0.0.1" ∷ []) "iasql_functions@0.0.1" ≡ false
unfolding refuses_uninstall check_defined first_dependent find_module full_name
refuses_uninstall-none_example =
    refuses_uninstall-none (iasql_functions ∷ everything) engine_and_both ("aws_s3@0.0.1" ∷ [])
      "aws_account@0.0.1" aws_account "iasql_functions@0.0.1" refl (inr (inr (inl refl))) refl refl
      (inl refl)
