-- ===== src/Policy.antt =====
-- Policies in their canonical form (services/canonical-iam-policy.ts) and their comparison
-- (policiesAreSame of services/aws-diff.ts). toLowerCase is a parameter; sort orders by the units of
-- UTF-16.
mod Order
mod Entries
pub mod Normal
mod Tests
use Prim.Native.Char.{Char, code}
use iasql.Base.{
  String, ◌==◌, Bool, true, false, Option, none, some, List, [], ◌∷◌, map, dedupe, beq, ltb, leb,
  ◌&&◌, ◌||◌, if◌then◌else◌,
}
use iasql.Base.Dict.{Dict, from_entries}

-- string | string[]
pub data Texts : Type 0 where
  single : String → Texts
  several : List String → Texts

pub record Principals : Type 0 where
  pub aws : Option Texts
  pub service : Option Texts
  pub federated : Option Texts

-- '*' or the principals
pub data Principal : Type 0 where
  everyone : Principal
  principals : Principals → Principal

-- string | boolean | number, a number by its text
pub data Scalar : Type 0 where
  text : String → Scalar
  flag : Bool → Scalar
  number : String → Scalar

pub data Scalars : Type 0 where
  one : Scalar → Scalars
  many : List Scalar → Scalars

abbrev pub Condition : Type 0
Condition = Dict (Dict Scalars)

pub record Statement : Type 0 where
  pub action : Option Texts
  pub not_action : Option Texts
  pub principal : Option Principal
  pub not_principal : Option Principal
  pub resource : Option Texts
  pub not_resource : Option Texts
  pub condition : Option Condition
  pub effect : String
  pub sid : Option String

pub data Statements : Type 0 where
  lone : Statement → Statements
  list : List Statement → Statements

pub record Policy : Type 0 where
  pub id : Option String
  pub statement : Statements
  pub version : String

-- The character is one unit of UTF-16, above those that begin the pairs of units of the others.
abbrev pub is_high : Char → Bool
is_high c = leb 57344 (code c) && ltb (code c) 65536

-- The order of characters by their units of UTF-16.
abbrev pub char_ltb : Char → Char → Bool
char_ltb c d =
    if is_high c then is_high d && ltb (code c) (code d) else is_high d || ltb (code c) (code d)

-- The order of sort().
unfoldable pub text_leb : String → String → Bool
text_leb String.[] t = true
text_leb (String.◌∷◌ c s) String.[] = false
text_leb (String.◌∷◌ c s) (String.◌∷◌ d t) =
    let rest = text_leb s t in if beq (code c) (code d) then rest else char_ltb c d

unfoldable pub insert_text : String → List String → List String
insert_text x [] = x ∷ []
insert_text x (y ∷ ys) =
    let rest = insert_text x ys in if text_leb x y then x ∷ y ∷ ys else y ∷ rest

-- xs.sort()
unfoldable pub sort_texts : List String → List String
sort_texts [] = []
sort_texts (x ∷ xs) = insert_text x (sort_texts xs)

-- _.toString
abbrev pub scalar_text : Scalar → String
scalar_text (text s) = s
scalar_text (flag true) = "true"
scalar_text (flag false) = "false"
scalar_text (number n) = n

abbrev pub listed_scalars : Scalars → List Scalar
listed_scalars (one s) = s ∷ []
listed_scalars (many ss) = ss

abbrev pub listed_texts : Texts → List String
listed_texts (single s) = s ∷ []
listed_texts (several ss) = ss

-- if (x) x = f(x); the empty text counts as absent
abbrev pub when_set : (Texts → Texts) → Option Texts → Option Texts
when_set f none = none
when_set f (some (single s)) = if s == "" then some (single s) else some (f (single s))
when_set f (some (several ss)) = some (f (several ss))

module _ (to_lower : String → String) where
  unfoldable pub normalize_action : Texts → Texts
  normalize_action action = several (sort_texts (map to_lower (listed_texts action)))

  unfoldable pub normalize_resource : Texts → Texts
  normalize_resource resource = several (sort_texts (listed_texts resource))

  abbrev pub as_array : Texts → Texts
  as_array t = several (listed_texts t)

  unfoldable pub normalize_principal : Principal → Principal
  normalize_principal everyone =
      principals (record { aws = some (several ("*" ∷ [])); service = none; federated = none })
  normalize_principal (principals p) = principals (record {
    aws = when_set as_array p.aws;
    service = when_set as_array p.service;
    federated = when_set as_array p.federated;
  })

  -- _.uniq(_.map(value, _.toString)), as texts again
  abbrev pub normalize_value : Scalars → Scalars
  normalize_value v = many (map text (dedupe (map scalar_text (listed_scalars v))))

  abbrev pub normalize_key : String × Scalars → String × Scalars
  normalize_key (key, value) = (to_lower key, normalize_value value)

  abbrev pub normalize_operator : String × Dict Scalars → String × Dict Scalars
  normalize_operator (operator, key_val) = (operator, from_entries (map normalize_key key_val))

  unfoldable pub normalize_condition : Condition → Condition
  normalize_condition condition = from_entries (map normalize_operator condition)

  abbrev pub on_some : {A : Type 0} → (A → A) → Option A → Option A
  on_some f none = none
  on_some f (some a) = some (f a)

  unfoldable pub normalize_statement : Statement → Statement
  normalize_statement s = record s {
    action = when_set normalize_action s.action;
    not_action = when_set normalize_action s.not_action;
    principal = on_some normalize_principal s.principal;
    not_principal = on_some normalize_principal s.not_principal;
    resource = when_set normalize_resource s.resource;
    not_resource = when_set normalize_resource s.not_resource;
    condition = on_some normalize_condition s.condition;
  }

  abbrev pub listed_statements : Statements → List Statement
  listed_statements (lone s) = s ∷ []
  listed_statements (list ss) = ss

  unfoldable pub normalize_policy : Policy → Policy
  normalize_policy p = record p {
    statement = list (map normalize_statement (listed_statements p.statement));
  }

  -- policiesAreSame, by _.isEqual
  unfoldable pub policies_are_same : (Policy → Policy → Bool) → Option Policy → Option Policy → Bool
  policies_are_same is_equal none none = true
  policies_are_same is_equal none (some q) = false
  policies_are_same is_equal (some p) none = false
  policies_are_same is_equal (some p) (some q) = is_equal (normalize_policy p) (normalize_policy q)
