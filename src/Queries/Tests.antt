-- ===== src/Queries/Tests.antt =====
-- Two tables: instances, each in a subnet; a subnet is found in the cloud by its id.
use Prim.Native.String.append
use iasql.Base.{
  ℕ, ◌<◌, ◌≡◌, ◌↔◌, ◌∙◌, refl, sym, subst, inl, inr, String, ◌<>◌, ◌==◌, eq_iff, Bool, true, false,
  Option, none, some, List, [], ◌∷◌, any, filter, length, if◌then◌else◌, arith, Bool-cases,
}
use iasql.Base.Dict.{get}
use iasql.Json.{null, num, str, arr, obj, cons, nil, field, end}
use iasql.Base.Members.{In}
use iasql.AuditLog.{AuditLog, ChangeType, insert, update, start_commit}
use iasql.Queries.{
  Piece, words, ident, plain, literal, Argument, name, sql, value_of, AugmentedValue, is_kept,
  query_parts, insert_template, insert_arguments, format_value,
}
use iasql.Queries.Text.{
  stringify, stringify_items, stringify_fields, quoted_rest, replace_json_casts, replace_from,
  starts_with,
}
use iasql.Queries.Metadata.{
  ColumnMetadata, EntityMetadata, Schema, get_table_metadata, ColumnRelation, aws_resolve_columns,
}
use iasql.Queries.Augment.{augment_value}
use iasql.Queries.Values.{plain_value, sub_query_template, sub_query_arguments}
use iasql.Queries.Recreate.{queries_of_logs}
use iasql.Queries.Arguments.{fits, query_parts-fits}
use iasql.Queries.SubQuery.{sub_query-fits_iff, augment_value-unsupported}
use iasql.Queries.Depth.{augment_value-ends}
use iasql.Queries.Ranks.{IsSome, IsRanked, asked_columns}
use iasql.Queries.Results.{is_row_change, IsFilled, queries_of_logs-length}

-- A formatter for the examples: the pieces, and each argument in its place.
abbrev argument_text : Argument → String
argument_text (name n) = n
argument_text (sql s) = s
argument_text (value_of (str s)) = "'" <> s <> "'"
argument_text (value_of (num n)) = n
argument_text (value_of v) = "NULL"

abbrev formatter : List Piece → List Argument → String
formatter [] as_ = ""
formatter (words w ∷ ps) as_ = w <> formatter ps as_
formatter (p ∷ ps) [] = formatter ps []
formatter (p ∷ ps) (a ∷ as_) = argument_text a <> formatter ps as_

stringifies :
    stringify (arr (cons (str "a\"b") (cons (obj (field "n" (num "1") end)) nil)))
    ≡ "[\"a\\\"b\",{\"n\":1}]"
unfolding stringify stringify_items stringify_fields quoted_rest
stringifies = refl

replaces :
    replace_json_casts "'{}'::json, '[]'::jsonb, 'x'::simple-json"
    ≡ "'{}'::jsonb, '[]'::jsonb, 'x'::jsonb"
unfolding replace_json_casts replace_from starts_with
replaces = refl

abbrev pub column : String → String → Option ColumnRelation → ColumnMetadata
column db property relation = record {
  database_name = db;
  property_name = property;
  type = some "text";
  is_primary = false;
  is_generated = false;
  is_array = false;
  referenced_column = some (record { database_name = "id"; property_name = "id" });
  relation_metadata = relation;
}

abbrev pub subnets : EntityMetadata
subnets = record {
  name = "Subnet";
  target_name = "Subnet";
  table_name = "subnet";
  own_columns = column "subnet_id" "subnetId" none ∷ [];
  own_relations = [];
  relations = [];
}

abbrev pub instances : EntityMetadata
instances = record {
  name = "Instance";
  target_name = "Instance";
  table_name = "instance";
  own_columns =
      column "ami" "ami" none
      ∷ column "subnet_id" "subnet"
          (some (record { entity = "Instance"; inverse_entity = "Subnet" }))
      ∷ [];
  own_relations = [];
  relations = [];
}

abbrev pub schema : Schema
schema = record {
  mapped = λ t. some (instances ∷ []);
  entity = λ n. if n == "Subnet" then some subnets else none;
  cloud_columns = λ m. if m.table_name == "subnet" then some ("subnetId" ∷ []) else none;
  resolve_support = ("Instance", "ami" ∷ []) ∷ [];
  find_one = λ t k v. some (("subnetId", str "subnet-1") ∷ []);
  find_related_one = λ t row. null;
  find_related = λ t row. null;
  snake_case = λ s. if s == "subnetId" then "subnet_id" else s;
  camel_case = λ s. s;
}

-- The query for the subnet of an instance.
subnet_query :
    augment_value schema formatter [] 2 true "instance" "subnet_id" (num "7")
    ≡ some
        (record (plain_value "subnet_id"
          (str "(SELECT id FROM subnet WHERE subnet_id = 'subnet-1')")) {
            type = some "text";
            is_sub_query = true;
          })
unfolding augment_value get_table_metadata get sub_query_template sub_query_arguments format_value
    aws_resolve_columns
subnet_query = refl

-- The rank of a column: 1 where it refers to another table.
abbrev rank : String → String → ℕ
rank table key = if "instance" == table then 1 else 0

known_entity :
    (b : Bool) (m : EntityMetadata)
    → Path (Option EntityMetadata) (if b then some subnets else none) (some m)
    → subnets ≡ m
known_entity true m e = cc
known_entity false m e = absurd (cc (e))

subnets_ranked : (p : String × String) → In p (asked_columns schema subnets) → rank p.0 p.1 < 1
subnets_ranked p (inl a) = rw a (omega arith)
subnets_ranked p (inr (inl a)) = rw a (omega arith)
subnets_ranked p (inr (inr a)) = absurd a

rank-IsRanked : IsRanked schema rank
unfolding get_table_metadata
rank-IsRanked table key entity m p i e j = elim (Bool-cases ("instance" == table)) [
  | inl q ↦ rw q (
      subnets_ranked p (
        subst (λ m. In p (asked_columns schema m)) (sym (known_entity (entity == "Subnet") m e)) j))
  | inr q ↦ absurd (rw q at i)
]

append-empty : (s t : String) → s <> t ≡ "" → (s ≡ "") × (t ≡ "")
append-empty String.[] t q = (refl, sym (append.nil t) ∙ q)
append-empty (String.◌∷◌ c s) t q =
    let e : String.◌∷◌ c (s <> t) ≡ "" = sym (append.cons c s t) ∙ q in absurd (cc (e))

formatter-IsFilled : IsFilled formatter
formatter-IsFilled [] as_ h q = absurd (cc (h))
formatter-IsFilled (words w ∷ ps) as_ h q =
    let (empty, rest) = append-empty w (formatter ps as_) q in
    ground (arith, eq_iff w "", formatter-IsFilled ps as_)
formatter-IsFilled (ident ∷ ps) [] h q = formatter-IsFilled ps [] h q
formatter-IsFilled (plain ∷ ps) [] h q = formatter-IsFilled ps [] h q
formatter-IsFilled (literal ∷ ps) [] h q = formatter-IsFilled ps [] h q
formatter-IsFilled (ident ∷ ps) (a ∷ as_) h q =
    formatter-IsFilled ps as_ h (append-empty (argument_text a) (formatter ps as_) q).1
formatter-IsFilled (plain ∷ ps) (a ∷ as_) h q =
    formatter-IsFilled ps as_ h (append-empty (argument_text a) (formatter ps as_) q).1
formatter-IsFilled (literal ∷ ps) (a ∷ as_) h q =
    formatter-IsFilled ps as_ h (append-empty (argument_text a) (formatter ps as_) q).1

query_parts-fits_example :
    fits
      (insert_template formatter (plain_value "ami" (str "ami-1") ∷ []))
      (insert_arguments formatter "instance" (plain_value "ami" (str "ami-1") ∷ []))
    ≡ true
unfolding query_parts is_kept
query_parts-fits_example =
    query_parts-fits formatter "instance" insert false (plain_value "ami" (str "ami-1") ∷ []) none
      (insert_template formatter (plain_value "ami" (str "ami-1") ∷ []))
      (insert_arguments formatter "instance" (plain_value "ami" (str "ami-1") ∷ [])) refl

sub_query-fits_iff_example :
    (fits
        (sub_query_template formatter (plain_value "ami" (str "ami-1") ∷ []))
        (sub_query_arguments formatter "id" "instance" (plain_value "ami" (str "ami-1") ∷ []))
      ≡ true)
    ↔ (any (λ (e : AugmentedValue). e.aws_resolve_support) (plain_value "ami" (str "ami-1") ∷ [])
        ≡ false)
sub_query-fits_iff_example =
    sub_query-fits_iff formatter "id" "instance" (plain_value "ami" (str "ami-1") ∷ [])

augment_value-ends_example :
    IsSome (augment_value schema formatter [] 2 true "instance" "subnet_id" (num "7"))
augment_value-ends_example =
    augment_value-ends schema formatter [] rank rank-IsRanked 2 true "instance" "subnet_id"
      (num "7") (omega arith)

augment_value-unsupported_example : (plain_value "ami" (str "ami-1")).aws_resolve_support ≡ false
unfolding augment_value get_table_metadata aws_resolve_columns
augment_value-unsupported_example =
    augment_value-unsupported schema formatter [] 2 true "instance" "ami" (str "ami-1")
      (record (plain_value "ami" (str "ami-1")) { type = some "text" }) refl

abbrev row : ℕ → ChangeType → AuditLog
row id type = record {
  id = id;
  ts = id;
  user = "ann";
  table_name = "instance";
  change_type = type;
  change = record {
    original = none;
    change = some (("ami", str "ami-1") ∷ ("subnet_id", num "7") ∷ []);
  };
  message = none;
  transaction_id = none;
}

abbrev logs : List AuditLog
logs = row 1 start_commit ∷ row 2 insert ∷ row 3 update ∷ []

rank_small : (table key : String) → rank table key < 2
rank_small table key = ground arith

queries_of_logs-length_example :
    (qs : List String) × (queries_of_logs schema formatter 2 true true [] logs ≡ some qs)
    × (length qs ≡ length (filter is_row_change logs))
queries_of_logs-length_example =
    queries_of_logs-length schema formatter formatter-IsFilled [] rank rank-IsRanked 2 rank_small
      true true logs
