-- ===== src/Queries/Text.antt =====
-- What the queries use of JavaScript's texts: JSON.stringify, and the replacement of the casts to JSON.
use Prim.Native.Char.{Char, code}
use iasql.Base.{ℕ, zero, suc, ◌-◌, String, ◌<>◌, Bool, true, false, ◌&&◌, beq, ltb, if◌then◌else◌}
use iasql.Json.{Json, Items, Fields, null, bool, num, str, arr, obj, nil, cons, end, field}

abbrev one_char : Char → String
one_char c = String.◌∷◌ c String.[]

-- The last digit of \u00.. in hexadecimal.
abbrev hex_digit : ℕ → String
hex_digit n =
    if beq n 0
    then "0"
    else if beq n 1
    then "1"
    else if beq n 2
    then "2"
    else if beq n 3
    then "3"
    else if beq n 4
    then "4"
    else if beq n 5
    then "5"
    else if beq n 6
    then "6"
    else if beq n 7
    then "7"
    else if beq n 8
    then "8"
    else if beq n 9
    then "9"
    else if beq n 10
    then "a"
    else if beq n 11
    then "b"
    else if beq n 12
    then "c"
    else if beq n 13
    then "d"
    else if beq n 14
    then "e"
    else "f"

abbrev control_escape : ℕ → String
control_escape n = if ltb n 16 then "\\u000" <> hex_digit n else "\\u001" <> hex_digit (n - 16)

-- A character inside a JSON string.
abbrev pub escaped : Char → String
escaped c =
    if beq (code c) 34
    then "\\\""
    else if beq (code c) 92
    then "\\\\"
    else if beq (code c) 8
    then "\\b"
    else if beq (code c) 9
    then "\\t"
    else if beq (code c) 10
    then "\\n"
    else if beq (code c) 12
    then "\\f"
    else if beq (code c) 13
    then "\\r"
    else if ltb (code c) 32
    then control_escape (code c)
    else one_char c

unfoldable pub quoted_rest : String → String
quoted_rest String.[] = "\""
quoted_rest (String.◌∷◌ c s) = escaped c <> quoted_rest s

abbrev pub bool_text : Bool → String
bool_text true = "true"
bool_text false = "false"

-- JSON.stringify(v)
unfoldable mutual
  pub stringify : Json → String
  stringify null = "null"
  stringify (bool b) = bool_text b
  stringify (num n) = n
  stringify (str s) = "\"" <> quoted_rest s
  stringify (arr xs) = "[" <> stringify_items xs
  stringify (obj fs) = "{" <> stringify_fields fs

  pub stringify_items : Items → String
  stringify_items nil = "]"
  stringify_items (cons x nil) = stringify x <> "]"
  stringify_items (cons x (cons y xs)) = stringify x <> "," <> stringify_items (cons y xs)

  pub stringify_fields : Fields → String
  stringify_fields end = "}"
  stringify_fields (field k v end) = "\"" <> quoted_rest k <> ":" <> stringify v <> "}"
  stringify_fields (field k v (field j w fs)) =
      "\"" <> quoted_rest k <> ":" <> stringify v <> "," <> stringify_fields (field j w fs)

-- The text begins with the other.
unfoldable pub starts_with : String → String → Bool
starts_with s String.[] = true
starts_with String.[] (String.◌∷◌ d t) = false
starts_with (String.◌∷◌ c s) (String.◌∷◌ d t) = beq (code c) (code d) && starts_with s t

-- s.replace(/::json(?:b)?|::simple-json/g, '::jsonb'); the number counts the characters of a match
-- that are still to be left out.
unfoldable pub replace_from : ℕ → String → String
replace_from n String.[] = ""
replace_from (suc n) (String.◌∷◌ c s) = replace_from n s
replace_from zero (String.◌∷◌ c s) =
    let after_jsonb = "::jsonb" <> replace_from 6 s in
    let after_json = "::jsonb" <> replace_from 5 s in
    let after_simple = "::jsonb" <> replace_from 12 s in
    let kept = one_char c <> replace_from zero s in
    if starts_with (String.◌∷◌ c s) "::jsonb"
    then after_jsonb
    else if starts_with (String.◌∷◌ c s) "::json"
    then after_json
    else if starts_with (String.◌∷◌ c s) "::simple-json"
    then after_simple
    else kept

unfoldable pub replace_json_casts : String → String
replace_json_casts = replace_from 0
