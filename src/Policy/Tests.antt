-- ===== src/Policy/Tests.antt =====
-- A policy of a bucket in two orders.
use mathlib.Core.List.Permᴰ.{nil, cons, swap}
use iasql.Base.{
  ◌≡◌, refl, inl, inr, String, ◌==◌, eq_refl, Bool, true, none, some, [], ◌∷◌, if◌then◌else◌,
  Bool-cases,
}
use iasql.Base.Dict.{from_entries, from_entries_onto, set}
use iasql.Policy.{
  single, several, everyone, text, flag, one, many, Statement, lone, Policy, text_leb, insert_text,
  sort_texts, normalize_action, normalize_condition, normalize_policy, policies_are_same,
}
use iasql.Policy.Normal.{normalize_policy_idem, policies_are_same-perm}

-- Lower case, for the texts of the example.
abbrev lower : String → String
lower s = if s == "s3:GetObject" then "s3:getobject" else s

lower_idem : (s : String) → lower (lower s) ≡ lower s
lower_idem s = elim (Bool-cases (s == "s3:GetObject")) [
  | inl e ↦ rw e refl
  | inr e ↦ rw (e, e) refl
]

abbrev statement : Statement
statement = record {
  action = some (several ("s3:listbucket" ∷ "s3:GetObject" ∷ []));
  not_action = none;
  principal = some everyone;
  not_principal = none;
  resource = some (single "arn:aws:s3:::logs");
  not_resource = none;
  condition = some (("Bool", ("aws:SecureTransport", one (flag true)) ∷ []) ∷ []);
  effect = "Allow";
  sid = none;
}

abbrev policy : Policy
policy = record { id = none; statement = lone statement; version = "2012-10-17" }

normalizes :
    normalize_action lower (several ("s3:listbucket" ∷ "s3:GetObject" ∷ []))
    ≡ several ("s3:getobject" ∷ "s3:listbucket" ∷ [])
unfolding normalize_action sort_texts insert_text text_leb
normalizes = refl

normalizes_condition :
    normalize_condition lower
      (("Bool", ("aws:SecureTransport", many (flag true ∷ text "true" ∷ [])) ∷ []) ∷ [])
    ≡ ("Bool", ("aws:SecureTransport", many (text "true" ∷ [])) ∷ []) ∷ []
unfolding normalize_condition from_entries from_entries_onto set
normalizes_condition = refl

normalize_policy_idem_example :
    normalize_policy lower (normalize_policy lower policy) ≡ normalize_policy lower policy
normalize_policy_idem_example = normalize_policy_idem lower lower_idem policy

abbrev same_version : Policy → Policy → Bool
same_version p q = p.version == q.version

policies_are_same-perm_example :
    policies_are_same lower same_version
      (some (record policy {
        statement = lone (record statement {
          action = some (several ("s3:listbucket" ∷ "s3:GetObject" ∷ []));
          resource = some (several ("arn:aws:s3:::logs" ∷ []));
        });
      }))
      (some (record policy {
        statement = lone (record statement {
          action = some (several ("s3:GetObject" ∷ "s3:listbucket" ∷ []));
          resource = some (several ("arn:aws:s3:::logs" ∷ []));
        });
      }))
    ≡ true
policies_are_same-perm_example =
    policies_are_same-perm lower same_version (λ p. eq_refl p.version) policy statement
      ("s3:listbucket" ∷ "s3:GetObject" ∷ []) ("s3:GetObject" ∷ "s3:listbucket" ∷ [])
      ("arn:aws:s3:::logs" ∷ []) ("arn:aws:s3:::logs" ∷ []) (swap refl refl) (cons refl nil)
