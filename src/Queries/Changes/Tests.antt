-- ===== src/Queries/Changes/Tests.antt =====
-- An instance that was deleted and one that was inserted, which the database has.
use iasql.Base.{◌≡◌, refl, inl, inr, none, some, [], ◌∷◌}
use iasql.Base.Dict.{get, set, from_entries, from_entries_onto}
use iasql.Base.Members.{In}
use iasql.Json.{str}
use iasql.AuditLog.{AuditLog, insert, delete}
use iasql.Queries.Recreate.{recreate_entity, recreate_relation}
use iasql.Queries.Tests.{schema, instances}
use iasql.Queries.Changes.{
  ChangedEntity, found, recreated, ChangesByEntity, or_no_changes, changes_by_entity,
  changes_of_entities,
}
use iasql.Queries.Metadata.{Schema}
use iasql.Queries.Changes.Touched.{IsTouched, written}
use iasql.Queries.Changes.Found.{changes_by_entity-finds}

abbrev deleted : AuditLog
deleted = record {
  id = 1;
  ts = 1;
  user = "ann";
  table_name = "instance";
  change_type = delete;
  change = record { original = some (("ami", str "ami-1") ∷ []); change = none };
  message = none;
  transaction_id = none;
}

abbrev instance_of : ChangedEntity
instance_of = recreated (("ami", str "ami-1") ∷ [])

abbrev stored : Schema
stored = record schema { find_related_one = λ t row. str "instance" }

abbrev inserted : AuditLog
inserted = record deleted {
  change_type = insert;
  change = record { original = none; change = some (("ami", str "ami-2") ∷ []) };
}

abbrev both : ChangesByEntity
both = ("Instance", instance_of ∷ found (str "instance") ∷ []) ∷ []

both_found : changes_by_entity stored (deleted ∷ inserted ∷ []) [] ≡ some both
unfolding changes_by_entity changes_of_entities recreate_entity recreate_relation set get
    from_entries from_entries_onto
both_found = refl

touched : IsTouched stored instances inserted (found (str "instance"))
touched = written (("ami", str "ami-2") ∷ []) refl (inl refl) refl refl

changes_by_entity-finds_example : In (found (str "instance")) (or_no_changes (get both "Instance"))
unfolding set from_entries from_entries_onto
changes_by_entity-finds_example =
    changes_by_entity-finds stored (deleted ∷ inserted ∷ []) both inserted (instances ∷ [])
      instances (found (str "instance")) (inr (inl refl)) refl (inl refl) touched [] both_found
