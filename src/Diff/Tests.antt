-- ===== src/Diff/Tests.antt =====
-- `find_diff` on two short lists of entities, numbers with names.
use iasql.Base.{ℕ, ◌≡◌, ◌↔◌, refl, String, Bool, false, some, List, [], ◌∷◌, beq}
use iasql.Base.Members.{In}
use iasql.Base.Dict.{from_entries, get, has}
use iasql.Diff.{Changed, find_diff, map_segmentation}
use iasql.Diff.Partition.{last_with, OnlyIn, find_diff-only, find_diff-changed}

abbrev Bucket : Type 0
Bucket = String × ℕ

abbrev name : Bucket → String
name b = b.0

abbrev same_size : Bucket → Bucket → Bool
same_size a b = beq a.1 b.1

abbrev in_db : List Bucket
in_db = ("logs", 1) ∷ ("data", 2) ∷ []

abbrev in_cloud : List Bucket
in_cloud = ("data", 3) ∷ ("old", 4) ∷ []

abbrev resized : Changed Bucket
resized = record { db = ("data", 2); cloud = ("data", 3) }

test_find_diff : find_diff in_db in_cloud name same_size ≡ record {
  entities_in_db_only = ("logs", 1) ∷ [];
  entities_in_aws_only = ("old", 4) ∷ [];
  entities_changed = resized ∷ [];
}
unfolding find_diff map_segmentation from_entries get has
test_find_diff = refl

find_diff-only_example :
    (In ("logs", 1) (find_diff in_db in_cloud name same_size).entities_in_db_only
      ↔ OnlyIn in_db in_cloud name same_size ("logs", 1) in_db in_cloud)
    × (In ("logs", 1) (find_diff in_db in_cloud name same_size).entities_in_aws_only
        ↔ OnlyIn in_db in_cloud name same_size ("logs", 1) in_cloud in_db)
find_diff-only_example = find_diff-only in_db in_cloud name same_size ("logs", 1)

find_diff-changed_example :
    In resized (find_diff in_db in_cloud name same_size).entities_changed ↔ (
      (last_with name "data" in_db ≡ some ("data", 2))
      × (last_with name "data" in_cloud ≡ some ("data", 3))
      × (same_size ("data", 2) ("data", 3) ≡ false))
find_diff-changed_example = find_diff-changed in_db in_cloud name same_size resized
