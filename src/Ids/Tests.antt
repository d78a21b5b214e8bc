-- ===== src/Ids/Tests.antt =====
-- The id of an object in a bucket, which two columns name.
use iasql.Base.{◌≡◌, inl, inr, refl, String, some, List, [], ◌∷◌}
use iasql.Base.Members.{In}
use iasql.Base.Dict.{Dict, get}
use iasql.Ids.Split.{split_bar, HasBarFree, id_fields-generate_id}
use iasql.Ids.{id_fields, ColumnTable, generate_id, join_bar}

abbrev marked : ColumnTable
marked = ("BucketObject", "bucket" ∷ []) ∷ []

abbrev columns : List String
columns = "bucket" ∷ "key" ∷ []

abbrev object : Dict String
object = ("id", "7") ∷ ("bucket", "logs") ∷ ("key", "a.txt") ∷ []

abbrev fields : Dict String
fields = ("bucket", "logs") ∷ ("key", "a.txt") ∷ []

same_columns : (c : String) → In c columns → get fields c ≡ get object c
unfolding get
same_columns c (inl e) = rw e refl
same_columns c (inr (inl e)) = rw e refl
same_columns c (inr (inr i)) = absurd i

columns-HasBarFree : (c : String) → In c columns → HasBarFree (get fields) c
unfolding get
columns-HasBarFree c (inl e) = rw e ("logs", refl, refl)
columns-HasBarFree c (inr (inl e)) = rw e ("a.txt", refl, refl)
columns-HasBarFree c (inr (inr i)) = absurd i

id_fields-generate_id_example :
    get (id_fields "id" (some columns) (split_bar "logs|a.txt")) "key" ≡ some (get fields "key")
unfolding get generate_id join_bar
id_fields-generate_id_example =
    id_fields-generate_id "id" "bucket" ("key" ∷ []) fields "logs|a.txt" (refl, (refl, tt))
      columns-HasBarFree refl refl "key" (inr (inl refl))
