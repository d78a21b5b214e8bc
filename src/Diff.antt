-- ===== src/Diff.antt =====
-- services/diff.ts: what differs between the entities of the database and those of the cloud.
-- `E` is the type of entities, `id_gen` the mapper's `entityId` and `comparator` its `equals`.
pub mod Segmentation
pub mod Partition
mod Tests
use iasql.Base.{
  String, Bool, true, false, List, [], ◌∷◌, map, if◌then◌else◌, filter, Option, none, some,
}
use iasql.Base.Dict.{Dict, get, has, set, values, from_entries}

pub record Changed (E : Type 0) : Type 0 where
  pub db : E
  pub cloud : E

pub record DiffResult (E : Type 0) : Type 0 where
  pub entities_in_db_only : List E
  pub entities_in_aws_only : List E
  pub entities_changed : List (Changed E)

-- The three maps of `mapSegmentation`.
pub record Segments (V : Type 0) : Type 0 where
  pub left : Dict V
  pub intersect : Dict (V × V)
  pub right : Dict V

module _ {V : Type 0} where
  -- One round of the first loop: the maps `left` and `intersect`.
  abbrev pub segment_entry :
      Dict V → String → V → Option V → Dict V × Dict (V × V) → Dict V × Dict (V × V)
  segment_entry b k v (some w) (left, intersect) = (left, set intersect k (v, w))
  segment_entry b k v none (left, intersect) = (set left k v, intersect)

  abbrev pub segment_left :
      Dict V → List (String × V) → Dict V × Dict (V × V) → Dict V × Dict (V × V)
  segment_left b [] acc = acc
  segment_left b ((k, v) ∷ rest) acc = segment_left b rest (segment_entry b k v (get b k) acc)

  abbrev pub segment_right : Dict V → List (String × V) → Dict V → Dict V
  segment_right a [] right = right
  segment_right a ((k, v) ∷ rest) right =
      segment_right a rest (if has a k then right else set right k v)

  unfoldable pub map_segmentation : Dict V → Dict V → Segments V
  map_segmentation a b =
      let (left, intersect) = segment_left b a ([], []) in
      record { left = left; intersect = intersect; right = segment_right a b [] }

module _ {E : Type 0} where
  abbrev pub by_id : (E → String) → List E → Dict E
  by_id id_gen es = from_entries (map (λ e. (id_gen e, e)) es)

  abbrev pub changed_pairs : (E → E → Bool) → List (E × E) → List (Changed E)
  changed_pairs comparator [] = []
  changed_pairs comparator ((d, c) ∷ rest) =
      let others = changed_pairs comparator rest in
      if comparator d c then others else record { db = d; cloud = c } ∷ others

  unfoldable pub find_diff : List E → List E → (E → String) → (E → E → Bool) → DiffResult E
  find_diff db_entities cloud_entities id_gen comparator =
      let s = map_segmentation (by_id id_gen db_entities) (by_id id_gen cloud_entities) in
      record {
        entities_in_db_only = values s.left;
        entities_in_aws_only = values s.right;
        entities_changed = changed_pairs comparator (values s.intersect);
      }
