-- ===== src/Crud/Tests.antt =====
-- A mapper of buckets: the memo on concrete calls.
use iasql.Base.{
  zero, suc, ◌≡◌, refl, inl, inr, String, ◌==◌, eq_iff, true, false, Option, none, some, List, [],
  ◌∷◌, any, if◌then◌else◌, arith,
}
use iasql.Base.Dict.{Dict, get, set, remove, from_entries_onto}
use iasql.Base.Members.{All}
use iasql.Crud.{
  Ref, Session, Crud, nothing, one, many, Outcome, returned, failed, ids_of, with_ids, write_object,
  allocate, listed, id_of, memo_one, memo_all, memo, create_many, delete_entities, clone_all,
  read_id, error_message, read, update, update_or_replace,
}
use iasql.Crud.Memo.{Key, key_under, memoized, same_key, view, merged, IsUnshared, memo_one-view}
use iasql.Crud.Identity.{Keeps, IsMemoized, memo-Keeps}
use iasql.Crud.Cache.{asked, read_id-again, read_id-forgets, vain_outcome}
use iasql.Crud.Forget.{create_many-forgets, delete_entities-forgets}

abbrev name_or_none : Option String → String
name_or_none none = ""
name_or_none (some s) = s

abbrev name_of : Dict String → String
name_of d = name_or_none (get d "name")

-- The bucket "logs" is found; another id is an error or not there.
abbrev read_bucket :
    Option String → Session String (List String) → Session String (List String) × Outcome
read_bucket none s = (s, returned (many (0 ∷ 1 ∷ [])))
read_bucket (some id) s =
    if id == "logs"
    then (record s { world = "read" ∷ s.world }, returned (many (0 ∷ [])))
    else if id == "denied"
    then (s, failed "no access")
    else (s, returned nothing)

abbrev buckets : Crud String (List String)
buckets = record {
  create_fn = λ es s. (s, failed "taken");
  read_fn = read_bucket;
  update_fn = λ es s. (s, returned (many es));
  update_or_replace_fn = none;
  delete_fn = λ es s. (record s { heap = write_object s.heap 0 [] }, returned nothing);
  dest = some "cloud";
  entity = some "Bucket";
  entity_id = some (λ h e. name_of (h.object e));
}

abbrev stored_buckets : Ref → Dict String
stored_buckets zero = ("name", "logs") ∷ ("region", "us-east-1") ∷ []
stored_buckets (suc zero) = ("name", "data") ∷ []
stored_buckets (suc (suc zero)) = ("name", "logs") ∷ ("acl", "private") ∷ []
stored_buckets (suc (suc (suc n))) = []

abbrev session : Session String (List String)
session = record { heap = record { next = 3; object = stored_buckets }; memo = []; world = [] }

-- "logs" is memoized as the object 0.
abbrev known : Session String (List String)
known = record session { memo = ("cloud", ("Bucket", ("logs", 0) ∷ []) ∷ []) ∷ [] }

-- A second object of the same id goes into the first.
merges : (memo buckets (many (0 ∷ 1 ∷ 2 ∷ [])) true session).1 ≡ many (0 ∷ 1 ∷ 0 ∷ [])
unfolding memo memo_all memo_one ids_of with_ids id_of write_object get set from_entries_onto
merges = refl

reads : (read buckets (some "logs") session).1 ≡ returned (one 3)
unfolding read read_id memo memo_one ids_of with_ids id_of allocate write_object get set
    from_entries_onto
reads = refl

fails : (read buckets (some "denied") known).1 ≡ failed "Bucket cloud read error: no access"
unfolding read read_id error_message ids_of with_ids allocate write_object get set remove
fails = refl

replaces_none : update_or_replace buckets 0 1 session.heap ≡ update
unfolding update_or_replace
replaces_none = refl

known-IsUnshared : IsUnshared known.memo
unfolding memoized ids_of get
known-IsUnshared j k r hj hk = ground (
  arith,
  hj,
  hk,
  eq_iff "cloud" j.dest,
  eq_iff "Bucket" j.entity,
  eq_iff "logs" j.id,
  eq_iff "cloud" k.dest,
  eq_iff "Bucket" k.entity,
  eq_iff "logs" k.id,
)

memo_one-view_example :
    IsUnshared (memo_one buckets 2 known).0.memo
    × ((k : Key)
        → view (memo_one buckets 2 known).0 k ≡ (
            if same_key (key_under buckets (id_of buckets known.heap 2)) k
            then some (merged (view known k) (known.heap.object 2))
            else view known k))
unfolding memoized ids_of get
memo_one-view_example = memo_one-view buckets 2 known known-IsUnshared λ k h. absurd (apart k h)
  where
    apart : (k : Key) → memoized known.memo k ≡ some 2 → ⊥
    apart k h =
        ground (arith, h, eq_iff "cloud" k.dest, eq_iff "Bucket" k.entity, eq_iff "logs" k.id)

memo-Keeps_example :
    Keeps buckets known (memo buckets (many (0 ∷ 1 ∷ 2 ∷ [])) false known).0
    × All
        (IsMemoized buckets (memo buckets (many (0 ∷ 1 ∷ 2 ∷ [])) false known).0)
        (listed (memo buckets (many (0 ∷ 1 ∷ 2 ∷ [])) false known).1)
memo-Keeps_example = memo-Keeps buckets (many (0 ∷ 1 ∷ 2 ∷ [])) false known

read_id-again_example :
    read_id buckets "logs" (read_id buckets "logs" session).0 ≡ read_id buckets "logs" session
unfolding ids_of with_ids id_of allocate write_object get set
read_id-again_example =
    read_id-again buckets "logs" session _ (returned (many (0 ∷ []))) 0 refl (inr refl) refl refl

read_id-forgets_example :
    ((read_id buckets "denied" session).1 ≡ vain_outcome buckets (failed "no access"))
    × ((k : Key)
        → memoized (read_id buckets "denied" session).0.memo k ≡ (
            if same_key (key_under buckets "denied") k
            then none
            else memoized (asked buckets "denied" session).memo k))
unfolding ids_of with_ids allocate write_object get set
read_id-forgets_example =
    read_id-forgets buckets "denied" session (asked buckets "denied" session) (failed "no access")
      refl (inl ("no access", refl)) refl

create_many-forgets_example :
    ((create_many buckets (0 ∷ 1 ∷ []) session).1 ≡ failed (error_message buckets "create" "taken"))
    × ((k : Key)
        → memoized (create_many buckets (0 ∷ 1 ∷ []) session).0.memo k ≡ (
            if any
              (λ e.
                same_key
                  (key_under buckets
                    (id_of buckets (memo_all buckets (0 ∷ 1 ∷ []) session).0.heap e))
                  k)
              (memo_all buckets (0 ∷ 1 ∷ []) session).1
            then none
            else memoized (memo_all buckets (0 ∷ 1 ∷ []) session).0.memo k))
create_many-forgets_example =
    create_many-forgets buckets (0 ∷ 1 ∷ []) session (memo_all buckets (0 ∷ 1 ∷ []) session).0
      "taken" refl

delete_entities-forgets_example :
    ((delete_entities buckets (many (0 ∷ [])) known).1 ≡ returned nothing)
    × ((k : Key)
        → memoized (delete_entities buckets (many (0 ∷ [])) known).0.memo k ≡ (
            if any (λ e. same_key (key_under buckets (name_of (known.heap.object e))) k) (0 ∷ [])
            then none
            else memoized known.memo k))
unfolding clone_all id_of write_object allocate
delete_entities-forgets_example =
    delete_entities-forgets buckets name_of (λ h e. refl) (0 ∷ []) known _ nothing (omega arith, tt)
      refl (λ c a b. ground (arith, a, b))
