-- ===== src/Crud/Memo.antt =====
-- The memo of modules/interfaces.ts as the map it stands for: from destination, entity and id to the
-- properties of the one object kept for them.
use iasql.Base.{
  ◌≡◌, refl, sym, ◌∙◌, subst, inl, inr, String, ◌==◌, eq_iff, Bool, true, false, ◌&&◌, Option, none,
  some, if◌then◌else◌, arith, Bool-cases,
}
use iasql.Base.Dict.{Dict, get, set, remove, from_entries_onto, get-set, get-remove}
use iasql.Crud.{
  Ref, Heap, Memo, Session, Crud, ids_of, with_ids, or_empty, write_object, dest_name, entity_name,
  id_of, memo_one, memo_found, ids,
}

pub record Key : Type 0 where
  pub dest : String
  pub entity : String
  pub id : String

abbrev pub same_key : Key → Key → Bool
same_key j k = (j.dest == k.dest) && (j.entity == k.entity) && (j.id == k.id)

pub same_key-eq : (j k : Key) → same_key j k ≡ true → j ≡ k
same_key-eq j k h =
    ground (arith, h, eq_iff j.dest k.dest, eq_iff j.entity k.entity, eq_iff j.id k.id)

pub same_key_refl : (k : Key) → same_key k k ≡ true
same_key_refl k = ground (arith, eq_iff k.dest k.dest, eq_iff k.entity k.entity, eq_iff k.id k.id)

-- The object that is memoized under a key.
unfoldable pub memoized : Memo → Key → Option Ref
memoized m k = get (ids_of m k.dest k.entity) k.id

abbrev pub key_under : {V W : Type 0} → Crud V W → String → Key
key_under crud id = record { dest = dest_name crud; entity = entity_name crud; id = id }

pub ids_of-with_ids :
    (m : Memo) (d n d' n' : String) (t : Dict Ref)
    → ids_of (with_ids m d n t) d' n'
      ≡ (if d == d' then if n == n' then t else ids_of m d' n' else ids_of m d' n')
unfolding ids_of with_ids
ids_of-with_ids m d n d' n' t = elim (Bool-cases (d == d')) [
  | inl e ↦ rw (get-set m d d' (set (or_empty (get m d)) n t), e, sym ((eq_iff d d').0 e)) inner
  | inr e ↦ rw (get-set m d d' (set (or_empty (get m d)) n t), e) refl
]
  where
    inner :
        or_empty (get (set (or_empty (get m d)) n t) n')
        ≡ (if n == n' then t else or_empty (get (or_empty (get m d)) n'))
    inner = rw (get-set (or_empty (get m d)) n n' t) (ground arith)

module _ (m : Memo) (j k : Key) where
  pub memoized-set :
      (r : Ref)
      → memoized (with_ids m j.dest j.entity (set (ids_of m j.dest j.entity) j.id r)) k
        ≡ (if same_key j k then some r else memoized m k)
  unfolding memoized
  memoized-set r =
      rw (ids_of-with_ids m j.dest j.entity k.dest k.entity (set (ids_of m j.dest j.entity) j.id r))
        (ground (
          arith,
          eq_iff j.dest k.dest,
          eq_iff j.entity k.entity,
          get-set (ids_of m j.dest j.entity) j.id k.id r,
        ))

  pub memoized-remove :
      memoized (with_ids m j.dest j.entity (remove (ids_of m j.dest j.entity) j.id)) k
      ≡ (if same_key j k then none else memoized m k)
  unfolding memoized
  memoized-remove =
      rw
        (ids_of-with_ids m j.dest j.entity k.dest k.entity (remove (ids_of m j.dest j.entity) j.id))
        (ground (
          arith,
          eq_iff j.dest k.dest,
          eq_iff j.entity k.entity,
          get-remove (ids_of m j.dest j.entity) j.id k.id,
        ))

  pub memoized-same :
      memoized (with_ids m j.dest j.entity (ids_of m j.dest j.entity)) k ≡ memoized m k
  unfolding memoized
  memoized-same =
      rw (ids_of-with_ids m j.dest j.entity k.dest k.entity (ids_of m j.dest j.entity))
        (ground (arith, eq_iff j.dest k.dest, eq_iff j.entity k.entity))

-- The properties of the object that is memoized under a key.
abbrev pub object_at : {V : Type 0} → Heap V → Option Ref → Option (Dict V)
object_at h none = none
object_at h (some r) = some (h.object r)

unfoldable pub view : {V W : Type 0} → Session V W → Key → Option (Dict V)
view s k = object_at s.heap (memoized s.memo k)

-- Of an entity and what is known of its id: the properties of the entity replace the known ones.
abbrev pub merged : {V : Type 0} → Option (Dict V) → Dict V → Dict V
merged none new = new
merged (some old) new = from_entries_onto old new

object_at-miss :
    {V : Type 0} (h : Heap V) (e : Ref) (o : Option Ref) (b : Bool)
    → (b ≡ true → o ≡ none)
    → object_at h (if b then some e else o)
      ≡ (if b then some (merged (object_at h o) (h.object e)) else object_at h o)
object_at-miss h e o true q = rw (q refl) refl
object_at-miss h e o false q = refl

object_at-hit :
    {V : Type 0} (h : Heap V) (e r : Ref) (o : Option Ref) (b : Bool)
    → (b ≡ true → o ≡ some r)
    → (o ≡ some r → b ≡ true)
    → object_at (write_object h r (from_entries_onto (h.object r) (h.object e))) o
      ≡ (if b then some (merged (object_at h o) (h.object e)) else object_at h o)
unfolding write_object
object_at-hit h e r o true q p = rw (q refl) (ground arith)
object_at-hit h e r none false q p = refl
object_at-hit h e r (some x) false q p = ground (arith, p)

-- No object is memoized under two keys.
abbrev pub IsUnshared : Memo → Type 0
IsUnshared m = (j k : Key) (r : Ref) → memoized m j ≡ some r → memoized m k ≡ some r → j ≡ k

module _ {V W : Type 0} (crud : Crud V W) where
  -- What one turn of the loop of memo stores, by what was memoized under the entity's id.
  memo_found-memoized :
      (e : Ref) (s : Session V W) (o : Option Ref) (k : Key)
      → get (ids crud s) (id_of crud s.heap e) ≡ o
      → memoized (memo_found crud e s o).0.memo k ≡ (
          if same_key (key_under crud (id_of crud s.heap e)) k
          then some (memo_found crud e s o).1
          else memoized s.memo k)
  unfolding memoized
  memo_found-memoized e s none k h = memoized-set s.memo (key_under crud (id_of crud s.heap e)) k e
  memo_found-memoized e s (some r) k h =
      memoized-same s.memo (key_under crud (id_of crud s.heap e)) k
      ∙ ground (arith, h, same_key-eq (key_under crud (id_of crud s.heap e)) k)

  pub memo_one-memoized :
      (e : Ref) (s : Session V W) (k : Key)
      → memoized (memo_one crud e s).0.memo k ≡ (
          if same_key (key_under crud (id_of crud s.heap e)) k
          then some (memo_one crud e s).1
          else memoized s.memo k)
  unfolding memo_one
  memo_one-memoized e s k = memo_found-memoized e s (get (ids crud s) (id_of crud s.heap e)) k refl

  memo_found-view :
      (e : Ref) (s : Session V W) (o : Option Ref) (k : Key)
      → get (ids crud s) (id_of crud s.heap e) ≡ o
      → IsUnshared s.memo
      → view (memo_found crud e s o).0 k ≡ (
          if same_key (key_under crud (id_of crud s.heap e)) k
          then some (merged (view s k) (s.heap.object e))
          else view s k)
  unfolding view memoized
  memo_found-view e s none k h u =
      rw (memoized-set s.memo (key_under crud (id_of crud s.heap e)) k e) (
        object_at-miss s.heap e (memoized s.memo k)
          (same_key (key_under crud (id_of crud s.heap e)) k)
          (λ q. rw (sym (same_key-eq (key_under crud (id_of crud s.heap e)) k q)) h))
  memo_found-view e s (some r) k h u =
      rw (memoized-same s.memo (key_under crud (id_of crud s.heap e)) k) (
        object_at-hit s.heap e r (memoized s.memo k)
          (same_key (key_under crud (id_of crud s.heap e)) k)
          (λ q. rw (sym (same_key-eq (key_under crud (id_of crud s.heap e)) k q)) h)
          (λ q.
            subst (λ j. same_key j k ≡ true)
              (sym (u (key_under crud (id_of crud s.heap e)) k r h q)) (same_key_refl k)))

  memo_found-IsUnshared :
      (e : Ref) (s : Session V W) (o : Option Ref)
      → get (ids crud s) (id_of crud s.heap e) ≡ o
      → IsUnshared s.memo
      → ((k : Key) → memoized s.memo k ≡ some e → k ≡ key_under crud (id_of crud s.heap e))
      → IsUnshared (memo_found crud e s o).0.memo
  unfolding memoized
  memo_found-IsUnshared e s none h u own j k r hj hk = ground (
    arith,
    sym (memoized-set s.memo (key_under crud (id_of crud s.heap e)) j e) ∙ hj,
    sym (memoized-set s.memo (key_under crud (id_of crud s.heap e)) k e) ∙ hk,
    same_key-eq (key_under crud (id_of crud s.heap e)) j,
    same_key-eq (key_under crud (id_of crud s.heap e)) k,
    u j k r,
    own j,
    own k,
  )
  memo_found-IsUnshared e s (some real) h u own j k r hj hk =
      u j k r (sym (memoized-same s.memo (key_under crud (id_of crud s.heap e)) j) ∙ hj)
        (sym (memoized-same s.memo (key_under crud (id_of crud s.heap e)) k) ∙ hk)

  -- Where no object is memoized under two keys, and the entity under no key but its own, a turn of memo's
  -- loop writes one entry of the map that the memo stands for: under the entity's key, its properties,
  -- over those known before. And still no object is memoized under two keys.
  pub memo_one-view :
      (e : Ref) (s : Session V W)
      → IsUnshared s.memo
      → ((k : Key) → memoized s.memo k ≡ some e → k ≡ key_under crud (id_of crud s.heap e))
      → IsUnshared (memo_one crud e s).0.memo
        × ((k : Key)
            → view (memo_one crud e s).0 k ≡ (
                if same_key (key_under crud (id_of crud s.heap e)) k
                then some (merged (view s k) (s.heap.object e))
                else view s k))
  unfolding memo_one
  memo_one-view e s u own = (
    memo_found-IsUnshared e s (get (ids crud s) (id_of crud s.heap e)) refl u own,
    λ k. memo_found-view e s (get (ids crud s) (id_of crud s.heap e)) k refl u,
  )
