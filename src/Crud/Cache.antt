-- ===== src/Crud/Cache.antt =====
-- read with an id (modules/interfaces.ts) as a cache in front of the mapper's own read.
use iasql.Base.{
  ◌≡◌, ◌⊎◌, refl, sym, ap, ◌∙◌, inl, inr, String, Bool, true, false, Option, none, some, [], ◌∷◌,
  if◌then◌else◌, arith, Bool-cases,
}
use iasql.Base.Dict.{Dict, get, set, from_entries_onto, set_same}
use iasql.Crud.{
  Ref, Memo, Session, Crud, nothing, one, many, Outcome, returned, failed, ids_of, with_ids,
  or_empty, dest_name, entity_name, write_object, id_of, ids, with_memo_ids, memo_one, memo_found,
  memo, placed, finish_read, forget, read_found, read_stored, read_id, error_message,
}
use iasql.Crud.Memo.{
  Key, key_under, memoized, same_key, same_key_refl, memo_one-memoized, memoized-remove,
}

abbrev pub is_filled : {V : Type 0} → Dict V → Bool
is_filled [] = false
is_filled (f ∷ fs) = true

set-filled : {V : Type 0} (d : Dict V) (k : String) (v : V) → is_filled (set d k v) ≡ true
unfolding set
set-filled [] k v = refl
set-filled ((j, w) ∷ d) k v = ground arith

from_entries_onto-filled :
    {V : Type 0} (d ps : Dict V) → is_filled d ≡ true → is_filled (from_entries_onto d ps) ≡ true
unfolding from_entries_onto
from_entries_onto-filled d [] h = h
from_entries_onto-filled d ((k, v) ∷ ps) h =
    from_entries_onto-filled (set d k v) ps (set-filled d k v)

merged-filled :
    {V : Type 0} (d ps : Dict V) → is_filled ps ≡ true → is_filled (from_entries_onto d ps) ≡ true
unfolding from_entries_onto
merged-filled d [] h = absurd (cc)
merged-filled d ((k, v) ∷ ps) h = from_entries_onto-filled (set d k v) ps (set-filled d k v)

with_ids_same :
    (m : Memo) (d n id : String) (r : Ref)
    → get (ids_of m d n) id ≡ some r
    → with_ids m d n (ids_of m d n) ≡ m
unfolding ids_of with_ids get
with_ids_same m d n id r h = go (get m d) refl h
  where
    outer :
        (t : Dict (Dict Ref)) (o : Option (Dict Ref))
        → get t n ≡ o
        → get (or_empty o) id ≡ some r
        → set t n (or_empty o) ≡ t
    outer t none e h = absurd (cc)
    outer t (some x) e h = set_same t n x e

    go :
        (o : Option (Dict (Dict Ref)))
        → get m d ≡ o
        → get (or_empty (get (or_empty o) n)) id ≡ some r
        → set m d (set (or_empty o) n (or_empty (get (or_empty o) n))) ≡ m
    go none e h = absurd (cc)
    go (some t) e h = rw (outer t (get t n) refl h) (set_same m d t e)

module _ {V W : Type 0} (crud : Crud V W) where
  -- The session in which the mapper's read is called for an id.
  abbrev pub asked_of : String → Session V W → Option Ref → Session V W
  asked_of id s none = placed crud id s
  asked_of id s (some r) = with_memo_ids crud s (ids crud s)

  abbrev pub asked : String → Session V W → Session V W
  asked id s = asked_of id s (get (ids crud s) id)

  -- The id is known: its object is there, and it is no placeholder.
  abbrev pub is_known_of : Session V W → Option Ref → Bool
  is_known_of s none = false
  is_known_of s (some r) = is_filled (s.heap.object r)

  abbrev pub is_known : String → Session V W → Bool
  is_known id s = is_known_of s (get (ids crud s) id)

  read_id-known :
      (id : String) (s : Session V W) (r : Ref)
      → get (ids crud s) id ≡ some r
      → is_filled (s.heap.object r) ≡ true
      → read_id crud id s ≡ (s, returned (one r))
  unfolding read_id
  read_id-known id s r h f = rw h (stored (s.heap.object r) f)
    where
      same : with_memo_ids crud s (ids crud s) ≡ s
      same =
          ap (λ m. record s { memo = m })
            (with_ids_same s.memo (dest_name crud) (entity_name crud) id r h)

      stored :
          (fields : Dict V)
          → is_filled fields ≡ true
          → read_stored crud id (with_memo_ids crud s (ids crud s)) r fields ≡ (s, returned (one r))
      stored [] f = absurd (cc)
      stored (x ∷ xs) f = ap (λ t. (t, returned (one r))) same

  read_id-asks :
      (id : String) (s : Session V W)
      → is_known id s ≡ false
      → read_id crud id s ≡ finish_read crud id (crud.read_fn (some id) (asked id s))
  unfolding read_id
  read_id-asks id s f = go (get (ids crud s) id) f
    where
      stored :
          (r : Ref) (fields : Dict V)
          → is_filled fields ≡ false
          → read_stored crud id (with_memo_ids crud s (ids crud s)) r fields
            ≡ finish_read crud id (crud.read_fn (some id) (with_memo_ids crud s (ids crud s)))
      stored r [] f = refl
      stored r (x ∷ xs) f = absurd (cc)

      go :
          (o : Option Ref)
          → is_known_of s o ≡ false
          → read_found crud id s o ≡ finish_read crud id (crud.read_fn (some id) (asked_of id s o))
      go none f = refl
      go (some r) f = stored r (s.heap.object r) f

  memo_found-filled :
      (o : Ref) (s : Session V W) (p : Option Ref)
      → is_filled (s.heap.object o) ≡ true
      → is_filled ((memo_found crud o s p).0.heap.object (memo_found crud o s p).1) ≡ true
  unfolding write_object
  memo_found-filled o s none f = f
  memo_found-filled o s (some r) f =
      ground (arith, merged-filled (s.heap.object r) (s.heap.object o) f)

  -- After memo of an entity with properties, reading its id gives the object that memo gave back, and the
  -- mapper is not asked.
  memo_one-known :
      (o : Ref) (s : Session V W)
      → is_filled (s.heap.object o) ≡ true
      → read_id crud (id_of crud s.heap o) (memo_one crud o s).0
        ≡ ((memo_one crud o s).0, returned (one (memo_one crud o s).1))
  unfolding memo_one memoized
  memo_one-known o s f =
      read_id-known (id_of crud s.heap o) (memo_one crud o s).0 (memo_one crud o s).1
        (memo_one-memoized crud o s (key_under crud (id_of crud s.heap o))
          ∙ ap
              (λ b.
                if b
                then some (memo_one crud o s).1
                else memoized s.memo (key_under crud (id_of crud s.heap o)))
              (same_key_refl (key_under crud (id_of crud s.heap o))))
        (memo_found-filled o s (get (ids crud s) (id_of crud s.heap o)) f)

  -- What the mapper gives for an id: that one entity.
  abbrev pub IsOne : Outcome → Ref → Type 0
  IsOne out o = (out ≡ returned (one o)) ⊎ (out ≡ returned (many (o ∷ [])))

  finish_read-one :
      (id : String) (s : Session V W) (out : Outcome) (o : Ref)
      → IsOne out o
      → finish_read crud id (s, out) ≡ ((memo_one crud o s).0, returned (one (memo_one crud o s).1))
  unfolding memo
  finish_read-one id s out o (inl e) = rw e refl
  finish_read-one id s out o (inr e) = rw e refl

  read_id-known_again :
      (id : String) (s : Session V W) (p : Option Ref)
      → get (ids crud s) id ≡ p
      → is_known_of s p ≡ true
      → read_id crud id (read_id crud id s).0 ≡ read_id crud id s
  read_id-known_again id s none h f = absurd (cc)
  read_id-known_again id s (some r) h f = ap (λ t. read_id crud id t.0) (read_id-known id s r h f)

  read_id-one :
      (id : String) (s s1 : Session V W) (out : Outcome) (o : Ref)
      → crud.read_fn (some id) (asked id s) ≡ (s1, out)
      → IsOne out o
      → is_known id s ≡ false
      → read_id crud id s ≡ ((memo_one crud o s1).0, returned (one (memo_one crud o s1).1))
  read_id-one id s s1 out o call is_one u =
      read_id-asks id s u ∙ ap (finish_read crud id) call ∙ finish_read-one id s1 out o is_one

  again_at :
      (id : String) (s1 : Session V W) (o : Ref) (t : Session V W × Outcome)
      → t ≡ ((memo_one crud o s1).0, returned (one (memo_one crud o s1).1))
      → id_of crud s1.heap o ≡ id
      → is_filled (s1.heap.object o) ≡ true
      → read_id crud id t.0 ≡ t
  again_at id s1 o t e same f =
      ap (λ t. read_id crud id t.0) e
      ∙ ap (λ i. read_id crud i (memo_one crud o s1).0) (sym same)
      ∙ memo_one-known o s1 f
      ∙ sym e

  -- Where the mapper's read of an id gives one entity of that id, with properties, reading the id
  -- again gives the same object and changes nothing.
  pub read_id-again :
      (id : String) (s s1 : Session V W) (out : Outcome) (o : Ref)
      → (crud.read_fn (some id) (asked id s) ≡ (s1, out))
      → IsOne out o
      → id_of crud s1.heap o ≡ id
      → is_filled (s1.heap.object o) ≡ true
      → read_id crud id (read_id crud id s).0 ≡ read_id crud id s
  read_id-again id s s1 out o call is_one same f = elim (Bool-cases (is_known id s)) [
    | inl k ↦ read_id-known_again id s (get (ids crud s) id) refl k
    | inr u ↦ again_at id s1 o (read_id crud id s) (read_id-one id s s1 out o call is_one u) same f
  ]

  -- The mapper found nothing, or failed.
  abbrev pub IsVain : Outcome → Type 0
  IsVain out =
      ((message : String) × (out ≡ failed message))
      ⊎ (out ≡ returned nothing)
      ⊎ (out ≡ returned (many []))

  -- What read gives in that case.
  abbrev pub vain_outcome : Outcome → Outcome
  vain_outcome (failed message) = failed (error_message crud "read" message)
  vain_outcome (returned out) = returned nothing

  finish_read-vain :
      (id : String) (s : Session V W) (out : Outcome)
      → IsVain out
      → finish_read crud id (s, out) ≡ (forget crud id s, vain_outcome out)
  finish_read-vain id s out (inl (message, e)) = rw e refl
  finish_read-vain id s out (inr (inl e)) = rw e refl
  finish_read-vain id s out (inr (inr e)) = rw e refl

  -- Where an id that is not known is asked for, and the mapper fails or finds nothing, no object is left
  -- for the id, the placeholder included; the rest of the memo is as the mapper left it; and the error is
  -- passed on under the mapper's name, or nothing is given.
  pub read_id-forgets :
      (id : String) (s s1 : Session V W) (out : Outcome)
      → (crud.read_fn (some id) (asked id s) ≡ (s1, out))
      → IsVain out
      → is_known id s ≡ false
      → ((read_id crud id s).1 ≡ vain_outcome out)
        × ((k : Key)
            → memoized (read_id crud id s).0.memo k
              ≡ (if same_key (key_under crud id) k then none else memoized s1.memo k))
  read_id-forgets id s s1 out call vain u =
      let e =
        read_id-asks id s u ∙ ap (finish_read crud id) call ∙ finish_read-vain id s1 out vain in
      (
        ap (λ (t : Session V W × Outcome). t.1) e,
        λ k.
            ap (λ (t : Session V W × Outcome). memoized t.0.memo k) e
            ∙ memoized-remove s1.memo (key_under crud id) k,
      )
