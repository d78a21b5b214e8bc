-- ===== src/Crud/Forget.antt =====
-- What leaves the memo: create that fails and delete that succeeds (modules/interfaces.ts).
use iasql.Base.{
  ◌<◌, ◌≤◌, ◌≡◌, refl, ap, ◌∙◌, String, Bool, true, none, List, [], ◌∷◌, any, if◌then◌else◌, arith,
}
use iasql.Base.Dict.{Dict, remove}
use iasql.Base.Members.{All, All-imp}
use iasql.Crud.{
  Ref, Heap, Session, Crud, Entities, nothing, one, many, Outcome, returned, failed, id_of, ids,
  with_memo_ids, allocate, write_object, memo_all, unmemo_all, error_message, clone_all,
  create_many, delete_entities, single_out,
}
use iasql.Crud.Memo.{Key, key_under, memoized, same_key, memoized-remove}

module _ {V W : Type 0} (crud : Crud V W) where
  pub unmemo_all-memoized :
      (es : List Ref) (s : Session V W) (k : Key)
      → memoized (unmemo_all crud es s).memo k ≡ (
          if any (λ e. same_key (key_under crud (id_of crud s.heap e)) k) es
          then none
          else memoized s.memo k)
  unfolding unmemo_all
  unmemo_all-memoized [] s k = refl
  unmemo_all-memoized (e ∷ es) s k = ground (
    arith,
    unmemo_all-memoized es (with_memo_ids crud s (remove (ids crud s) (id_of crud s.heap e))) k,
    memoized-remove s.memo (key_under crud (id_of crud s.heap e)) k,
  )

  -- Where creating an array of entities fails, the error is passed on under the mapper's name, and of
  -- the entities that had been memoized to reserve their ids none is left under its id; the rest of the
  -- memo is as the mapper left it.
  pub create_many-forgets :
      (es : List Ref) (s s2 : Session V W) (message : String)
      → (crud.create_fn (memo_all crud es s).1 (memo_all crud es s).0 ≡ (s2, failed message))
      → ((create_many crud es s).1 ≡ failed (error_message crud "create" message))
        × ((k : Key)
            → memoized (create_many crud es s).0.memo k ≡ (
                if any
                  (λ e. same_key (key_under crud (id_of crud s2.heap e)) k)
                  (memo_all crud es s).1
                then none
                else memoized s2.memo k))
  unfolding create_many
  create_many-forgets es s s2 message call =
      (rw call refl, λ k. rw call (unmemo_all-memoized (memo_all crud es s).1 s2 k))

  clone_all-below :
      (es : List Ref) (s : Session V W) (r : Ref)
      → r < s.heap.next
      → (clone_all crud es s).0.heap.object r ≡ s.heap.object r
  unfolding clone_all allocate write_object
  clone_all-below [] s r h = refl
  clone_all-below (e ∷ es) s r h =
      ground
        (arith, h, clone_all-below es (record s { heap = allocate s.heap (s.heap.object e) }) r)

  clone_all-next :
      (es : List Ref) (s : Session V W) → s.heap.next ≤ (clone_all crud es s).0.heap.next
  unfolding clone_all allocate write_object
  clone_all-next [] s = omega arith
  clone_all-next (e ∷ es) s =
      omega (arith, clone_all-next es (record s { heap = allocate s.heap (s.heap.object e) }))

  -- An entity that is there, and its properties.
  abbrev Holds : (Ref → Dict V) → Session V W → Ref → Type 0
  Holds fields s e = (e < s.heap.next) × (s.heap.object e ≡ fields e)

  Holds-allocate :
      (fields : Ref → Dict V) (s : Session V W) (new : Dict V) (e : Ref)
      → Holds fields s e
      → Holds fields (record s { heap = allocate s.heap new }) e
  unfolding allocate write_object
  Holds-allocate fields s new e h = ground (arith, h.0, h.1)

  -- The clones are new objects with the properties of the entities, whatever happens to these later.
  any-clone_all :
      (p : Dict V → Bool) (later fields : Ref → Dict V) (es : List Ref) (s : Session V W)
      → All (Holds fields s) es
      → ((c : Ref)
          → s.heap.next ≤ c
          → c < (clone_all crud es s).0.heap.next
          → later c ≡ (clone_all crud es s).0.heap.object c)
      → any (λ c. p (later c)) (clone_all crud es s).1 ≡ any (λ e. p (fields e)) es
  unfolding clone_all allocate write_object
  any-clone_all p later fields [] s h l = refl
  any-clone_all p later fields (e ∷ es) s h l =
      let s1 : Session V W = record s { heap = allocate s.heap (s.heap.object e) } in
      let head : Path (Dict V) (later s.heap.next) (fields e) =
        l s.heap.next (omega arith) (omega (arith, clone_all-next es s1))
        ∙ clone_all-below es s1 s.heap.next (omega arith)
        ∙ (ground arith)
        ∙ h.0.1 in
      let tail =
        any-clone_all p later fields es s1
          (All-imp (Holds fields s) (Holds fields s1) es (Holds-allocate fields s (s.heap.object e))
            h.1)
          (λ c a b. l c (omega (arith, a)) b) in
      rw (head, tail) refl

  -- Where deleting entities succeeds, the ids that they had before the call are taken out of the
  -- memo, whatever the call did to the entities: the ids are those of clones made before it. The
  -- rest of the memo is as the mapper left it. (The id of an entity is a function of its
  -- properties, the entities are there, and the call leaves alone the clones, which it is not
  -- given.)
  pub delete_entities-forgets :
      (f : Dict V → String)
      → ((h : Heap V) (e : Ref) → id_of crud h e ≡ f (h.object e))
      → (es : List Ref) (s s2 : Session V W) (out : Entities) → All (λ e. e < s.heap.next) es
      → (crud.delete_fn es (clone_all crud es s).0 ≡ (s2, returned out))
      → ((c : Ref)
          → s.heap.next ≤ c
          → c < (clone_all crud es s).0.heap.next
          → s2.heap.object c ≡ (clone_all crud es s).0.heap.object c)
      → ((delete_entities crud (many es) s).1 ≡ returned out)
        × ((k : Key)
            → memoized (delete_entities crud (many es) s).0.memo k ≡ (
                if any (λ e. same_key (key_under crud (f (s.heap.object e))) k) es
                then none
                else memoized s2.memo k))
  unfolding delete_entities
  delete_entities-forgets f own es s s2 out there call apart = (
    rw call (single out),
    λ k. rw call (
        unmemo_all-memoized (clone_all crud es s).1 s2 k
        ∙ ap (λ b. if b then none else memoized s2.memo k) (removed k)),
  )
    where
      single : (out : Entities) → Path Outcome (returned (single_out crud true out)) (returned out)
      single nothing = refl
      single (one e) = refl
      single (many rs) = refl

      by_fields :
          (k : Key) (cs : List Ref)
          → any (λ e. same_key (key_under crud (id_of crud s2.heap e)) k) cs
            ≡ any (λ c. same_key (key_under crud (f (s2.heap.object c))) k) cs
      by_fields k [] = refl
      by_fields k (c ∷ cs) = rw (own s2.heap c, by_fields k cs) refl

      removed :
          (k : Key)
          → any (λ e. same_key (key_under crud (id_of crud s2.heap e)) k) (clone_all crud es s).1
            ≡ any (λ e. same_key (key_under crud (f (s.heap.object e))) k) es
      removed k =
          by_fields k (clone_all crud es s).1
          ∙ any-clone_all (λ d. same_key (key_under crud (f d)) k) (λ c. s2.heap.object c)
              (λ e. s.heap.object e) es s
              (All-imp (λ e. e < s.heap.next) (Holds (λ e. s.heap.object e) s) es (λ e h. (h, refl))
                there)
              apart
