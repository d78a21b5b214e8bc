-- ===== src/Crud/Identity.antt =====
-- One object for each id: what memo (modules/interfaces.ts) does to the objects memoized before, and
-- which objects it gives back.
use iasql.Base.{◌≡◌, String, Bool, true, false, Option, none, some, List, [], ◌∷◌, arith}
use iasql.Base.Dict.{get}
use iasql.Base.Members.{All}
use iasql.Crud.{
  Ref, Session, Crud, Entities, nothing, one, many, listed, first_of, id_of, ids, memo_one,
  memo_all, memo, memo_found,
}
use iasql.Crud.Memo.{Key, key_under, memoized, same_key-eq, same_key_refl, memo_one-memoized}

module _ {V W : Type 0} (crud : Crud V W) where
  -- The object is memoized under some id of this mapper's side and entity.
  abbrev pub IsMemoized : Session V W → Ref → Type 0
  IsMemoized s r = (id : String) × (memoized s.memo (key_under crud id) ≡ some r)

  abbrev pub Keeps : Session V W → Session V W → Type 0
  Keeps s s' = (k : Key) (r : Ref) → memoized s.memo k ≡ some r → memoized s'.memo k ≡ some r

  memo_found-real :
      (e : Ref) (s : Session V W) (o : Option Ref) (r : Ref)
      → o ≡ some r
      → (memo_found crud e s o).1 ≡ r
  memo_found-real e s none r h = absurd (cc)
  memo_found-real e s (some x) r h = ground arith

  pub memo_one-Keeps : (e : Ref) (s : Session V W) → Keeps s (memo_one crud e s).0
  unfolding memoized memo_one
  memo_one-Keeps e s k r h = ground (
    arith,
    h,
    memo_one-memoized crud e s k,
    same_key-eq (key_under crud (id_of crud s.heap e)) k,
    memo_found-real e s (get (ids crud s) (id_of crud s.heap e)) r,
  )

  memo_one-IsMemoized :
      (e : Ref) (s : Session V W) → IsMemoized (memo_one crud e s).0 (memo_one crud e s).1
  memo_one-IsMemoized e s = (
    id_of crud s.heap e,
    ground (
      arith,
      memo_one-memoized crud e s (key_under crud (id_of crud s.heap e)),
      same_key_refl (key_under crud (id_of crud s.heap e)),
    ),
  )

  pub memo_all-Keeps : (es : List Ref) (s : Session V W) → Keeps s (memo_all crud es s).0
  unfolding memo_all
  memo_all-Keeps [] s k r h = h
  memo_all-Keeps (e ∷ es) s k r h =
      memo_all-Keeps es (memo_one crud e s).0 k r (memo_one-Keeps e s k r h)

  pub memo_all-IsMemoized :
      (es : List Ref) (s : Session V W)
      → All (IsMemoized (memo_all crud es s).0) (memo_all crud es s).1
  unfolding memo_all
  memo_all-IsMemoized [] s = tt
  memo_all-IsMemoized (e ∷ es) s =
      let (id, m) = memo_one-IsMemoized e s in
      (
        (id, memo_all-Keeps es (memo_one crud e s).0 (key_under crud id) (memo_one crud e s).1 m),
        memo_all-IsMemoized es (memo_one crud e s).0,
      )

  first_of-All : (P : Ref → Type 0) (rs : List Ref) → All P rs → All P (listed (first_of rs))
  first_of-All P [] h = tt
  first_of-All P (r ∷ rs) h = (h.0, tt)

  -- Whatever memo is given, each id that had an object keeps that very object, and each entity that it
  -- gives back is the object memoized under one of the mapper's ids.
  pub memo-Keeps :
      (es : Entities) (keeps_array : Bool) (s : Session V W)
      → Keeps s (memo crud es keeps_array s).0
        × All (IsMemoized (memo crud es keeps_array s).0) (listed (memo crud es keeps_array s).1)
  unfolding memo
  memo-Keeps nothing keeps_array s = (λ k r h. h, tt)
  memo-Keeps (one e) keeps_array s = (memo_one-Keeps e s, (memo_one-IsMemoized e s, tt))
  memo-Keeps (many es) true s = (memo_all-Keeps es s, memo_all-IsMemoized es s)
  memo-Keeps (many es) false s = (
    memo_all-Keeps es s,
    first_of-All (IsMemoized (memo_all crud es s).0) (memo_all crud es s).1
        (memo_all-IsMemoized es s),
  )
