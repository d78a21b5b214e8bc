-- ===== src/Crud.antt =====
-- The class Crud of modules/interfaces.ts: the functions of a mapper on one side (database or cloud)
-- behind the memo of the context, which holds one object for each side, entity and id. Objects are
-- references into a heap; arrays are values, so the functions of a mapper are taken not to write to
-- the array that they are given.
pub mod Memo
pub mod Identity
pub mod Cache
pub mod Forget
mod Tests
use iasql.Base.{
  ℕ, ◌+◌, String, ◌<>◌, ◌==◌, Bool, true, false, Option, none, some, List, [], ◌∷◌, beq,
  if◌then◌else◌,
}
use iasql.Base.Dict.{Dict, get, set, remove, from_entries_onto}
use iasql.Ids.{text_of}

abbrev pub Ref : Type 0
Ref = ℕ

-- The objects, each with its properties; `next` is the first reference that is not in use.
pub record Heap (V : Type 0) : Type 0 where
  pub next : Ref
  pub object : Ref → Dict V

-- ctx.memo, by destination, name of the entity, and id.
abbrev pub Memo : Type 0
Memo = Dict (Dict (Dict Ref))

-- What a function of a mapper can read and write: the objects, the memo, and the world outside.
pub record Session (V W : Type 0) : Type 0 where
  pub heap : Heap V
  pub memo : Memo
  pub world : W

-- void | E | E[]
pub data Entities : Type 0 where
  nothing : Entities
  one : Ref → Entities
  many : List Ref → Entities

pub data Outcome : Type 0 where
  returned : Entities → Outcome
  failed : String → Outcome

pub data Choice : Type 0 where
  update replace : Choice

abbrev pub Call : Type 0 → Type 0 → Type 0
Call V W = Session V W → Session V W × Outcome

-- The fields of Crud; `none` is a field that is not set.
pub record Crud (V W : Type 0) : Type 0 where
  pub create_fn : List Ref → Call V W
  pub read_fn : Option String → Call V W
  pub update_fn : List Ref → Call V W
  pub update_or_replace_fn : Option (Ref → Ref → Heap V → Choice)
  pub delete_fn : List Ref → Call V W
  pub dest : Option String
  pub entity : Option String
  pub entity_id : Option (Heap V → Ref → String)

-- x ?? 'What?'
abbrev pub or_what : Option String → String
or_what none = "What?"
or_what (some s) = s

-- x ?? {}
abbrev pub or_empty : {V : Type 0} → Option (Dict V) → Dict V
or_empty none = []
or_empty (some d) = d

-- ctx.memo[dest][entityName], an absent one as empty.
unfoldable pub ids_of : Memo → String → String → Dict Ref
ids_of m dest name = or_empty (get (or_empty (get m dest)) name)

-- ctx.memo[dest][entityName] = ids, where an absent ctx.memo[dest] is made.
unfoldable pub with_ids : Memo → String → String → Dict Ref → Memo
with_ids m dest name ids = set m dest (set (or_empty (get m dest)) name ids)

unfoldable pub write_object : {V : Type 0} → Heap V → Ref → Dict V → Heap V
write_object h r fields = record h { object = λ q. if beq r q then fields else h.object q }

unfoldable pub allocate : {V : Type 0} → Heap V → Dict V → Heap V
allocate h fields = record (write_object h h.next fields) { next = h.next + 1 }

-- !Array.isArray(e) ? [e] : e
abbrev pub listed : Entities → List Ref
listed nothing = []
listed (one e) = e ∷ []
listed (many es) = es

-- es[0]
abbrev pub first_of : List Ref → Entities
first_of [] = nothing
first_of (e ∷ es) = one e

abbrev pub is_array : Entities → Bool
is_array (many es) = true
is_array _ = false

module _ {V W : Type 0} (crud : Crud V W) where
  abbrev pub dest_name : String
  dest_name = or_what crud.dest

  abbrev pub entity_name : String
  entity_name = or_what crud.entity

  abbrev pub id_by : Option (Heap V → Ref → String) → Heap V → Ref → String
  id_by none h e = "What?"
  id_by (some f) h e = f h e

  unfoldable pub id_of : Heap V → Ref → String
  id_of h e = id_by crud.entity_id h e

  abbrev pub ids : Session V W → Dict Ref
  ids s = ids_of s.memo dest_name entity_name

  abbrev pub with_memo_ids : Session V W → Dict Ref → Session V W
  with_memo_ids s d = record s { memo = with_ids s.memo dest_name entity_name d }

  -- The body of the loop in memo, by the object memoized under the entity's id.
  abbrev pub memo_found : Ref → Session V W → Option Ref → Session V W × Ref
  memo_found e s none = (with_memo_ids s (set (ids s) (id_of s.heap e) e), e)
  memo_found e s (some real) = (
    record (with_memo_ids s (ids s)) {
      heap = write_object s.heap real (from_entries_onto (s.heap.object real) (s.heap.object e));
    },
    real,
  )

  unfoldable pub memo_one : Ref → Session V W → Session V W × Ref
  memo_one e s = memo_found e s (get (ids s) (id_of s.heap e))

  unfoldable pub memo_all : List Ref → Session V W → Session V W × List Ref
  memo_all [] s = (s, [])
  memo_all (e ∷ es) s = let (s1, r) = memo_one e s in let (s2, rs) = memo_all es s1 in (s2, r ∷ rs)

  -- memo; the flag is `Array.isArray(input) || input === undefined`.
  unfoldable pub memo : Entities → Bool → Session V W → Session V W × Entities
  memo nothing keeps_array s = (s, nothing)
  memo (one e) keeps_array s = let (s1, r) = memo_one e s in (s1, one r)
  memo (many es) keeps_array s =
      let (s1, rs) = memo_all es s in (s1, if keeps_array then many rs else first_of rs)

  unfoldable pub unmemo_all : List Ref → Session V W → Session V W
  unmemo_all [] s = s
  unmemo_all (e ∷ es) s = unmemo_all es (with_memo_ids s (remove (ids s) (id_of s.heap e)))

  -- `${this.entity?.name} ${this.dest} ${what} error: ${err.message}`
  unfoldable pub error_message : String → String → String
  error_message what message =
      text_of crud.entity <> " " <> text_of crud.dest <> " " <> what <> " error: " <> message

  -- What create and update do with the outcome of their function.
  abbrev pub memo_outcome :
      Bool → (String → Call V W) → Session V W × Outcome → Session V W × Outcome
  memo_outcome keeps_array on_error (s, returned out) =
      let (s1, r) = memo out keeps_array s in (s1, returned r)
  memo_outcome keeps_array on_error (s, failed message) = on_error message s

  abbrev pub fail_with : String → String → Call V W
  fail_with what message s = (s, failed (error_message what message))

  -- create of an array: memo has put the memoized objects into the array, which is `e` still.
  unfoldable pub create_many : List Ref → Call V W
  create_many es s =
      let (s1, rs) = memo_all es s in
      memo_outcome true (λ message s2. fail_with "create" message (unmemo_all rs s2))
        (crud.create_fn rs s1)

  -- create of an entity: the array `[e]` keeps the entity that was given.
  unfoldable pub create_one : Ref → Call V W
  create_one e s =
      memo_outcome false (λ message s2. fail_with "create" message (unmemo_all (e ∷ []) s2))
        (crud.create_fn (e ∷ []) (memo_one e s).0)

  unfoldable pub update_entities : Entities → Call V W
  update_entities e s = memo_outcome (is_array e) (fail_with "update") (crud.update_fn (listed e) s)

  -- es.map(e2 => ({ ...e2 }))
  unfoldable pub clone_all : List Ref → Session V W → Session V W × List Ref
  clone_all [] s = (s, [])
  clone_all (e ∷ es) s =
      let (s1, cs) = clone_all es (record s { heap = allocate s.heap (s.heap.object e) }) in
      (s1, s.heap.next ∷ cs)

  -- !Array.isArray(e) && Array.isArray(out) ? out[0] : out
  abbrev pub single_out : Bool → Entities → Entities
  single_out false (many out) = first_of out
  single_out _ out = out

  abbrev pub finish_delete : Bool → List Ref → Session V W × Outcome → Session V W × Outcome
  finish_delete of_array clones (s, returned out) =
      (unmemo_all clones s, returned (single_out of_array out))
  finish_delete of_array clones (s, failed message) = fail_with "delete" message s

  unfoldable pub delete_entities : Entities → Call V W
  delete_entities e s =
      let (s1, clones) = clone_all (listed e) s in
      finish_delete (is_array e) clones (crud.delete_fn (listed e) s1)

  -- updateOrReplace, with the constructor's default.
  unfoldable pub update_or_replace : Ref → Ref → Heap V → Choice
  update_or_replace prev next h = choose crud.update_or_replace_fn
    where
      choose : Option (Ref → Ref → Heap V → Choice) → Choice
      choose none = update
      choose (some f) = f prev next h

  -- delete ctx.memo[dest][entityName][id]
  abbrev pub forget : String → Session V W → Session V W
  forget id s = with_memo_ids s (remove (ids s) id)

  -- read with an id, after the call.
  abbrev pub finish_read : String → Session V W × Outcome → Session V W × Outcome
  finish_read id (s, failed message) = fail_with "read" message (forget id s)
  finish_read id (s, returned nothing) = (forget id s, returned nothing)
  finish_read id (s, returned (many [])) = (forget id s, returned nothing)
  finish_read id (s, returned (many (o ∷ []))) =
      let (s1, r) = memo (one o) false s in (s1, returned r)
  finish_read id (s, returned o) = let (s1, r) = memo o false s in (s1, returned r)

  -- An empty object is a placeholder: the call is made again.
  abbrev pub read_stored : String → Session V W → Ref → Dict V → Session V W × Outcome
  read_stored id s r [] = finish_read id (crud.read_fn (some id) s)
  read_stored id s r (f ∷ fs) = (s, returned (one r))

  -- A placeholder is stored before the call.
  abbrev pub placed : String → Session V W → Session V W
  placed id s = record (with_memo_ids s (set (ids s) id s.heap.next)) { heap = allocate s.heap [] }

  abbrev pub read_found : String → Session V W → Option Ref → Session V W × Outcome
  read_found id s none = finish_read id (crud.read_fn (some id) (placed id s))
  read_found id s (some r) = read_stored id (with_memo_ids s (ids s)) r (s.heap.object r)

  unfoldable pub read_id : String → Call V W
  read_id id s = read_found id s (get (ids s) id)

  abbrev pub finish_read_all : Session V W × Outcome → Session V W × Outcome
  finish_read_all (s, failed message) = fail_with "read" message s
  finish_read_all (s, returned nothing) = (s, returned nothing)
  finish_read_all (s, returned (many [])) = (s, returned (many []))
  finish_read_all (s, returned o) = let (s1, r) = memo o (is_array o) s in (s1, returned r)

  unfoldable pub read_all : Call V W
  read_all s = finish_read_all (crud.read_fn none s)

  -- read; the empty text is no id.
  unfoldable pub read : Option String → Call V W
  read none s = read_all s
  read (some id) s = if id == "" then read_all s else read_id id s
