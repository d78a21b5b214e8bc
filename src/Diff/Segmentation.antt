-- ===== src/Diff/Segmentation.antt =====
-- The three maps of `map_segmentation`, as filters of the two given maps.
use iasql.Base.{
  String, ◌≡◌, refl, sym, false, Option, none, some, [], ◌∷◌, ◌++◌, inl, inr, append-nil,
  append_assoc, arith, eq_iff, if◌then◌else◌, Bool-cases, Option-cases, includes,
}
use iasql.Base.Members.{Nodup}
use iasql.Base.Dict.{Dict, get, has, keys, set_fresh, has-append, get-none, get-has}
use iasql.Diff.{segment_left, segment_right, map_segmentation}

module _ {V : Type 0} where
  -- The entries of `a` whose keys `b` lacks.
  abbrev pub missing : Dict V → Dict V → Dict V
  missing b [] = []
  missing b ((k, v) ∷ a) = let rest = missing b a in if has b k then rest else (k, v) ∷ rest

  abbrev pub shared_entry : String → V → Option V → Dict (V × V) → Dict (V × V)
  shared_entry k v none rest = rest
  shared_entry k v (some w) rest = (k, (v, w)) ∷ rest

  -- The keys that both have, with both values, in the order of `a`.
  abbrev pub shared : Dict V → Dict V → Dict (V × V)
  shared b [] = []
  shared b ((k, v) ∷ a) = shared_entry k v (get b k) (shared b a)

  abbrev Fresh : {W : Type 0} → Dict V → Dict W → Type 0
  Fresh [] d = Unit
  Fresh ((k, v) ∷ a) d = (has d k ≡ false) × Fresh a d

  Fresh-nil : (W : Type 0) (a : Dict V) → Fresh {W = W} a []
  unfolding has
  Fresh-nil W [] = tt
  Fresh-nil W ((k, v) ∷ a) = (refl, Fresh-nil W a)

  Fresh-snoc :
      {W : Type 0} (a : Dict V) (d : Dict W) (k : String) (w : W)
      → Fresh a d
      → includes (keys a) k ≡ false
      → Fresh a (d ++ (k, w) ∷ [])
  unfolding has
  Fresh-snoc [] d k w h n = tt
  Fresh-snoc ((j, v) ∷ a) d k w h n =
      ground (arith, has-append d ((k, w) ∷ []) j, eq_iff j k, eq_iff k j, Fresh-snoc a d k w)

  segment_right-eq :
      (a b right : Dict V)
      → Nodup (keys b)
      → Fresh b right
      → segment_right a b right ≡ right ++ missing a b
  segment_right-eq a [] right u f = sym (append-nil right)
  segment_right-eq a ((k, v) ∷ b) right u f = elim (Bool-cases (has a k)) [
    | inl e ↦ rw (e, segment_right-eq a b right u.1 f.1)
    | inr e ↦ rw (
      e,
      set_fresh right k v f.0,
      segment_right-eq a b (right ++ (k, v) ∷ []) u.1 (Fresh-snoc b right k v f.1 u.0),
      append_assoc,
    )
  ]

  segment_left-eq :
      (b a left : Dict V) (intersect : Dict (V × V))
      → Nodup (keys a)
      → Fresh a left
      → Fresh a intersect
      → segment_left b a (left, intersect) ≡ (left ++ missing b a, intersect ++ shared b a)
  segment_left-eq b [] left intersect u fl fi = rw (append-nil left, append-nil intersect)
  segment_left-eq b ((k, v) ∷ a) left intersect u fl fi = elim (Option-cases (get b k)) [
    | inl e ↦ rw (
      e,
      get-none b k e,
      set_fresh left k v fl.0,
      segment_left-eq b a (left ++ (k, v) ∷ []) intersect u.1 (Fresh-snoc a left k v fl.1 u.0) fi.1,
      append_assoc,
    )
    | inr (w, e) ↦ rw (
      e,
      get-has b k w e,
      set_fresh intersect k (v, w) fi.0,
      segment_left-eq b a left (intersect ++ (k, (v, w)) ∷ []) u.1 fl.1
          (Fresh-snoc a intersect k (v, w) fi.1 u.0),
      append_assoc,
    )
  ]

  -- Over maps that list each key once, the two loops compute these filters.
  pub map_segmentation-eq :
      (a b : Dict V)
      → Nodup (keys a)
      → Nodup (keys b)
      → map_segmentation a b
        ≡ record { left = missing b a; intersect = shared b a; right = missing a b }
  unfolding map_segmentation
  map_segmentation-eq a b ua ub = rw (
    segment_left-eq b a [] [] ua (Fresh-nil _ a) (Fresh-nil _ a),
    segment_right-eq a b [] ub (Fresh-nil _ b),
  )
