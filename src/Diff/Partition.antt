-- ===== src/Diff/Partition.antt =====
-- What `find_diff` reports, entity by entity: the entity that a side holds under an id is the last
-- one that it lists with that id.
use iasql.Base.{
  String, ◌≡◌, refl, sym, ap, ◌∙◌, Bool, false, Option, none, some, List, [], ◌∷◌, map, inl, inr,
  ◌↔◌, arith, ◌==◌, eq_iff, if◌then◌else◌, Bool-cases, Option-cases, any,
}
use iasql.Base.Members.{Nodup, In}
use iasql.Base.Dict.{
  Dict, get, has, set, keys, values, from_entries, from_entries_onto, from_entries-Nodup, get-set,
  In-get, get-In, get-none, get-has,
}
use iasql.Diff.{find_diff, by_id, changed_pairs, Changed}
use iasql.Diff.Segmentation.{missing, shared, map_segmentation-eq}

module _ {V : Type 0} where
  missing-In :
      (b a : Dict V) (v : V)
      → In v (values (missing b a))
      → (k : String) × In (k, v) a × (has b k ≡ false)
  missing-In b [] v m = absurd m
  missing-In b ((k, w) ∷ a) v m = elim (Bool-cases (has b k)) [
    | inl e ↦ let (j, i, h) = missing-In b a v (rw e at m) in (j, inr i, h)
    | inr e ↦ here e (rw e at m) (missing-In b a v)
  ]
    where
      here :
          has b k ≡ false
          → In v (w ∷ values (missing b a))
          → (In v (values (missing b a)) → (k : String) × In (k, v) a × (has b k ≡ false))
          → (j : String) × In (j, v) ((k, w) ∷ a) × (has b j ≡ false)
      here e (inl q) ih = (k, inl (ap (λ x. (k, x)) q), e)
      here e (inr q) ih = let (j, i, h) = ih q in (j, inr i, h)

  In-missing :
      (b a : Dict V) (k : String) (v : V)
      → In (k, v) a
      → has b k ≡ false
      → In v (values (missing b a))
  In-missing b [] k v m h = absurd m
  In-missing b ((j, w) ∷ a) k v m h =
      ground (arith, In-missing b a k v, ap (λ (p : String × V). has b p.0))

  shared-In :
      (b a : Dict V) (p : V × V)
      → In p (values (shared b a))
      → (k : String) × In (k, p.0) a × (get b k ≡ some p.1)
  shared-In b [] p m = absurd m
  shared-In b ((k, w) ∷ a) p m = elim (Option-cases (get b k)) [
    | inl e ↦ let (j, i, h) = shared-In b a p (rw e at m) in (j, inr i, h)
    | inr (u, e) ↦ here u e (rw e at m) (shared-In b a p)
  ]
    where
      here :
          (u : V)
          → get b k ≡ some u
          → In p ((w, u) ∷ values (shared b a))
          → (In p (values (shared b a)) → (j : String) × In (j, p.0) a × (get b j ≡ some p.1))
          → (j : String) × In (j, p.0) ((k, w) ∷ a) × (get b j ≡ some p.1)
      here u e (inl q) ih =
          (k, inl (ap (λ (x : V × V). (k, x.0)) q), e ∙ ap (λ (x : V × V). some x.1) (sym q))
      here u e (inr q) ih = let (j, i, h) = ih q in (j, inr i, h)

  In-shared :
      (b a : Dict V) (k : String) (v w : V)
      → In (k, v) a
      → get b k ≡ some w
      → In (v, w) (values (shared b a))
  In-shared b [] k v w m h = absurd m
  In-shared b ((j, x) ∷ a) k v w (inl e) h =
      let q : get b j ≡ some w = ap (λ (p : String × V). get b p.0) (sym e) ∙ h in
      rw q (inl (ap (λ (p : String × V). (p.1, w)) e))
  In-shared b ((j, x) ∷ a) k v w (inr m) h = elim (Option-cases (get b j)) [
    | inl e ↦ rw e (In-shared b a k v w m h)
    | inr (u, e) ↦ rw e (inr (In-shared b a k v w m h))
  ]

module _ {E : Type 0} (comparator : E → E → Bool) where
  In-changed :
      (d c : E) (ps : List (E × E))
      → In (d, c) ps
      → comparator d c ≡ false
      → In (record { db = d; cloud = c }) (changed_pairs comparator ps)
  In-changed d c [] m h = absurd m
  In-changed d c ((x, y) ∷ ps) m h = ground (arith, In-changed d c ps)

  changed-In :
      (ch : Changed E) (ps : List (E × E))
      → In ch (changed_pairs comparator ps)
      → In (ch.db, ch.cloud) ps × (comparator ch.db ch.cloud ≡ false)
  changed-In ch [] m = absurd m
  changed-In ch ((x, y) ∷ ps) m = ground (arith, changed-In ch ps)

module _ {E : Type 0} (id_gen : E → String) where
  abbrev or_earlier : Option E → Option E → Option E
  or_earlier (some e) o = some e
  or_earlier none o = o

  -- The last entity of the list with the given id.
  abbrev pub last_with : String → List E → Option E
  last_with k [] = none
  last_with k (e ∷ es) = or_earlier (last_with k es) (if id_gen e == k then some e else none)

  abbrev pub id_taken : List E → String → Bool
  id_taken es k = any (λ e. id_gen e == k) es

  get-by_id_onto :
      (d : Dict E) (es : List E) (k : String)
      → get (from_entries_onto d (map (λ e. (id_gen e, e)) es)) k
        ≡ or_earlier (last_with k es) (get d k)
  unfolding from_entries_onto
  get-by_id_onto d [] k = refl
  get-by_id_onto d (e ∷ es) k =
      ground (arith, get-by_id_onto (set d (id_gen e) e) es k, get-set d (id_gen e) k e)

  get-by_id : (es : List E) (k : String) → get (by_id id_gen es) k ≡ last_with k es
  unfolding from_entries get
  get-by_id es k = ground (arith, get-by_id_onto [] es k)

  id_gen-last_with : (es : List E) (k : String) (e : E) → last_with k es ≡ some e → id_gen e ≡ k
  id_gen-last_with [] k e h = absurd (cc)
  id_gen-last_with (x ∷ es) k e h = ground (arith, eq_iff (id_gen x) k, id_gen-last_with es k e)

  last_with-none : (es : List E) (k : String) → id_taken es k ≡ false → last_with k es ≡ none
  last_with-none [] k h = refl
  last_with-none (x ∷ es) k h = ground (arith, last_with-none es k)

  last_with-none_taken : (es : List E) (k : String) → last_with k es ≡ none → id_taken es k ≡ false
  last_with-none_taken [] k h = refl
  last_with-none_taken (x ∷ es) k h = ground (arith, last_with-none_taken es k)

module _ {E : Type 0} (dbs clouds : List E) (id_gen : E → String) (comparator : E → E → Bool) where
  keys-by_id : (es : List E) → Nodup (keys (by_id id_gen es))
  keys-by_id es = from_entries-Nodup (map (λ e. (id_gen e, e)) es)

  pub find_diff-eq : find_diff dbs clouds id_gen comparator ≡ record {
    entities_in_db_only = values (missing (by_id id_gen clouds) (by_id id_gen dbs));
    entities_in_aws_only = values (missing (by_id id_gen dbs) (by_id id_gen clouds));
    entities_changed =
        changed_pairs comparator (values (shared (by_id id_gen clouds) (by_id id_gen dbs)));
  }
  unfolding find_diff
  find_diff-eq = rw (
      map_segmentation-eq (by_id id_gen dbs) (by_id id_gen clouds) (keys-by_id dbs)
        (keys-by_id clouds))

  -- What one side lists and the other does not.
  abbrev pub OnlyIn : E → List E → List E → Type 0
  OnlyIn e here there =
      (last_with id_gen (id_gen e) here ≡ some e) × (id_taken id_gen there (id_gen e) ≡ false)

  has-by_id : (es : List E) (k : String) → has (by_id id_gen es) k ≡ id_taken id_gen es k
  has-by_id es k = elim (Option-cases (last_with id_gen k es)) [
    | inl e ↦
        get-none (by_id id_gen es) k (get-by_id id_gen es k ∙ e)
        ∙ sym (last_with-none_taken id_gen es k e)
    | inr (x, e) ↦ elim (Bool-cases (id_taken id_gen es k)) [
      | inl q ↦ get-has (by_id id_gen es) k x (get-by_id id_gen es k ∙ e) ∙ sym q
      | inr q ↦ absurd (cc (last_with-none id_gen es k q))
    ]
  ]

  missing-OnlyIn :
      (here there : List E) (e : E)
      → In e (values (missing (by_id id_gen there) (by_id id_gen here))) ↔ OnlyIn e here there
  missing-OnlyIn here there e = (into, out)
    where
      into : In e (values (missing (by_id id_gen there) (by_id id_gen here))) → OnlyIn e here there
      into m =
          let (k, i, h) = missing-In (by_id id_gen there) (by_id id_gen here) e m in
          let found : last_with id_gen k here ≡ some e =
            sym (get-by_id id_gen here k) ∙ get-In (by_id id_gen here) k e (keys-by_id here) i in
          let same : id_gen e ≡ k = id_gen-last_with id_gen here k e found in
          rw same (found, sym (has-by_id there k) ∙ h)

      out : OnlyIn e here there → In e (values (missing (by_id id_gen there) (by_id id_gen here)))
      out (found, free) =
          In-missing (by_id id_gen there) (by_id id_gen here) (id_gen e) e
            (In-get (by_id id_gen here) (id_gen e) e (get-by_id id_gen here (id_gen e) ∙ found))
            (has-by_id there (id_gen e) ∙ free)

  -- An entity is reported as missing on the other side exactly when it is the last of its side with
  -- its id and the other side lists no entity with that id; for both sides alike.
  pub find_diff-only :
      (e : E)
      → (In e (find_diff dbs clouds id_gen comparator).entities_in_db_only ↔ OnlyIn e dbs clouds)
        × (In e (find_diff dbs clouds id_gen comparator).entities_in_aws_only ↔ OnlyIn e clouds dbs)
  find_diff-only e = rw find_diff-eq (missing-OnlyIn dbs clouds e, missing-OnlyIn clouds dbs e)

  -- A pair is reported as changed exactly when its halves are what the two sides hold under one id
  -- and the comparator tells them apart.
  pub find_diff-changed :
      (ch : Changed E)
      → In ch (find_diff dbs clouds id_gen comparator).entities_changed ↔ (
          (last_with id_gen (id_gen ch.db) dbs ≡ some ch.db)
          × (last_with id_gen (id_gen ch.db) clouds ≡ some ch.cloud)
          × (comparator ch.db ch.cloud ≡ false))
  find_diff-changed ch = rw find_diff-eq (into, out)
    where
      into :
          In ch
            (changed_pairs comparator (values (shared (by_id id_gen clouds) (by_id id_gen dbs))))
          → (last_with id_gen (id_gen ch.db) dbs ≡ some ch.db)
            × (last_with id_gen (id_gen ch.db) clouds ≡ some ch.cloud)
            × (comparator ch.db ch.cloud ≡ false)
      into m =
          let (p, differ) = changed-In comparator ch _ m in
          let (k, i, h) = shared-In (by_id id_gen clouds) (by_id id_gen dbs) (ch.db, ch.cloud) p in
          let found : last_with id_gen k dbs ≡ some ch.db =
            sym (get-by_id id_gen dbs k) ∙ get-In (by_id id_gen dbs) k ch.db (keys-by_id dbs) i in
          let same : id_gen ch.db ≡ k = id_gen-last_with id_gen dbs k ch.db found in
          rw same (found, sym (get-by_id id_gen clouds k) ∙ h, differ)

      out :
          (last_with id_gen (id_gen ch.db) dbs ≡ some ch.db)
            × (last_with id_gen (id_gen ch.db) clouds ≡ some ch.cloud)
            × (comparator ch.db ch.cloud ≡ false)
          → In ch
              (changed_pairs comparator (values (shared (by_id id_gen clouds) (by_id id_gen dbs))))
      out (found, other, differ) =
          In-changed comparator ch.db ch.cloud _
            (In-shared (by_id id_gen clouds) (by_id id_gen dbs) (id_gen ch.db) ch.db ch.cloud
              (In-get (by_id id_gen dbs) (id_gen ch.db) ch.db
                (get-by_id id_gen dbs (id_gen ch.db) ∙ found))
              (get-by_id id_gen clouds (id_gen ch.db) ∙ other))
            differ
