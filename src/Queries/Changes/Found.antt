-- ===== src/Queries/Changes/Found.antt =====
-- getChangesByEntity (modules/iasql_functions/iasql.ts) finds every entity that a change touches.
use iasql.Base.{
  ◌≡◌, refl, sym, ap, ◌∙◌, inl, inr, String, ◌==◌, eq_iff, Bool, true, false, subst, eq_refl,
  Option, none, some, List, [], ◌∷◌, ◌++◌, if◌then◌else◌,
}
use iasql.Base.Dict.{get, get-set}
use iasql.Base.Members.{In, In-append_left, In-append_right}
use iasql.AuditLog.{AuditLog}
use iasql.Queries.Metadata.{EntityMetadata, Schema}
use iasql.Queries.Recreate.{by_entity}
use iasql.Queries.Changes.Touched.{IsTouched, IsTouched-In}
use iasql.Queries.Changes.{
  ChangedEntity, ChangesByEntity, or_no_changes, entity_changes, push_changes, then_changes,
  changes_of_entities, mapped_changes, changes_by_entity, IsChanged,
}

module _ (schema : Schema) where
  push_changes-keeps :
      (acc : ChangesByEntity) (name : String) (es : List ChangedEntity) (k : String)
      (e : ChangedEntity)
      → IsChanged schema acc k e
      → IsChanged schema (push_changes schema acc name es) k e
  push_changes-keeps acc name [] k e i = i
  push_changes-keeps acc name (x ∷ es) k e i =
      subst (λ o. In e (or_no_changes o))
        (sym (get-set acc name k (or_no_changes (get acc name) ++ x ∷ es)))
        (by_key (name == k) refl)
    where
      by_key :
          (b : Bool)
          → (name == k) ≡ b
          → In e (
              or_no_changes
                (if b then some (or_no_changes (get acc name) ++ x ∷ es) else get acc k))
      by_key true q =
          In-append_left e (or_no_changes (get acc name)) (x ∷ es)
            (subst (λ j. IsChanged schema acc j e) (sym ((eq_iff name k).0 q)) i)
      by_key false q = i

  push_changes-adds :
      (acc : ChangesByEntity) (name : String) (es : List ChangedEntity) (e : ChangedEntity)
      → In e es
      → IsChanged schema (push_changes schema acc name es) name e
  push_changes-adds acc name [] e i = absurd i
  push_changes-adds acc name (x ∷ es) e i =
      subst (λ o. In e (or_no_changes o))
        (sym (get-set acc name name (or_no_changes (get acc name) ++ x ∷ es)))
        (rw (eq_refl name) (In-append_right e (or_no_changes (get acc name)) (x ∷ es) i))

  changes_of_entities-keeps :
      (c : AuditLog) (ms : List EntityMetadata) (acc r : ChangesByEntity) (k : String)
      (e : ChangedEntity)
      → changes_of_entities schema c ms acc ≡ some r
      → IsChanged schema acc k e
      → IsChanged schema r k e
  unfolding changes_of_entities
  changes_of_entities-keeps c [] acc r k e h i = let same : acc ≡ r = cc in rw same at i
  changes_of_entities-keeps c (m ∷ ms) acc r k e h i =
      by_changes (entity_changes schema m c) h (λ es g.
        changes_of_entities-keeps c ms (push_changes schema acc m.target_name es) r k e g
          (push_changes-keeps acc m.target_name es k e i))
    where
      by_changes :
          (o : Option (List ChangedEntity))
          → then_changes schema
              (λ es. changes_of_entities schema c ms (push_changes schema acc m.target_name es))
              o
            ≡ some r
          → ((es : List ChangedEntity)
              → changes_of_entities schema c ms (push_changes schema acc m.target_name es) ≡ some r
              → IsChanged schema r k e)
          → IsChanged schema r k e
      by_changes none h ih = absurd (cc (h))
      by_changes (some es) h ih = ih es h

  changes_of_entities-finds :
      (c : AuditLog) (ms : List EntityMetadata) (acc r : ChangesByEntity) (m : EntityMetadata)
      (e : ChangedEntity)
      → In m ms
      → IsTouched schema m c e
      → changes_of_entities schema c ms acc ≡ some r
      → IsChanged schema r m.target_name e
  unfolding changes_of_entities
  changes_of_entities-finds c [] acc r m e i f h = absurd i
  changes_of_entities-finds c (n ∷ ms) acc r m e (inl q) f h =
      by_changes (entity_changes schema n c) refl h
    where
      by_changes :
          (o : Option (List ChangedEntity))
          → entity_changes schema n c ≡ o
          → then_changes schema
              (λ es. changes_of_entities schema c ms (push_changes schema acc n.target_name es))
              o
            ≡ some r
          → IsChanged schema r m.target_name e
      by_changes none same g = absurd (cc (g))
      by_changes (some es) same g =
          changes_of_entities-keeps c ms (push_changes schema acc n.target_name es) r m.target_name
            e g
            (subst (λ x. IsChanged schema (push_changes schema acc n.target_name es) x e)
              (ap (λ (x : EntityMetadata). x.target_name) (sym q))
              (push_changes-adds acc n.target_name es e
                (IsTouched-In schema m c e es f (ap (λ x. entity_changes schema x c) q ∙ same))))
  changes_of_entities-finds c (n ∷ ms) acc r m e (inr i) f h =
      by_changes (entity_changes schema n c) h (λ fs g.
        changes_of_entities-finds c ms (push_changes schema acc n.target_name fs) r m e i f g)
    where
      by_changes :
          (o : Option (List ChangedEntity))
          → then_changes schema
              (λ es. changes_of_entities schema c ms (push_changes schema acc n.target_name es))
              o
            ≡ some r
          → ((fs : List ChangedEntity)
              → changes_of_entities schema c ms (push_changes schema acc n.target_name fs) ≡ some r
              → IsChanged schema r m.target_name e)
          → IsChanged schema r m.target_name e
      by_changes none h ih = absurd (cc (h))
      by_changes (some fs) h ih = ih fs h

  mapped_changes-keeps :
      (c : AuditLog) (o : Option (List EntityMetadata)) (acc r : ChangesByEntity) (k : String)
      (e : ChangedEntity)
      → mapped_changes schema c acc o ≡ some r
      → IsChanged schema acc k e
      → IsChanged schema r k e
  mapped_changes-keeps c none acc r k e h i = absurd (cc (h))
  mapped_changes-keeps c (some ms) acc r k e h i =
      changes_of_entities-keeps c (by_entity schema ms) acc r k e h i

  then_some :
      (next : ChangesByEntity → Option ChangesByEntity) (o : Option ChangesByEntity)
      (r : ChangesByEntity)
      → then_changes schema next o ≡ some r
      → (a : ChangesByEntity) × (o ≡ some a) × (next a ≡ some r)
  then_some next none r h = absurd (cc (h))
  then_some next (some a) r h = (a, refl, h)

  changes_by_entity-keeps :
      (cs : List AuditLog) (acc r : ChangesByEntity) (k : String) (e : ChangedEntity)
      → changes_by_entity schema cs acc ≡ some r
      → IsChanged schema acc k e
      → IsChanged schema r k e
  unfolding changes_by_entity
  changes_by_entity-keeps [] acc r k e h i = let same : acc ≡ r = cc in rw same at i
  changes_by_entity-keeps (c ∷ cs) acc r k e h i =
      let (a, f, g) =
        then_some (changes_by_entity schema cs)
          (mapped_changes schema c acc (schema.mapped c.table_name)) r h in
      changes_by_entity-keeps cs a r k e g
        (mapped_changes-keeps c (schema.mapped c.table_name) acc a k e f i)

  -- Where the changes by entity are found, they have every entity that a change touches, under the
  -- name of its class, for each entity that is mapped to the table of the change. Of its own table these
  -- are the one that the database now has under the primary columns of an inserted or updated row, and
  -- the one recreated from the row before; of a join table, the one that the database has for the row.
  pub changes_by_entity-finds :
      (cs : List AuditLog) (r : ChangesByEntity) (c : AuditLog) (ms : List EntityMetadata)
      (m : EntityMetadata) (e : ChangedEntity)
      → In c cs
      → schema.mapped c.table_name ≡ some ms
      → In m (by_entity schema ms)
      → IsTouched schema m c e
      → (acc : ChangesByEntity) → changes_by_entity schema cs acc ≡ some r
      → In e (or_no_changes (get r m.target_name))
  unfolding changes_by_entity
  changes_by_entity-finds [] r c ms m e i p q f acc h = absurd i
  changes_by_entity-finds (d ∷ cs) r c ms m e (inl same) p q f acc h =
      let (a, g, k) =
        then_some (changes_by_entity schema cs)
          (mapped_changes schema d acc (schema.mapped d.table_name)) r h in
      changes_by_entity-keeps cs a r m.target_name e k (
        changes_of_entities-finds d (by_entity schema ms) acc a m e q
          (subst (λ x. IsTouched schema m x e) same f)
          (sym (
              ap (mapped_changes schema d acc)
                (ap (λ (x : AuditLog). schema.mapped x.table_name) (sym same) ∙ p))
            ∙ g))
  changes_by_entity-finds (d ∷ cs) r c ms m e (inr i) p q f acc h =
      let (a, g, k) =
        then_some (changes_by_entity schema cs)
          (mapped_changes schema d acc (schema.mapped d.table_name)) r h in
      changes_by_entity-finds cs r c ms m e i p q f a k
