-- ===== src/Facts/Merge/Sound.antt =====
-- src/facts.js: a merge keeps the graph sound.
use kb_graph.Base.{
  true, false, not, List, [], ◌∷◌, map, Option, none, some, Text, text_eq, text_dec, ◌≡◌, ◌≢◌, ◌⊎◌,
  refl, sym, ◌∙◌, ap, arith, Bool-cases, inl, inr, All, All-filter, In, any, filter,
  In-of_In-filter, any_of_In, In-of_any,
}
use kb_graph.Predicates.Registry.{Config}
use kb_graph.Facts.Dates.{or_null}
use kb_graph.Facts.Graph.{
  Entity, Fact, Graph, has_entity, has_fact_id, entity_key, is_live, names_triple, is_live_triple,
  put_entity,
}
use kb_graph.Facts.Graph.Invariant.{
  IsKeyed, IsLiveUnique, IsDated, HasEnds, IsSound, filter-IsKeyed,
}
use kb_graph.Facts.Graph.Add.{has_entity-put_entity}
use kb_graph.Facts.Merge.{
  rewrite_subject, rewrite_object, merged_tables, merge_entity, dedupe_live_facts, dedupe_key,
  in_scope,
}
use kb_graph.Facts.Merge.Aliases.{merge_ids_same}
use kb_graph.Facts.Merge.Dedupe.{dedupe_unique}
use kb_graph.Facts.Merge.Rows.{rewrite, rewrite-Avoids, merge_ids_apart}

clash :
    (x h : Fact) (fs : List Fact)
    → (is_live x ≡ true → any (is_live_triple x.subject x.predicate x.object) fs ≡ false)
    → In h fs
    → is_live x ≡ true
    → is_live_triple x.subject x.predicate x.object h ≡ true
    → ⊥
clash x h fs u m live t =
    cc (u live, any_of_In (is_live_triple x.subject x.predicate x.object) h fs m t)

-- The row `h` is live and has the triple of `f`.
record SameTriple (f h : Fact) : Type 0 where
  live : is_live h ≡ true
  subject : h.subject ≡ f.subject
  predicate : h.predicate ≡ f.predicate
  object : h.object ≡ f.object

same_triple : (f h : Fact) → is_live_triple f.subject f.predicate f.object h ≡ true → SameTriple f h
unfolding names_triple
same_triple f h t = ground arith

same_scope :
    (scope : Option Text) (f h : Fact) → SameTriple f h → in_scope scope h ≡ in_scope scope f
unfolding in_scope
same_scope none f h s = refl
same_scope (some id) f h s = rw (s.subject, s.object)

same_key : (c : Config) (f h : Fact) → SameTriple f h → dedupe_key c f ≡ dedupe_key c h
unfolding dedupe_key
same_key c f h s = rw (s.subject, s.predicate, s.object)

-- Two live rows of a sound graph that name one triple are one row.
live_eq :
    (s p o : Text) (f h : Fact) (fs : List Fact)
    → IsLiveUnique fs
    → In f fs
    → In h fs
    → is_live_triple s p o f ≡ true
    → is_live_triple s p o h ≡ true
    → f ≡ h
unfolding names_triple
live_eq s p o f h [] u mf mh tf th = elim mf [ ]
live_eq s p o f h (x ∷ fs) u (inl a) (inl b) tf th = a ∙ sym b
live_eq s p o f h (x ∷ fs) u (inl a) (inr mh) tf th =
    absurd (clash x h fs u.0 mh (ground arith) (ground arith))
live_eq s p o f h (x ∷ fs) u (inr mf) (inl b) tf th =
    absurd (clash x f fs u.0 mf (ground arith) (ground arith))
live_eq s p o f h (x ∷ fs) u (inr mf) (inr mh) tf th = live_eq s p o f h fs u.1 mf mh tf th

unique_of_pairs :
    (fs : List Fact)
    → IsKeyed fs
    → ((f h : Fact)
        → In f fs
        → In h fs
        → is_live f ≡ true
        → is_live_triple f.subject f.predicate f.object h ≡ true
        → f.id ≡ h.id)
    → IsLiveUnique fs
unique_of_pairs [] k p = tt
unique_of_pairs (x ∷ fs) k p = (
  λ live. alone live (Bool-cases _),
  unique_of_pairs fs k.1 (λ f h mf mh. p f h (inr mf) (inr mh)),
)
  where
    alone :
        is_live x ≡ true
        → (any (is_live_triple x.subject x.predicate x.object) fs ≡ true)
          ⊎ (any (is_live_triple x.subject x.predicate x.object) fs ≡ false)
        → any (is_live_triple x.subject x.predicate x.object) fs ≡ false
    alone live (inr e) = e
    alone live (inl e) =
        let (h, m, t) = In-of_any (is_live_triple x.subject x.predicate x.object) fs e in
        let same = p x h (inl refl) (inr m) live t in
        cc (k.0, any_of_In (λ (y : Fact). text_eq y.id x.id) h fs m (ground arith))

out_of_scope :
    (to : Text) (f : Fact)
    → in_scope (or_null (some to)) f ≡ false
    → (f.subject ≢ to) × (f.object ≢ to)
unfolding in_scope
out_of_scope [] f h = cc
out_of_scope (c ∷ cs) f h = ground arith

module _ (from to : Text) where
  In-of_rewritten :
      (f : Fact) (fs : List Fact)
      → In f (map (rewrite_object from to) (map (rewrite_subject from to) fs))
      → (f0 : Fact) × In f0 fs × (f ≡ rewrite from to f0)
  In-of_rewritten f [] m = elim m [ ]
  In-of_rewritten f (x ∷ fs) (inl e) = (x, inl refl, e)
  In-of_rewritten f (x ∷ fs) (inr m) = let (y, n, e) = In-of_rewritten f fs m in (y, inr n, e)

  rewrite_untouched :
      (f : Fact)
      → ((rewrite from to f).subject ≢ to) × ((rewrite from to f).object ≢ to)
      → rewrite from to f ≡ f
  unfolding rewrite_object rewrite_subject
  rewrite_untouched f h = ground arith

  id-rewrite : (f : Fact) → (rewrite from to f).id ≡ f.id
  unfolding rewrite_object rewrite_subject
  id-rewrite f = ground arith

  start-rewrite : (f : Fact) → (rewrite from to f).valid_from ≡ f.valid_from
  unfolding rewrite_object rewrite_subject
  start-rewrite f = ground arith

  end-rewrite : (f : Fact) → (rewrite from to f).valid_to ≡ f.valid_to
  unfolding rewrite_object rewrite_subject
  end-rewrite f = ground arith

  has_fact_id-rewritten :
      (id : Text) (fs : List Fact)
      → has_fact_id (map (rewrite_object from to) (map (rewrite_subject from to) fs)) id
        ≡ has_fact_id fs id
  unfolding rewrite_object rewrite_subject any
  has_fact_id-rewritten id [] = refl
  has_fact_id-rewritten id (f ∷ fs) = ground (arith, has_fact_id-rewritten id fs)

  rewritten-IsKeyed :
      (fs : List Fact)
      → IsKeyed fs
      → IsKeyed (map (rewrite_object from to) (map (rewrite_subject from to) fs))
  rewritten-IsKeyed [] h = tt
  rewritten-IsKeyed (f ∷ fs) h =
      (rw (id-rewrite f) (has_fact_id-rewritten f.id fs ∙ h.0), rewritten-IsKeyed fs h.1)

  rewritten-IsDated :
      (fs : List Fact)
      → All IsDated fs
      → All IsDated (map (rewrite_object from to) (map (rewrite_subject from to) fs))
  rewritten-IsDated [] h = tt
  rewritten-IsDated (f ∷ fs) h = (rw (start-rewrite f, end-rewrite f) h.0, rewritten-IsDated fs h.1)

  has_entity-without :
      (j : Text) (es : List Entity)
      → j ≢ from
      → has_entity (filter (λ e. not (text_eq e.id from)) es) j ≡ has_entity es j
  unfolding any filter
  has_entity-without j [] h = refl
  has_entity-without j (e ∷ es) h = ground (arith, has_entity-without j es h)

  rewrite-HasEnds :
      (name : Text) (es : List Entity) (f : Fact)
      → from ≢ to
      → HasEnds es f
      → HasEnds (filter (λ e. not (text_eq e.id from)) (put_entity to name es)) (rewrite from to f)
  rewrite-HasEnds name es f d h = (
    rw
        (
          has_entity-without (rewrite from to f).subject (put_entity to name es)
              (rewrite-Avoids from to f d).0,
          has_entity-put_entity,
        )
        (unfold rewrite_object rewrite_subject in ground (arith, h.0)),
    rw
        (
          has_entity-without (rewrite from to f).object (put_entity to name es)
              (rewrite-Avoids from to f d).1,
          has_entity-put_entity,
        )
        (unfold rewrite_object rewrite_subject in ground (arith, h.1)),
  )

  rewritten-HasEnds :
      (name : Text) (es : List Entity) (fs : List Fact)
      → from ≢ to
      → All (HasEnds es) fs
      → All
          (HasEnds (filter (λ e. not (text_eq e.id from)) (put_entity to name es)))
          (map (rewrite_object from to) (map (rewrite_subject from to) fs))
  rewritten-HasEnds name es [] d h = tt
  rewritten-HasEnds name es (f ∷ fs) d h =
      (rewrite-HasEnds name es f d h.0, rewritten-HasEnds name es fs d h.1)

module _ (c : Config) (g : Graph) (from to name : Text) (apart : from ≢ to)
    (sound : IsSound g) where
  abbrev tables : Graph
  tables = merged_tables g from to name

  abbrev result : Graph
  result = (dedupe_live_facts c tables (some to)).0

  In-tables : (f : Fact) → In f result.facts → In f tables.facts
  unfolding dedupe_live_facts
  In-tables f m = (In-of_In-filter _ f tables.facts m).0

  untouched : (f : Fact) → In f result.facts → (f.subject ≢ to) × (f.object ≢ to) → In f g.facts
  untouched f m clear =
      let (f0, m0, e) = In-of_rewritten from to f g.facts (unfold merged_tables in In-tables f m) in
      let back = e ∙ rewrite_untouched from to f0 (rw (← e) clear) in rw back m0

  names_self : (f : Fact) → names_triple f.subject f.predicate f.object f ≡ true
  unfolding names_triple
  names_self f = ground arith

  one_row :
      (f h : Fact)
      → In f result.facts
      → In h result.facts
      → is_live f ≡ true
      → is_live_triple f.subject f.predicate f.object h ≡ true
      → f.id ≡ h.id
  one_row f h mf mh live t = elim (Bool-cases (in_scope (or_null (some to)) f)) [
    | inl e ↦
        dedupe_unique c tables (some to) f h mf mh (rw (live, e))
          (rw (same.live, same_scope (or_null (some to)) f h same, e)) (same_key c f h same)
    | inr e ↦
        let clear = out_of_scope to f e in
        let clear' = out_of_scope to h (same_scope (or_null (some to)) f h same ∙ e) in
        ap (λ (x : Fact). x.id)
          (live_eq f.subject f.predicate f.object f h g.facts sound.unique (untouched f mf clear)
            (untouched h mh clear') (rw live (names_self f)) t)
  ]
    where
      same : SameTriple f h
      same = same_triple f h t

  pub merged-IsSound : IsSound result
  merged-IsSound = record {
    keyed =
        unfold dedupe_live_facts merged_tables in
        filter-IsKeyed _ tables.facts (rewritten-IsKeyed from to g.facts sound.keyed);
    unique =
        unique_of_pairs result.facts
          (unfold dedupe_live_facts merged_tables in
            filter-IsKeyed _ tables.facts (rewritten-IsKeyed from to g.facts sound.keyed))
          one_row;
    dated =
        unfold dedupe_live_facts merged_tables in
        All-filter IsDated _ tables.facts (rewritten-IsDated from to g.facts sound.dated);
    ends =
        unfold dedupe_live_facts merged_tables in
        All-filter _ _ tables.facts
          (rewritten-HasEnds from to name g.entities g.facts apart sound.ends);
  }

-- A merge keeps a sound graph sound: it leaves no second live row for a triple, no fact about a missing
-- entity, and no interval of negative length.
pub merge_entity-IsSound :
    (c : Config) (g : Graph) (from_name to_name : Text)
    → IsSound g
    → IsSound (merge_entity c g from_name to_name).0
unfolding merge_entity
merge_entity-IsSound c g from_name to_name h =
    elim (text_dec (entity_key g from_name) (entity_key g to_name)) [
      | yes p ↦ rw (merge_ids_same c g (entity_key g from_name) (entity_key g to_name) to_name p) h
      | no d ↦
          rw (merge_ids_apart c g (entity_key g from_name) (entity_key g to_name) to_name d)
            (merged-IsSound c g (entity_key g from_name) (entity_key g to_name) to_name d h)
    ]
