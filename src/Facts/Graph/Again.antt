-- ===== src/Facts/Graph/Again.antt =====
-- src/facts.js: `addFact` of a triple that is live.
use kb_graph.Base.{
  Bool, true, List, [], ◌∷◌, ◌++◌, Option, none, some, find, Text, ◌≡◌, refl, arith, ◌⊎◌, inl, inr,
  In, test_of_find, eq_of_text_eq, Bool-cases, ◌≢◌,
}
use kb_graph.Predicates.Registry.{Config, canonical_predicate}
use kb_graph.Facts.Graph.{
  Entity, Fact, Graph, has_entity, is_live, names_triple, is_live_triple, put_entity, add_fact,
  add_row, insert_fact, has_fact_id, new_fact, with_entities, entity_key, resolve_entity, Added,
  added, already_exists, id_taken, AddOptions,
}
use kb_graph.Facts.Graph.Add.{has-with_entities}

put_entity_present :
    (id name : Text) (es : List Entity) → has_entity es id ≡ true → put_entity id name es ≡ es
unfolding put_entity
put_entity_present id name es h = rw h

-- With its triple live, `addFact` answers with the row that is found and changes nothing.
add_fact_present :
    (c : Config) (g : Graph) (subject predicate object : Text) (opts : AddOptions) (f : Fact)
    → has_entity g.entities (entity_key g subject) ≡ true
    → has_entity g.entities (entity_key g object) ≡ true
    → find
        (is_live_triple
          (entity_key g subject)
          (canonical_predicate c predicate)
          (entity_key g object))
        g.facts
      ≡ some f
    → add_fact c g subject predicate object opts ≡ (g, already_exists f.id)
unfolding add_fact with_entities add_row
add_fact_present c g subject predicate object opts f hs ho found = rw (
  put_entity_present (entity_key g subject) subject g.entities hs,
  put_entity_present (entity_key g object) object g.entities ho,
  found,
)

-- What a row's addition leaves alone, the row that it leaves behind, and its answer.
record Kept (g : Graph) (out : Graph × Added) (s p o : Text) : Type 0 where
  aliases : out.0.aliases ≡ g.aliases
  entities : out.0.entities ≡ g.entities
  row : Fact
  found : find (is_live_triple s p o) out.0.facts ≡ some row
  answer : (out.1 ≡ added row) ⊎ (out.1 ≡ already_exists row.id)

find_snoc {ℓ} :
    {A : Type ℓ} (p : A → Bool) (xs : List A) (a : A)
    → find p xs ≡ none
    → p a ≡ true
    → find p (xs ++ (a ∷ [])) ≡ some a
unfolding find
find_snoc p [] a h k = rw k refl
find_snoc p (x ∷ xs) a h k = ground (arith, find_snoc p xs a)

new_fact_live :
    (s p o : Text) (opts : AddOptions) → is_live_triple s p o (new_fact s p o opts) ≡ true
unfolding new_fact is_live names_triple
new_fact_live s p o opts = ground arith

insert_fact-Kept :
    (g : Graph) (s p o : Text) (opts : AddOptions)
    → find (is_live_triple s p o) g.facts ≡ none
    → ((id : Text) → (insert_fact g (new_fact s p o opts)).1 ≢ id_taken id)
    → Kept g (insert_fact g (new_fact s p o opts)) s p o
unfolding insert_fact
insert_fact-Kept g s p o opts absent h =
    elim (Bool-cases (has_fact_id g.facts (new_fact s p o opts).id)) [
      | inl e ↦ absurd (h (new_fact s p o opts).id (rw e))
      | inr e ↦ rw e (record {
        aliases = refl;
        entities = refl;
        row = new_fact s p o opts;
        found = find_snoc (is_live_triple s p o) g.facts _ absent (new_fact_live s p o opts);
        answer = inl refl;
      })
    ]

add_row-Kept :
    (g : Graph) (s p o : Text) (opts : AddOptions) (found : Option Fact)
    → find (is_live_triple s p o) g.facts ≡ found
    → ((id : Text) → (add_row g found (new_fact s p o opts)).1 ≢ id_taken id)
    → Kept g (add_row g found (new_fact s p o opts)) s p o
unfolding add_row
add_row-Kept g s p o opts (some f) e h = record {
  aliases = refl;
  entities = refl;
  row = f;
  found = e;
  answer = inr refl;
}
add_row-Kept g s p o opts none e h = insert_fact-Kept g s p o opts e h

entity_key_of_aliases :
    (g r : Graph) (name : Text) → r.aliases ≡ g.aliases → entity_key r name ≡ entity_key g name
unfolding entity_key resolve_entity
entity_key_of_aliases g r name h = rw h

live_triple :
    (s p o : Text) (f : Fact)
    → is_live_triple s p o f ≡ true
    → (is_live f ≡ true) × ((f.subject ≡ s) × (f.predicate ≡ p) × (f.object ≡ o))
unfolding names_triple
live_triple s p o f h = (
  ground arith,
  (
    eq_of_text_eq f.subject s (ground arith),
    eq_of_text_eq f.predicate p (ground arith),
    eq_of_text_eq f.object o (ground arith),
  ),
)

-- After an `addFact` that was not refused for its row id, a live row of the triple is in the graph:
-- the row it added, or the one whose id it answered with. A second `addFact` of the triple, in any
-- spelling that leads to the same entities and the same canonical predicate, changes nothing and
-- answers with the id of that row.
pub add_fact_again :
    (c : Config) (g : Graph) (subject predicate object : Text) (opts : AddOptions)
    (subject' predicate' object' : Text) (opts' : AddOptions)
    → ((id : Text) → (add_fact c g subject predicate object opts).1 ≢ id_taken id)
    → entity_key g subject' ≡ entity_key g subject
    → canonical_predicate c predicate' ≡ canonical_predicate c predicate
    → entity_key g object' ≡ entity_key g object
    → (f : Fact) × In f (add_fact c g subject predicate object opts).0.facts
      × (is_live f ≡ true)
      × ((f.subject ≡ entity_key g subject)
          × (f.predicate ≡ canonical_predicate c predicate)
          × (f.object ≡ entity_key g object))
      × (((add_fact c g subject predicate object opts).1 ≡ added f)
          ⊎ ((add_fact c g subject predicate object opts).1 ≡ already_exists f.id))
      × (add_fact c (add_fact c g subject predicate object opts).0 subject' predicate' object' opts'
          ≡ ((add_fact c g subject predicate object opts).0, already_exists f.id))
add_fact_again c g subject predicate object opts subject' predicate' object' opts' h hs hp ho =
    let (test, f_in) = test_of_find (is_live_triple s p o) r.facts kept.row kept.found in
    let (live, named) = live_triple s p o kept.row test in
    (
      kept.row,
      f_in,
      live,
      named,
      kept.answer,
      add_fact_present c r subject' predicate' object' opts' kept.row
          (rw (key subject', hs, kept.entities) ends.0) (rw (key object', ho, kept.entities) ends.1)
          (rw (key subject', key object', hs, hp, ho) kept.found),
    )
  where
    s : Text
    s = entity_key g subject

    p : Text
    p = canonical_predicate c predicate

    o : Text
    o = entity_key g object

    r : Graph
    r = (add_fact c g subject predicate object opts).0

    g' : Graph
    g' = with_entities g s subject o object

    kept : Kept g' (add_fact c g subject predicate object opts) s p o
    kept = unfold add_fact in add_row-Kept g' _ _ _ opts _ refl h

    key : (name : Text) → entity_key r name ≡ entity_key g name
    key name = entity_key_of_aliases g r name (unfold with_entities in kept.aliases)

    ends : (has_entity g'.entities s ≡ true) × (has_entity g'.entities o ≡ true)
    ends = has-with_entities g s subject o object
