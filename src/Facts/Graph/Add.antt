-- ===== src/Facts/Graph/Add.antt =====
-- src/facts.js: what `addFact` does to the graph.
use kb_graph.Base.{
  true, false, ◌||◌, List, [], ◌∷◌, ◌++◌, Option, none, some, any, find, Text, text_eq, ◌≡◌, refl,
  arith, any-append, none_of_any, All-append, All-map, Bool-cases, inl, inr,
}
use kb_graph.Predicates.Registry.{Config, canonical_predicate}
use kb_graph.Facts.Graph.{
  Entity, Fact, Graph, has_entity, names_triple, is_live_triple, put_entity, add_fact, add_row,
  insert_fact, has_fact_id, new_fact, with_entities, entity_key, AddOptions,
}
use kb_graph.Facts.Graph.Invariant.{IsKeyed, IsLiveUnique, IsDated, IsDatedWith, HasEnds, IsSound}

pub has_entity-put_entity :
    (id name j : Text) (es : List Entity)
    → has_entity (put_entity id name es) j ≡ (text_eq id j || has_entity es j)
unfolding put_entity any
has_entity-put_entity id name j es = elim (Bool-cases (has_entity es id)) [
  | inl e ↦ rw e (ground arith)
  | inr e ↦ rw e (rw any-append (ground arith))
]

HasEnds-put_entity :
    (id name : Text) (es : List Entity) (f : Fact)
    → HasEnds es f
    → HasEnds (put_entity id name es) f
HasEnds-put_entity id name es f h =
    ground
      (arith, has_entity-put_entity id name f.subject es, has_entity-put_entity id name f.object es)

-- A live row goes behind the others if none of them names its triple.
IsLiveUnique-append :
    (fs : List Fact) (f : Fact)
    → IsLiveUnique fs
    → any (is_live_triple f.subject f.predicate f.object) fs ≡ false
    → IsLiveUnique (fs ++ f ∷ [])
unfolding any names_triple
IsLiveUnique-append [] f h k = ((λ _. refl), tt)
IsLiveUnique-append (x ∷ fs) f h k =
    (λ live. rw any-append (ground (arith, h.0 live)), IsLiveUnique-append fs f h.1 (ground arith))

IsDated-open : (f : Fact) → f.valid_to ≡ none → IsDated f
IsDated-open f h = rw h (open_row f.valid_from)
  where
    open_row : (start : Option Text) → IsDatedWith start none
    open_row none = tt
    open_row (some t) = tt

IsKeyed-append :
    (fs : List Fact) (f : Fact) → IsKeyed fs → has_fact_id fs f.id ≡ false → IsKeyed (fs ++ f ∷ [])
unfolding any
IsKeyed-append [] f h k = (refl, tt)
IsKeyed-append (x ∷ fs) f h k =
    (rw any-append (ground arith), IsKeyed-append fs f h.1 (ground arith))

-- The invariant holds of a graph with more entities.
with_entities-IsSound :
    (g : Graph) (s subject o object : Text)
    → IsSound g
    → IsSound (with_entities g s subject o object)
unfolding with_entities
with_entities-IsSound g s subject o object h = record {
  keyed = h.keyed;
  unique = h.unique;
  dated = h.dated;
  ends =
      All-map (HasEnds g.entities) _ g.facts
        (λ f e.
          HasEnds-put_entity o object (put_entity s subject g.entities) f
            (HasEnds-put_entity s subject g.entities f e))
        h.ends;
}

-- Both ends of the triple are there afterwards.
pub has-with_entities :
    (g : Graph) (s subject o object : Text)
    → (has_entity (with_entities g s subject o object).entities s ≡ true)
      × (has_entity (with_entities g s subject o object).entities o ≡ true)
unfolding with_entities
has-with_entities g s subject o object = (
  rw (has_entity-put_entity o object s, has_entity-put_entity s subject s) (ground arith),
  rw (has_entity-put_entity o object o) (ground arith),
)

insert_fact-IsSound :
    (g : Graph) (f : Fact)
    → IsSound g
    → f.valid_to ≡ none
    → HasEnds g.entities f
    → any (is_live_triple f.subject f.predicate f.object) g.facts ≡ false
    → IsSound (insert_fact g f).0
unfolding insert_fact
insert_fact-IsSound g f h open_row ends fresh = elim (Bool-cases (has_fact_id g.facts f.id)) [
  | inl e ↦ rw e h
  | inr e ↦ rw e (record {
    keyed = IsKeyed-append g.facts f h.keyed e;
    unique = IsLiveUnique-append g.facts f h.unique fresh;
    dated = All-append IsDated g.facts (f ∷ []) h.dated (IsDated-open f open_row, tt);
    ends = All-append (HasEnds g.entities) g.facts (f ∷ []) h.ends (ends, tt);
  })
]

-- `addFact` keeps a sound graph sound: no second live row for a triple, no interval of negative length,
-- no fact about an entity that is not there.
pub add_fact-IsSound :
    (c : Config) (g : Graph) (subject predicate object : Text) (opts : AddOptions)
    → IsSound g
    → IsSound (add_fact c g subject predicate object opts).0
unfolding add_fact add_row new_fact
add_fact-IsSound c g subject predicate object opts h =
    go (find (is_live_triple s p o) g'.facts) refl
  where
    s : Text
    s = entity_key g subject

    o : Text
    o = entity_key g object

    p : Text
    p = canonical_predicate c predicate

    g' : Graph
    g' = with_entities g s subject o object

    go :
        (found : Option Fact)
        → find (is_live_triple s p o) g'.facts ≡ found
        → IsSound (add_row g' found (new_fact s p o opts)).0
    go (some f) e = with_entities-IsSound g s subject o object h
    go none e =
        insert_fact-IsSound g' (new_fact s p o opts) (with_entities-IsSound g s subject o object h)
          refl (has-with_entities g s subject o object)
          (none_of_any (is_live_triple s p o) g'.facts e)
