-- ===== src/Facts/Query/Nearby.antt =====
-- src/facts.js: nearbyEntities. `String.localeCompare` is a parameter.
use kb_graph.Base.{
  ℕ, ◌<◌, Bool, true, false, not, ◌&&◌, ◌||◌, ◌==◌, ltb, leb, List, [], ◌∷◌, if◌then◌else◌, Text,
  text_eq, to_lower, filter, map, length, ◌≡◌, ◌≢◌, refl, ◌⊎◌, ◌↔◌, In, In-filter, In-of_In-filter,
  arith,
}
use kb_graph.Facts.Graph.{Graph, Fact, Entity, entity_key}
use kb_graph.Facts.Query.{is_digit, is_qualified_form}

abbrev is_alphanumeric : ℕ → Bool
is_alphanumeric c = (leb 97 c && leb c 122) || is_digit c

-- `.replace(/s$/, '')`
unfoldable pub drop_plural : Text → Text
drop_plural [] = []
drop_plural (c ∷ []) = if c == 115 then [] else c ∷ []
drop_plural (c ∷ d ∷ cs) = c ∷ drop_plural (d ∷ cs)

unfoldable pub loose_key : Text → Text
loose_key eid = drop_plural (filter is_alphanumeric (to_lower eid))

pub record Near : Type 0 where
  pub id : Text
  pub name : Text
  pub facts : ℕ

-- The row of an entity, with the number of facts that mention it.
unfoldable pub near_of : Graph → Entity → Near
near_of g e = record {
  id = e.id;
  name = e.name;
  facts = length (filter (λ (f : Fact). text_eq f.subject e.id || text_eq f.object e.id) g.facts);
}

unfoldable pub is_near : Text → Near → Bool
is_near eid n =
    not (is_qualified_form n.id eid || not (text_eq (loose_key n.id) (loose_key eid)))
    && ltb 0 n.facts

is_near_iff :
    (eid : Text) (n : Near)
    → (is_near eid n ≡ true)
      ↔ ((loose_key n.id ≡ loose_key eid) × (is_qualified_form n.id eid ≡ false) × (0 < n.facts))
unfolding is_near
is_near_iff eid n = ground arith

module _ (locale_le : Text → Text → Bool) where
  unfoldable pub near_le : Near → Near → Bool
  near_le a b = ltb b.facts a.facts || (a.facts == b.facts && locale_le a.id b.id)

  unfoldable pub insert_near : Near → List Near → List Near
  insert_near n [] = n ∷ []
  insert_near n (m ∷ ms) = if near_le n m then n ∷ m ∷ ms else m ∷ insert_near n ms

  unfoldable pub sort_near : List Near → List Near
  sort_near [] = []
  sort_near (n ∷ ns) = insert_near n (sort_near ns)

  unfoldable pub near_entities : Graph → Text → Text → List Near
  near_entities g eid [] = []
  near_entities g eid (c ∷ cs) = sort_near (filter (is_near eid) (map (near_of g) g.entities))

  unfoldable pub nearby_entities : Graph → Text → List Near
  nearby_entities g name = let eid = entity_key g name in near_entities g eid (loose_key eid)

  In-insert_near : (a n : Near) (ns : List Near) → In a (insert_near n ns) ↔ ((a ≡ n) ⊎ In a ns)
  unfolding insert_near
  In-insert_near a n [] = ground arith
  In-insert_near a n (m ∷ ns) = ground (arith, In-insert_near a n ns)

  In-sort_near : (a : Near) (ns : List Near) → In a (sort_near ns) ↔ In a ns
  unfolding sort_near
  In-sort_near a [] = ground arith
  In-sort_near a (n ∷ ns) = ground (arith, In-insert_near a n (sort_near ns), In-sort_near a ns)

  In-near_entities :
      (g : Graph) (eid : Text) (c : ℕ) (cs : Text) (n : Near)
      → In n (near_entities g eid (c ∷ cs))
        ↔ (In n (map (near_of g) g.entities) × (is_near eid n ≡ true))
  unfolding near_entities
  In-near_entities g eid c cs n = ground (
    arith,
    In-sort_near n (filter (is_near eid) (map (near_of g) g.entities)),
    In-filter (is_near eid) n (map (near_of g) g.entities),
    In-of_In-filter (is_near eid) n (map (near_of g) g.entities),
  )

  -- The list of `nearbyEntities` holds exactly the rows of the entities that hold facts, have the same loose key as the
  -- asked one and are neither it nor a qualified form of it, which the query covers by itself; and
  -- it is empty if the loose key is.
  pub nearby_entities_lem :
      (g : Graph) (name : Text) (n : Near)
      → In n (nearby_entities g name) ↔ (
          In n (map (near_of g) g.entities)
          × (loose_key (entity_key g name) ≢ [])
          × (loose_key n.id ≡ loose_key (entity_key g name))
          × (is_qualified_form n.id (entity_key g name) ≡ false)
          × (0 < n.facts))
  unfolding nearby_entities near_entities
  nearby_entities_lem g name n = go (loose_key (entity_key g name)) refl
    where
      go :
          (key : Text)
          → loose_key (entity_key g name) ≡ key
          → In n (near_entities g (entity_key g name) key) ↔ (
              In n (map (near_of g) g.entities)
              × (loose_key (entity_key g name) ≢ [])
              × (loose_key n.id ≡ loose_key (entity_key g name))
              × (is_qualified_form n.id (entity_key g name) ≡ false)
              × (0 < n.facts))
      go [] e = ground (arith, e)
      go (c ∷ cs) e = ground (
        arith,
        e,
        In-near_entities g (entity_key g name) c cs n,
        is_near_iff (entity_key g name) n,
      )
