-- ===== src/Facts/Query/Complete.antt =====
-- src/facts.js: queryFact answers with one edge for each fact that it should.
use kb_graph.Base.{true, false, List, [], ◌∷◌, none, some, ◌≡◌, In, Empty}
use kb_graph.Facts.Graph.{Graph, Fact, Entity}
use kb_graph.Facts.Query.{Direction, edges, Edge}

-- An edge of a fact: its ends carry the names of the entities with the ids of the fact's ends, and
-- the rest is the fact's own; it is current if the fact has no end.
pub record IsEdgeOf (direction : Direction) (es : List Entity) (f : Fact) (e : Edge) : Type 0 where
  pub from : (s : Entity) × In s es × (s.id ≡ f.subject) × (e.subject ≡ s.name)
  pub to : (o : Entity) × In o es × (o.id ≡ f.object) × (e.object ≡ o.name)
  pub way : e.direction ≡ direction
  pub predicate : e.predicate ≡ f.predicate
  pub starts : e.valid_from ≡ f.valid_from
  pub ends : e.valid_to ≡ f.valid_to
  pub current : e.current ≡ elim f.valid_to [ none ↦ true | some t ↦ false ]
  pub source : e.source ≡ f.source
  pub recorded : e.recorded_at ≡ f.created_at

-- The edges are those of the facts, one for each, in their order.
abbrev pub AreEdges : Direction → List Entity → List Fact → List Edge → Type 0
AreEdges direction es [] [] = Unit
AreEdges direction es (f ∷ fs) (e ∷ edges) =
    IsEdgeOf direction es f e × AreEdges direction es fs edges
AreEdges direction es [] (e ∷ edges) = Empty
AreEdges direction es (f ∷ fs) [] = Empty
