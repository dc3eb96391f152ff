-- ===== src/Facts/Graph.antt =====
-- src/facts.js: the tables of entities, aliases and facts, and `addFact`.
pub mod Invariant
pub mod Add
pub mod Again
use kb_graph.Base.{
  Bool, true, false, not, ◌&&◌, List, [], ◌∷◌, ◌++◌, Option, none, some, if◌then◌else◌, any, find,
  Dict, lookup, Text, text_eq, codes,
}
use kb_graph.Predicates.Registry.{Config, canonical_predicate}
use kb_graph.Facts.Ids.{canonical_entity_id}
use kb_graph.Facts.Dates.{or_null}

pub record Entity : Type 0 where
  pub id : Text
  pub name : Text

pub record Fact : Type 0 where
  pub id : Text
  pub subject : Text
  pub predicate : Text
  pub object : Text
  pub valid_from : Option Text
  pub valid_to : Option Text
  pub source : Option Text
  pub created_at : Text

-- The three tables; `aliases` maps an alias to its canonical id.
pub record Graph : Type 0 where
  pub entities : List Entity
  pub aliases : Dict Text
  pub facts : List Fact

-- The row of the alias table decides: its target, re-canonicalised, or the id itself.
abbrev pub follow : Option Text → Text → Text
follow none eid = eid
follow (some canonical) eid = canonical_entity_id canonical

unfoldable pub resolve_entity : Graph → Text → Text
resolve_entity g eid = follow (lookup eid g.aliases) eid

unfoldable pub entity_key : Graph → Text → Text
entity_key g name = resolve_entity g (canonical_entity_id name)

abbrev pub has_entity : List Entity → Text → Bool
has_entity es id = any (λ e. text_eq e.id id) es

-- `INSERT OR IGNORE INTO entities`
unfoldable pub put_entity : Text → Text → List Entity → List Entity
put_entity id name es =
    if has_entity es id then es else es ++ (record { id = id; name = name } ∷ [])

-- `valid_to IS NULL`
unfoldable pub is_live : Fact → Bool
is_live f = elim f.valid_to [ none ↦ true | some _ ↦ false ]

unfoldable pub names_triple : Text → Text → Text → Fact → Bool
names_triple s p o f = text_eq f.subject s && (text_eq f.predicate p && text_eq f.object o)

abbrev pub is_live_triple : Text → Text → Text → Fact → Bool
is_live_triple s p o f = is_live f && names_triple s p o f

-- The id of a row, with the clock in base 36 at its end.
unfoldable pub fact_id : Text → Text → Text → Text → Text
fact_id s p o stamp =
    codes "f_" ++ (s ++ (codes "_" ++ (p ++ (codes "_" ++ (o ++ (codes "_" ++ stamp))))))

pub data Added : Type 0 where
  already_exists : Text → Added
  added : Fact → Added
  -- The row's id is taken: the INSERT throws.
  id_taken : Text → Added

-- What the caller passes beside the triple, and the clock.
pub record AddOptions : Type 0 where
  pub valid_from : Option Text
  pub source : Option Text
  pub stamp : Text
  pub now : Text

unfoldable pub new_fact : Text → Text → Text → AddOptions → Fact
new_fact s p o opts = record {
  id = fact_id s p o opts.stamp;
  subject = s;
  predicate = p;
  object = o;
  valid_from = or_null opts.valid_from;
  valid_to = none;
  source = or_null opts.source;
  created_at = opts.now;
}

abbrev pub has_fact_id : List Fact → Text → Bool
has_fact_id fs id = any (λ f. text_eq f.id id) fs

-- The INSERT; `id` is the table's primary key.
unfoldable pub insert_fact : Graph → Fact → Graph × Added
insert_fact g f =
    if has_fact_id g.facts f.id
    then (g, id_taken f.id)
    else (record g { facts = g.facts ++ (f ∷ []) }, added f)

-- The two entities of a triple, created where they are not there.
unfoldable pub with_entities : Graph → Text → Text → Text → Text → Graph
with_entities g s subject o object = record g {
  entities = put_entity o object (put_entity s subject g.entities);
}

unfoldable pub add_row : Graph → Option Fact → Fact → Graph × Added
add_row g (some existing) f = (g, already_exists existing.id)
add_row g none f = insert_fact g f

unfoldable pub add_fact : Config → Graph → Text → Text → Text → AddOptions → Graph × Added
add_fact c g subject predicate object opts =
    let s = entity_key g subject in
    let o = entity_key g object in
    let p = canonical_predicate c predicate in
    let g' = with_entities g s subject o object in
    add_row g' (find (is_live_triple s p o) g'.facts) (new_fact s p o opts)
