-- ===== src/Facts/Merge/Rows.antt =====
-- src/facts.js: the rows after a merge.
use kb_graph.Base.{
  false, not, List, [], ◌∷◌, map, some, Text, text_eq, text_dec, ◌≡◌, ◌≢◌, refl, arith, All,
  All-filter, any, filter, text_eq_ne,
}
use kb_graph.Predicates.Registry.{Config}
use kb_graph.Facts.Graph.{Entity, Fact, Graph, has_entity, entity_key}
use kb_graph.Facts.Merge.{
  rewrite_subject, rewrite_object, merged_tables, merge_ids, merge_entity, dedupe_live_facts,
}

-- A fact that does not mention an entity.
abbrev pub Avoids : Text → Fact → Type 0
Avoids id f = (f.subject ≢ id) × (f.object ≢ id)

abbrev pub rewrite : Text → Text → Fact → Fact
rewrite from to f = rewrite_object from to (rewrite_subject from to f)

pub rewrite-Avoids : (from to : Text) (f : Fact) → from ≢ to → Avoids from (rewrite from to f)
unfolding rewrite_object rewrite_subject
rewrite-Avoids from to f h = ground arith

rewritten-Avoids :
    (from to : Text) (fs : List Fact)
    → from ≢ to
    → All (Avoids from) (map (rewrite_object from to) (map (rewrite_subject from to) fs))
rewritten-Avoids from to [] h = tt
rewritten-Avoids from to (f ∷ fs) h = (rewrite-Avoids from to f h, rewritten-Avoids from to fs h)

no_entity :
    (id : Text) (es : List Entity) → has_entity (filter (λ e. not (text_eq e.id id)) es) id ≡ false
unfolding filter any
no_entity id [] = refl
no_entity id (e ∷ es) = ground (arith, no_entity id es)

pub merge_ids_apart :
    (c : Config) (g : Graph) (from to to_name : Text)
    → from ≢ to
    → (merge_ids c g from to to_name).0
      ≡ (dedupe_live_facts c (merged_tables g from to to_name) (some to)).0
unfolding merge_ids
merge_ids_apart c g from to to_name h = elim (text_dec from to) [
  | yes p ↦ absurd (h p)
  | no d ↦ rw (text_eq_ne from to d)
]

-- After a merge of two different entities no fact mentions the old id, and its row is gone.
pub merge_entity_forgets :
    (c : Config) (g : Graph) (from_name to_name : Text)
    → entity_key g from_name ≢ entity_key g to_name
    → All (Avoids (entity_key g from_name)) (merge_entity c g from_name to_name).0.facts
      × (has_entity (merge_entity c g from_name to_name).0.entities (entity_key g from_name)
          ≡ false)
unfolding merge_entity merged_tables dedupe_live_facts
merge_entity_forgets c g from_name to_name h =
    rw (merge_ids_apart c g (entity_key g from_name) (entity_key g to_name) to_name h) (
      All-filter (Avoids (entity_key g from_name)) _ _
          (rewritten-Avoids (entity_key g from_name) (entity_key g to_name) g.facts h),
      no_entity (entity_key g from_name) _,
    )
