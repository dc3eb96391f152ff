-- ===== src/Facts/Query/Overview.antt =====
-- src/facts.js: what factStats and factTimeline tell of the graph.
use kb_graph.Base.{◌+◌, ◌||◌, List, [], ◌∷◌, Text, text_eq, length-filter-le, any, ◌≡◌, refl, arith}
use kb_graph.Predicates.Registry.{has}
use kb_graph.Facts.Graph.{Graph, Fact, is_live}
use kb_graph.Facts.Query.{fact_stats, insert_distinct, distinct_predicates}

has-insert_distinct :
    (p q : Text) (qs : List Text) → has (insert_distinct p qs) q ≡ (text_eq p q || has qs q)
unfolding insert_distinct has any
has-insert_distinct p q [] = refl
has-insert_distinct p q (x ∷ qs) = ground (arith, has-insert_distinct p q qs)

has-distinct_predicates :
    (p : Text) (fs : List Fact)
    → has (distinct_predicates fs) p ≡ any (λ f. text_eq f.predicate p) fs
unfolding distinct_predicates any
has-distinct_predicates p [] = unfold has in refl
has-distinct_predicates p (f ∷ fs) = ground (
  arith,
  has-insert_distinct f.predicate p (distinct_predicates fs),
  has-distinct_predicates p fs,
)

-- `factStats` counts each fact as current or expired, and its relationship types are exactly the
-- predicates of the facts.
pub fact_stats_lem :
    (g : Graph) (p : Text)
    → ((fact_stats g).current_facts + (fact_stats g).expired_facts ≡ (fact_stats g).total_facts)
      × (has (fact_stats g).relationship_types p ≡ any (λ f. text_eq f.predicate p) g.facts)
unfolding fact_stats
fact_stats_lem g p =
    (omega (arith, length-filter-le is_live g.facts), has-distinct_predicates p g.facts)
