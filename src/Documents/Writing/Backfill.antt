-- ===== src/Documents/Writing/Backfill.antt =====
-- src/db.js: what the backfill of tiers does with the table of source families as it stands.
use kb_graph.Base.{Bool, true, false, List, [], ◌∷◌, Option, some, Text, ◌≡◌, refl, arith}
use kb_graph.Tiers.{inferred, text_of, tier_rank, index_of, is_same, or_default}
use kb_graph.Tiers.Sources.{
  Family, harvest, manual, web, session, file, no_source, other, source_family, source_family_tier,
  tier_for_source,
}
use kb_graph.Tiers.Claims.Landing.{coerce_tier-text_of}
use kb_graph.Documents.Rows.{Document, Store}
use kb_graph.Documents.Writing.{raises, provenances, updates_of, apply_updates, backfill_tiers}

by_table : (f : Family) → or_default (source_family_tier f) ≡ inferred
unfolding or_default source_family_tier
by_table harvest = refl
by_table manual = refl
by_table web = refl
by_table session = refl
by_table file = refl
by_table no_source = refl
by_table other = refl

-- No source proves more than the floor.
pub tier_for_source_lem : (source : Option Text) → tier_for_source source ≡ inferred
unfolding tier_for_source
tier_for_source_lem source = by_table (source_family source)

floor_rank : tier_rank (some (text_of inferred)) ≡ 0
unfolding tier_rank index_of is_same
floor_rank = rw (coerce_tier-text_of inferred) refl

raises-nothing : (d : Document) (sources : List (Option Text)) → raises d sources ≡ []
unfolding raises
raises-nothing d [] = refl
raises-nothing d (source ∷ sources) =
    rw (tier_for_source_lem source, floor_rank) (ground (arith, raises-nothing d sources))

updates_of-nothing : (s : Store) (ds : List Document) → updates_of s ds ≡ []
unfolding updates_of
updates_of-nothing s [] = refl
updates_of-nothing s (d ∷ ds) =
    rw (raises-nothing d (provenances s d)) (ground (arith, updates_of-nothing s ds))

-- Whether it is applied or not, the backfill raises no row and leaves the store as it was, since no
-- family of sources proves more than the floor.
pub backfill_tiers_lem :
    (now : Text) (apply : Bool) (s : Store) → backfill_tiers now apply s ≡ (s, 0)
unfolding backfill_tiers apply_updates
backfill_tiers_lem now true s = rw (updates_of-nothing s s.documents) refl
backfill_tiers_lem now false s = rw (updates_of-nothing s s.documents) refl
