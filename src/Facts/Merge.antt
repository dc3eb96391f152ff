-- ===== src/Facts/Merge.antt =====
-- src/facts.js: `dedupeLiveFacts` and `mergeEntity`.
pub mod Sorting
pub mod Loop
pub mod Dedupe
pub mod Aliases
pub mod Rows
pub mod Sound
use kb_graph.Base.{
  ℕ, ◌+◌, Bool, true, false, not, ◌&&◌, ◌||◌, List, [], ◌∷◌, ◌++◌, map, Option, none, some,
  if◌then◌else◌, Dict, put, Text, text_eq, filter, length,
}
use kb_graph.Predicates.Registry.{Config, canonical_predicate, has}
use kb_graph.Facts.Dates.{text_lt, or_null}
use kb_graph.Facts.Graph.{Entity, Fact, Graph, entity_key, put_entity, is_live}

-- `ORDER BY valid_from`: a row with no start comes first.
unfoldable pub start_le : Option Text → Option Text → Bool
start_le none b = true
start_le (some a) none = false
start_le (some a) (some b) = not (text_lt b a)

unfoldable pub insert_row : Fact → List Fact → List Fact
insert_row f [] = f ∷ []
insert_row f (g ∷ fs) =
    if start_le f.valid_from g.valid_from then f ∷ g ∷ fs else g ∷ insert_row f fs

unfoldable pub sort_rows : List Fact → List Fact
sort_rows [] = []
sort_rows (f ∷ fs) = insert_row f (sort_rows fs)

-- `AND (subject = ? OR object = ?)`, where an entity is given
unfoldable pub in_scope : Option Text → Fact → Bool
in_scope none f = true
in_scope (some id) f = text_eq f.subject id || text_eq f.object id

-- The folded triple, its parts separated by NUL.
unfoldable pub dedupe_key : Config → Fact → Text
dedupe_key c f = f.subject ++ (0 ∷ (canonical_predicate c f.predicate ++ (0 ∷ f.object)))

-- The ids of the rows whose key an earlier row has taken.
unfoldable pub dropped_ids : Config → List Fact → List Text → List Text
dropped_ids c [] kept = []
dropped_ids c (f ∷ fs) kept =
    let taken = has kept (dedupe_key c f) in
    let rest = dropped_ids c fs (if taken then kept else dedupe_key c f ∷ kept) in
    if taken then f.id ∷ rest else rest

abbrev pub selected : Option Text → Fact → Bool
selected scope f = is_live f && in_scope scope f

abbrev pub dropped_from : Config → List Fact → Option Text → List Text
dropped_from c fs scope = dropped_ids c (sort_rows (filter (selected scope) fs)) []

unfoldable pub dedupe_live_facts : Config → Graph → Option Text → Graph × ℕ
dedupe_live_facts c g scope =
    let dropped = dropped_from c g.facts (or_null scope) in
    (record g { facts = filter (λ f. not (has dropped f.id)) g.facts }, length dropped)

unfoldable pub rewrite_subject : Text → Text → Fact → Fact
rewrite_subject from to f = if text_eq f.subject from then record f { subject = to } else f

unfoldable pub rewrite_object : Text → Text → Fact → Fact
rewrite_object from to f = if text_eq f.object from then record f { object = to } else f

-- `UPDATE entity_aliases SET canonical = to WHERE canonical = from`
unfoldable pub repoint : Text → Text → Dict Text → Dict Text
repoint from to [] = []
repoint from to ((alias, canonical) ∷ m) =
    (alias, if text_eq canonical from then to else canonical) ∷ repoint from to m

pub data MergeResult : Type 0 where
  same_entity : MergeResult
  merged : Text → Text → ℕ → ℕ → MergeResult

abbrev pub rewritten : Graph → Text → Text → List Fact
rewritten g from to = map (rewrite_object from to) (map (rewrite_subject from to) g.facts)

unfoldable pub merged_tables : Graph → Text → Text → Text → Graph
merged_tables g from to to_name = record {
  entities = filter (λ e. not (text_eq e.id from)) (put_entity to to_name g.entities);
  aliases = repoint from to (put from to g.aliases);
  facts = rewritten g from to;
}

-- The rows that the two UPDATEs change.
abbrev pub rewrites : Graph → Text → Text → ℕ
rewrites g from to =
    length (filter (λ f. text_eq f.subject from) g.facts)
    + length (filter (λ f. text_eq f.object from) (map (rewrite_subject from to) g.facts))

unfoldable pub merge_ids : Config → Graph → Text → Text → Text → Graph × MergeResult
merge_ids c g from to to_name =
    if text_eq from to
    then (g, same_entity)
    else let (g', collapsed) = dedupe_live_facts c (merged_tables g from to to_name) (some to) in
      (g', merged from to (rewrites g from to) collapsed)

unfoldable pub merge_entity : Config → Graph → Text → Text → Graph × MergeResult
merge_entity c g from_name to_name =
    merge_ids c g (entity_key g from_name) (entity_key g to_name) to_name
