-- ===== src/Facts/Query.antt =====
-- src/facts.js: queryFact, factTimeline and factStats. SQLite's LIKE is a parameter.
pub mod Qualified
pub mod Concerned
pub mod Complete
pub mod Overview
pub mod Nearby
use kb_graph.Base.{
  ℕ, suc, ◌+◌, ◌-◌, Bool, true, false, not, ◌&&◌, ◌||◌, List, [], ◌∷◌, ◌++◌, Option, none, some,
  if◌then◌else◌, Text, codes, text_eq, map, filter, find, length, drop, take, leb, ◌==◌,
  starts_with,
}
use kb_graph.Facts.Dates.{text_lt, or_null}
use kb_graph.Facts.Graph.{Entity, Fact, Graph, entity_key, is_live, has_entity}

-- `prefixPattern`
abbrev pub is_wildcard : ℕ → Bool
is_wildcard c = c == 37 || c == 95 || c == 92

unfoldable pub escaped : Text → Text
escaped [] = []
escaped (c ∷ cs) = let rest = escaped cs in if is_wildcard c then 92 ∷ c ∷ rest else c ∷ rest

unfoldable pub prefix_pattern : Text → Text
prefix_pattern eid = escaped eid ++ codes "\\_%"

abbrev pub is_digit : ℕ → Bool
is_digit c = leb 48 c && leb c 57

-- `\d+(_\d+)*`, read from the left: whether all was right so far, and whether the last was a digit.
unfoldable pub digit_runs : Bool → Bool → Text → Bool
digit_runs right digit [] = right && digit
digit_runs right digit (c ∷ cs) =
    digit_runs (right && (is_digit c || (c == 95 && digit))) (is_digit c) cs

unfoldable pub number_qualifier : Text → Bool
number_qualifier [] = false
number_qualifier (c ∷ cs) =
    if c == 35 then digit_runs true false cs else digit_runs true false (c ∷ cs)

unfoldable pub is_qualified_form : Text → Text → Bool
is_qualified_form id eid =
    if text_eq id eid
    then true
    else if starts_with (eid ++ codes "_") id
    then not (number_qualifier (drop (suc (length eid)) id))
    else false

pub data Direction : Type 0 where
  outgoing incoming both : Direction

pub record Edge : Type 0 where
  pub direction : Direction
  pub subject : Text
  pub predicate : Text
  pub object : Text
  pub valid_from : Option Text
  pub valid_to : Option Text
  pub current : Bool
  pub source : Option Text
  pub recorded_at : Text

unfoldable pub starts_by : Option Text → Text → Bool
starts_by none t = true
starts_by (some start) t = not (text_lt t start)

unfoldable pub ends_by : Option Text → Text → Bool
ends_by none t = true
ends_by (some end) t = not (text_lt end t)

unfoldable pub is_valid_at : Option Text → Fact → Bool
is_valid_at none f = true
is_valid_at (some t) f = starts_by f.valid_from t && ends_by f.valid_to t

-- The column of an edge that the query matches.
unfoldable pub column : Direction → Fact → Text
column incoming f = f.object
column _ f = f.subject

-- `JOIN entities s ON f.subject = s.id JOIN entities o ON f.object = o.id`
unfoldable pub name_of : List Entity → Text → Option Entity
name_of es id = find (λ e. text_eq e.id id) es

unfoldable pub edge_of : Direction → Fact → Option Entity → Option Entity → List Edge → List Edge
edge_of direction f (some s) (some o) rest =
    record {
      direction = direction;
      subject = s.name;
      predicate = f.predicate;
      object = o.name;
      valid_from = f.valid_from;
      valid_to = f.valid_to;
      current = is_live f;
      source = f.source;
      recorded_at = f.created_at;
    }
    ∷ rest
edge_of direction f _ _ rest = rest

unfoldable pub joined : Direction → List Entity → List Fact → List Edge
joined direction es [] = []
joined direction es (f ∷ fs) =
    edge_of direction f (name_of es f.subject) (name_of es f.object) (joined direction es fs)

module _ (like : Text → Text → Bool) (g : Graph) (eid pattern : Text) (as_of : Option Text) where
  unfoldable pub is_edge : Direction → Fact → Bool
  is_edge direction f =
      (text_eq (column direction f) eid || like pattern (column direction f))
      && (is_valid_at as_of f && is_qualified_form (column direction f) eid)

  unfoldable pub edges : Direction → List Edge
  edges direction = joined direction g.entities (filter (is_edge direction) g.facts)

  unfoldable pub edges_both : Direction → List Edge
  edges_both outgoing = edges outgoing
  edges_both incoming = edges incoming
  edges_both both = edges outgoing ++ edges incoming

unfoldable pub query_fact :
    (Text → Text → Bool) → Graph → Text → Option Text → Direction → Bool → List Edge
query_fact like g name as_of direction exact =
    let eid = entity_key g name in
    edges_both like g eid (if exact then eid else prefix_pattern eid) (or_null as_of) direction

-- The rows that both joins keep, before the limit.
unfoldable pub has_ends : List Entity → Fact → Bool
has_ends es f = has_entity es f.subject && has_entity es f.object

-- `ORDER BY f.valid_from ASC NULLS LAST`
unfoldable pub starts_first : Option Text → Option Text → Bool
starts_first none none = true
starts_first none (some b) = false
starts_first (some a) none = true
starts_first (some a) (some b) = not (text_lt b a)

unfoldable pub insert_start : Fact → List Fact → List Fact
insert_start f [] = f ∷ []
insert_start f (h ∷ fs) =
    if starts_first f.valid_from h.valid_from then f ∷ h ∷ fs else h ∷ insert_start f fs

unfoldable pub by_start : List Fact → List Fact
by_start [] = []
by_start (f ∷ fs) = insert_start f (by_start fs)

unfoldable pub mentions : Option Text → Fact → Bool
mentions none f = true
mentions (some eid) f = text_eq f.subject eid || text_eq f.object eid

-- An entry of the timeline: an edge without its direction and the time of its record.
pub record Entry : Type 0 where
  pub subject : Text
  pub predicate : Text
  pub object : Text
  pub valid_from : Option Text
  pub valid_to : Option Text
  pub current : Bool
  pub source : Option Text

unfoldable pub entry_of : Edge → Entry
entry_of e = record {
  subject = e.subject;
  predicate = e.predicate;
  object = e.object;
  valid_from = e.valid_from;
  valid_to = e.valid_to;
  current = e.current;
  source = e.source;
}

unfoldable pub key_of : Graph → Option Text → Option Text
key_of g none = none
key_of g (some name) = some (entity_key g name)

unfoldable pub fact_timeline : Graph → Option Text → List Entry
fact_timeline g name =
    let rows = filter (has_ends g.entities) (filter (mentions (key_of g (or_null name))) g.facts) in
    map entry_of (joined both g.entities (take 100 (by_start rows)))

-- `SELECT DISTINCT predicate ... ORDER BY predicate`
unfoldable pub insert_distinct : Text → List Text → List Text
insert_distinct p [] = p ∷ []
insert_distinct p (q ∷ qs) =
    if text_eq p q then q ∷ qs else if text_lt p q then p ∷ q ∷ qs else q ∷ insert_distinct p qs

unfoldable pub distinct_predicates : List Fact → List Text
distinct_predicates [] = []
distinct_predicates (f ∷ fs) = insert_distinct f.predicate (distinct_predicates fs)

pub record Stats : Type 0 where
  pub entities : ℕ
  pub total_facts : ℕ
  pub current_facts : ℕ
  pub expired_facts : ℕ
  pub relationship_types : List Text

unfoldable pub fact_stats : Graph → Stats
fact_stats g =
    let total = length g.facts in
    let current = length (filter is_live g.facts) in
    record {
      entities = length g.entities;
      total_facts = total;
      current_facts = current;
      expired_facts = total - current;
      relationship_types = distinct_predicates g.facts;
    }
