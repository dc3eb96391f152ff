-- ===== src/Facts/Query/Qualified.antt =====
-- src/facts.js: what the SQL LIKE of queryFact filters out, and what it leaves to isQualifiedForm.
use kb_graph.Base.{
  Bool, true, ◌&&◌, ◌||◌, ◌++◌, Option, Text, codes, text_eq, starts_with, ◌≡◌, arith,
}
use kb_graph.Facts.Graph.{Graph, Fact}
use kb_graph.Facts.Query.{
  prefix_pattern, is_qualified_form, is_edge, Direction, column, is_valid_at,
}

-- What SQLite documents of LIKE with ESCAPE, for these patterns: an escaped id, an escaped
-- underscore and a percent sign match every id that extends it by an underscore.
abbrev pub MatchesPrefixes : (Text → Text → Bool) → Type 0
MatchesPrefixes like =
    (eid id : Text) → starts_with (eid ++ codes "_") id ≡ true → like (prefix_pattern eid) id ≡ true

is_qualified_form-starts_with :
    (id eid : Text)
    → is_qualified_form id eid ≡ true
    → (text_eq id eid || starts_with (eid ++ codes "_") id) ≡ true
unfolding is_qualified_form
is_qualified_form-starts_with id eid h = ground arith

-- A row that the rule admits passes the pattern.
pub pattern_admits :
    (like : Text → Text → Bool) (eid id : Text)
    → MatchesPrefixes like
    → is_qualified_form id eid ≡ true
    → (text_eq id eid || like (prefix_pattern eid) id) ≡ true
pattern_admits like eid id m h = ground (arith, is_qualified_form-starts_with id eid h, m eid id)

pub is_edge_lem :
    (like : Text → Text → Bool) (g : Graph) (eid : Text) (as_of : Option Text)
    (direction : Direction) (f : Fact)
    → MatchesPrefixes like
    → is_edge like g eid (prefix_pattern eid) as_of direction f
      ≡ (is_valid_at as_of f && is_qualified_form (column direction f) eid)
unfolding is_edge
is_edge_lem like g eid as_of direction f m =
    ground (arith, pattern_admits like eid (column direction f) m)
