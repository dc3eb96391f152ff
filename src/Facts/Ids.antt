-- ===== src/Facts/Ids.antt =====
-- src/facts.js: how a name becomes an entity id.
pub mod Spaced
pub mod Canonical
use mathlib.Core.List.{reverse}
use kb_graph.Base.{
  ℕ, Bool, true, false, not, ◌&&◌, ◌||◌, List, [], ◌∷◌, ◌++◌, ◌==◌, leb, if◌then◌else◌, filter,
  drop_while, drop_end, fold_runs, is_space, is_underscore, keep_end, lower_unit, strip_underscores,
  to_lower, trim, Text,
}

-- `[\s_./-]`
unfoldable pub separator : ℕ → Bool
separator c = is_space c || (c == b'_' || (c == b'.' || (c == b'/' || c == b'-')))

unfoldable pub is_apostrophe : ℕ → Bool
is_apostrophe c = c == 39

-- `name.toLowerCase().replace(/'/g, '')`
unfoldable pub bare : Text → Text
bare name = filter (λ c. not (is_apostrophe c)) (to_lower name)

unfoldable pub folded : Text → Text
folded name = strip_underscores (fold_runs separator false (bare name))

-- `a || b` on texts
abbrev pub or_else : Text → Text → Text
or_else [] b = b
or_else (c ∷ cs) b = c ∷ cs

unfoldable pub canonical_entity_id : Text → Text
canonical_entity_id name = or_else (folded name) (trim (bare name))
