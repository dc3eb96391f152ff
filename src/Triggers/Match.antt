-- ===== src/Triggers/Match.antt =====
-- src/trigger-match.js: which patterns of the index a command matches.
pub mod Policy
use kb_graph.Base.{
  ℕ, suc, Bool, true, false, not, ◌&&◌, ◌||◌, ◌==◌, leb, ltb, min, List, [], ◌∷◌, ◌++◌, Option,
  none, some, if◌then◌else◌, Text, any, all, map, filter, length, drop, includes, starts_with,
}
use kb_graph.Facts.Dates.{or_null}
use kb_graph.Triggers.Split.{is_empty}
use kb_graph.Triggers.Command.{is_lower, is_digit, command_segments}

abbrev pub is_boundary_unit : ℕ → Bool
is_boundary_unit c = is_lower c || (is_digit c || (c == b'_' || c == b'-'))

abbrev pub is_phrase_unit : ℕ → Bool
is_phrase_unit c = is_lower c || (is_digit c || c == b' ')

abbrev pub ends_token : Text → Bool
ends_token [] = true
ends_token (c ∷ cs) = not (is_boundary_unit c)

-- `(?<![a-z0-9_-])part(?![a-z0-9_-])`; the flag says that the unit before is none of the class.
unfoldable pub appears_as_token : Text → Bool → Text → Bool
appears_as_token part after [] = after && is_empty part
appears_as_token part after (c ∷ cs) =
    (after && (starts_with part (c ∷ cs) && ends_token (drop (length part) (c ∷ cs))))
    || appears_as_token part (not (is_boundary_unit c)) cs

unfoldable pub part_appears : Text → Text → Bool
part_appears part segment =
    if not (is_empty part) && all is_phrase_unit part
    then appears_as_token part true segment
    else includes part segment

unfoldable pub pattern_matches_segment : List Text → Text → Bool
pattern_matches_segment [] segment = false
pattern_matches_segment (first ∷ rest) segment =
    starts_with first segment
    && (ends_token (drop (length first) segment) && all (λ p. part_appears p segment) rest)

pub record Pattern : Type 0 where
  pub parts : List Text
  pub hits : ℕ

-- An entry of the index; `block` is set for a policy that denies.
pub record Entry : Type 0 where
  pub id : ℕ
  pub title : Text
  pub tier : Option Text
  pub block : Bool
  pub excerpt : Option Text
  pub patterns : List Pattern

pub record Fired : Type 0 where
  pub id : ℕ
  pub title : Text
  pub tier : Option Text
  pub block : Bool
  pub excerpt : Option Text
  pub hits : ℕ

unfoldable pub pattern_fires : List Text → Pattern → Bool
pattern_fires segments p = any (pattern_matches_segment p.parts) segments

abbrev pub rarer : ℕ → Option ℕ → ℕ
rarer hits none = hits
rarer hits (some other) = min hits other

-- The fewest hits of a pattern that fires.
unfoldable pub rarest_hits : List Text → List Pattern → Option ℕ
rarest_hits segments [] = none
rarest_hits segments (p ∷ ps) =
    let rest = rarest_hits segments ps in
    if pattern_fires segments p then some (rarer p.hits rest) else rest

abbrev pub fired_of : Entry → ℕ → Fired
fired_of e hits = record {
  id = e.id;
  title = e.title;
  tier = e.tier;
  block = e.block;
  excerpt = or_null e.excerpt;
  hits = hits;
}

unfoldable pub put_fired : Entry → Option ℕ → List Fired → List Fired
put_fired e none fs = fs
put_fired e (some hits) fs = fired_of e hits ∷ fs

abbrev pub has_id : List ℕ → ℕ → Bool
has_id ids id = any (λ i. i == id) ids

-- An advisory entry is passed over once it has fired; a blocking one never is.
unfoldable pub is_spent : List ℕ → Entry → Bool
is_spent already e = not e.block && has_id already e.id

unfoldable pub fired_entries : List Text → List ℕ → List Entry → List Fired
fired_entries segments already [] = []
fired_entries segments already (e ∷ es) =
    let rest = fired_entries segments already es in
    if is_spent already e then rest else put_fired e (rarest_hits segments e.patterns) rest

-- The comparison of the sort. `Number(undefined)` is NaN, and a match that does not block has no key
-- `block`; so the difference counts only between two that block, where it is 0, and the hits decide.
unfoldable pub fires_before : Fired → Fired → Bool
fires_before a b = leb a.hits b.hits

unfoldable pub insert_fired : Fired → List Fired → List Fired
insert_fired f [] = f ∷ []
insert_fired f (h ∷ fs) = if fires_before f h then f ∷ h ∷ fs else h ∷ insert_fired f fs

unfoldable pub sort_fired : List Fired → List Fired
sort_fired [] = []
sort_fired (f ∷ fs) = insert_fired f (sort_fired fs)

unfoldable pub match_command : Text → List Entry → List ℕ → List Fired
match_command command entries already =
    sort_fired (fired_entries (command_segments command) already entries)
