-- ===== src/Facts/Retire.antt =====
-- src/facts.js: `invalidateFact` and `invalidateFactById`, which close rows.
pub mod Guard
pub mod Sound
pub mod Triple
pub mod ById
use kb_graph.Base.{
  ℕ, Bool, true, false, ◌&&◌, List, [], ◌∷◌, map, Option, none, some, if◌then◌else◌, find,
  fold_runs, is_space, length, filter, to_lower, Text, text_eq,
}
use kb_graph.Facts.Dates.{text_lt, or_default, ends_before_start}
use kb_graph.Facts.Graph.{Fact, Graph, entity_key, is_live, is_live_triple}

-- `predicate.toLowerCase().replace(/\s+/g, '_')`
unfoldable pub weak_predicate : Text → Text
weak_predicate p = fold_runs is_space false (to_lower p)

abbrev pub later_of : Option Text → Option Text → Option Text
later_of none b = b
later_of (some a) none = some a
later_of (some a) (some b) = if text_lt a b then some b else some a

-- `SELECT MAX(valid_from) ... WHERE test`
unfoldable pub max_start : (Fact → Bool) → List Fact → Option Text
max_start test [] = none
max_start test (f ∷ fs) =
    let rest = max_start test fs in if test f then later_of f.valid_from rest else rest

unfoldable pub close_row : (Fact → Bool) → Text → Fact → Fact
close_row test end f = if test f then record f { valid_to = some end } else f

-- `UPDATE facts SET valid_to = end WHERE test`
unfoldable pub close_rows : (Fact → Bool) → Text → List Fact → List Fact
close_rows test end [] = []
close_rows test end (f ∷ fs) = close_row test end f ∷ close_rows test end fs

pub data Refusal : Type 0 where
  ended_before_valid_from : Option Text → Refusal
  fact_not_found : Refusal
  fact_not_current : Text → Refusal

pub record Invalidated : Type 0 where
  pub invalidated : ℕ
  pub ended : Text
  pub refused : Option Refusal

-- The guarded UPDATE of `invalidateFact`, for the rows that `test` selects.
unfoldable pub close_guarded : Graph → (Fact → Bool) → Text → Graph × Invalidated
close_guarded g test end =
    let start = max_start test g.facts in
    if ends_before_start start end
    then (
      g,
      record { invalidated = 0; ended = end; refused = some (ended_before_valid_from start) },
    )
    else (
      record g { facts = close_rows test end g.facts },
      record { invalidated = length (filter test g.facts); ended = end; refused = none },
    )

unfoldable pub invalidate_fact :
    Graph → Text → Text → Text → Option Text → Text → Graph × Invalidated
invalidate_fact g subject predicate object ended today =
    close_guarded g
      (is_live_triple (entity_key g subject) (weak_predicate predicate) (entity_key g object))
      (or_default ended today)

abbrev pub has_id : Text → Fact → Bool
has_id id f = text_eq f.id id

abbrev pub is_live_id : Text → Fact → Bool
is_live_id id f = has_id id f && is_live f

abbrev pub refuse : Graph → Text → Refusal → Graph × Invalidated
refuse g end r = (g, record { invalidated = 0; ended = end; refused = some r })

-- The row that was read, and its `valid_to`.
unfoldable pub close_found : Graph → Text → Text → Fact → Option Text → Graph × Invalidated
close_found g id end f (some closed) = refuse g end (fact_not_current closed)
close_found g id end f none =
    if ends_before_start f.valid_from end
    then refuse g end (ended_before_valid_from f.valid_from)
    else (
      record g { facts = close_rows (is_live_id id) end g.facts },
      record { invalidated = length (filter (is_live_id id) g.facts); ended = end; refused = none },
    )

unfoldable pub close_selected : Graph → Text → Text → Option Fact → Graph × Invalidated
close_selected g id end none = refuse g end fact_not_found
close_selected g id end (some f) = close_found g id end f f.valid_to

unfoldable pub invalidate_fact_by_id : Graph → Text → Option Text → Text → Graph × Invalidated
invalidate_fact_by_id g id ended today =
    close_selected g id (or_default ended today) (find (has_id id) g.facts)
