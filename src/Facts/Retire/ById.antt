-- ===== src/Facts/Retire/ById.antt =====
-- src/facts.js: `invalidateFactById` on every branch.
use kb_graph.Base.{
  false, ◌&&◌, List, [], ◌∷◌, Option, none, some, if◌then◌else◌, any, Text, ◌≡◌, refl, arith,
  Bool-cases, Option-cases, inl, inr, find,
}
use kb_graph.Facts.Dates.{ends_before_start, or_default}
use kb_graph.Facts.Graph.{Fact, Graph, is_live, has_fact_id}
use kb_graph.Facts.Graph.Invariant.{IsSound, IsKeyed}
use kb_graph.Facts.Retire.{
  close_row, close_rows, close_found, close_selected, has_id, is_live_id, invalidate_fact_by_id,
  Invalidated, fact_not_current, ended_before_valid_from, refuse,
}
use kb_graph.Facts.Retire.Guard.{starts_after}
use kb_graph.Facts.Retire.Sound.{close_rows-IsSound}

none_with_id :
    (id end : Text) (fs : List Fact)
    → has_fact_id fs id ≡ false
    → any (λ x. is_live_id id x && starts_after end x) fs ≡ false
unfolding any
none_with_id id end [] h = refl
none_with_id id end (x ∷ fs) h = ground (arith, none_with_id id end fs)

-- With a primary key, the row that was read is the only one that the UPDATE can reach.
only_found :
    (id end : Text) (fs : List Fact) (f : Fact)
    → IsKeyed fs
    → find (has_id id) fs ≡ some f
    → starts_after end f ≡ false
    → any (λ x. is_live_id id x && starts_after end x) fs ≡ false
unfolding find any
only_found id end [] f k e h = refl
only_found id end (x ∷ fs) f k e h =
    ground (arith, none_with_id id end fs, only_found id end fs f k.1)

close_found-IsSound :
    (g : Graph) (id end : Text) (f : Fact) (closed : Option Text)
    → IsSound g
    → find (has_id id) g.facts ≡ some f
    → IsSound (close_found g id end f closed).0
unfolding close_found
close_found-IsSound g id end f (some t) h e = h
close_found-IsSound g id end f none h e = elim (Bool-cases (ends_before_start f.valid_from end)) [
  | inl b ↦ rw b h
  | inr b ↦
      rw b (close_rows-IsSound (is_live_id id) end g h (only_found id end g.facts f h.keyed e b))
]

-- Retiring a row by its id keeps a sound graph sound.
pub invalidate_fact_by_id-IsSound :
    (g : Graph) (id : Text) (ended : Option Text) (today : Text)
    → IsSound g
    → IsSound (invalidate_fact_by_id g id ended today).0
unfolding invalidate_fact_by_id close_selected
invalidate_fact_by_id-IsSound g id ended today h = elim (Option-cases (find (has_id id) g.facts)) [
  | inl e ↦ rw e h
  | inr (f, e) ↦ rw e (close_found-IsSound g id (or_default ended today) f f.valid_to h e)
]

close_rows_closed :
    (id end : Text) (fs : List Fact)
    → any (is_live_id id) (close_rows (is_live_id id) end fs) ≡ false
unfolding close_rows close_row any is_live
close_rows_closed id end [] = refl
close_rows_closed id end (f ∷ fs) = ground (arith, close_rows_closed id end fs)

-- What the call answers for the row that it read.
abbrev pub IsAnswered : Graph → Text → Text → Fact → Option Text → Graph × Invalidated → Type 0
IsAnswered g id end f (some t) answer = answer ≡ refuse g end (fact_not_current t)
IsAnswered g id end f none answer =
    if starts_after end f
    then answer ≡ refuse g end (ended_before_valid_from f.valid_from)
    else (any (is_live_id id) answer.0.facts ≡ false) × (answer.1.refused ≡ none)

close_found-IsAnswered :
    (g : Graph) (id end : Text) (f : Fact) (closed : Option Text)
    → IsAnswered g id end f closed (close_found g id end f closed)
unfolding close_found
close_found-IsAnswered g id end f (some t) = refl
close_found-IsAnswered g id end f none = elim (Bool-cases (ends_before_start f.valid_from end)) [
  | inl e ↦ rw e refl
  | inr e ↦ rw e (close_rows_closed id end g.facts, refl)
]

-- If the id names a row: a closed row is refused, and a live row that starts after the end is
-- refused, both with the graph as it was; any other row is closed, so that no live row has the id,
-- and there is no refusal.
pub invalidate_fact_by_id_answer :
    (g : Graph) (id : Text) (ended : Option Text) (today : Text) (f : Fact)
    → find (has_id id) g.facts ≡ some f
    → IsAnswered g id (or_default ended today) f f.valid_to (invalidate_fact_by_id g id ended today)
unfolding invalidate_fact_by_id close_selected
invalidate_fact_by_id_answer g id ended today f h =
    rw h (close_found-IsAnswered g id (or_default ended today) f f.valid_to)
