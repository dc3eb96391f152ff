-- ===== src/Facts/Retire/Triple.antt =====
-- src/facts.js: `invalidateFact` on every branch.
use kb_graph.Base.{
  Bool, true, false, ◌&&◌, List, [], ◌∷◌, Option, none, some, any, Text, ◌≡◌, refl, sym, ◌∙◌, arith,
  Bool-cases, inl, inr, length, filter, In,
}
use kb_graph.Facts.Dates.{ends_before_start, or_default}
use kb_graph.Facts.Graph.{Fact, Graph, is_live, is_live_triple, entity_key}
use kb_graph.Facts.Graph.Invariant.{IsSound}
use kb_graph.Facts.Retire.{
  close_row, close_rows, close_guarded, max_start, weak_predicate, invalidate_fact,
  ended_before_valid_from,
}
use kb_graph.Facts.Retire.Guard.{starts_after, ends_before_start-max_start}
use kb_graph.Facts.Retire.Sound.{close_rows-IsSound}

-- The rows that a call names, and the day on which it ends them.
abbrev pub named : Graph → Text → Text → Text → Fact → Bool
named g subject predicate object =
    is_live_triple (entity_key g subject) (weak_predicate predicate) (entity_key g object)

close_guarded-IsSound :
    (g : Graph) (test : Fact → Bool) (end : Text) → IsSound g → IsSound (close_guarded g test end).0
unfolding close_guarded
close_guarded-IsSound g test end h =
    elim (Bool-cases (ends_before_start (max_start test g.facts) end)) [
      | inl e ↦ rw e h
      | inr e ↦
          rw e (
            close_rows-IsSound test end g h
              (sym (ends_before_start-max_start test end g.facts) ∙ e))
    ]

-- Retiring a triple keeps a sound graph sound: no retired interval runs backwards.
pub invalidate_fact-IsSound :
    (g : Graph) (subject predicate object : Text) (ended : Option Text) (today : Text)
    → IsSound g
    → IsSound (invalidate_fact g subject predicate object ended today).0
unfolding invalidate_fact
invalidate_fact-IsSound g subject predicate object ended today =
    close_guarded-IsSound g (named g subject predicate object) (or_default ended today)

close_rows_retired :
    (s p o : Text) (end : Text) (fs : List Fact)
    → any (is_live_triple s p o) (close_rows (is_live_triple s p o) end fs) ≡ false
unfolding close_rows close_row any is_live
close_rows_retired s p o end [] = refl
close_rows_retired s p o end (f ∷ fs) = ground (arith, close_rows_retired s p o end fs)

-- A row that the call does not name is there as it was.
pub close_rows_other :
    (test : Fact → Bool) (end : Text) (f : Fact) (fs : List Fact)
    → test f ≡ false
    → In f fs
    → In f (close_rows test end fs)
unfolding close_rows close_row
close_rows_other test end f [] k h = elim h [ ]
close_rows_other test end f (x ∷ fs) k (inl e) = inl (rw (← e) (rw k))
close_rows_other test end f (x ∷ fs) k (inr h) = inr (close_rows_other test end f fs k h)

module _ (g : Graph) (subject predicate object : Text) (ended : Option Text) (today : Text) where
  abbrev pub some_starts_after : Bool
  some_starts_after =
      any (λ f. named g subject predicate object f && starts_after (or_default ended today) f)
        g.facts

  -- Unless a named row starts after the end, `invalidateFact` closes them all: no live row of the
  -- triple is left, the answer counts the rows that were live, and there is no refusal.
  pub invalidate_fact_done :
      some_starts_after ≡ false
      → (any
            (named g subject predicate object)
            (invalidate_fact g subject predicate object ended today).0.facts
          ≡ false)
        × ((invalidate_fact g subject predicate object ended today).1.invalidated
            ≡ length (filter (named g subject predicate object) g.facts))
        × ((invalidate_fact g subject predicate object ended today).1.refused ≡ none)
  unfolding invalidate_fact close_guarded
  invalidate_fact_done h =
      rw (ends_before_start-max_start, h)
        (
          close_rows_retired (entity_key g subject) (weak_predicate predicate) (entity_key g object)
              (or_default ended today) g.facts,
          refl,
          refl,
        )

  -- If one of the named rows starts after the end, the call refuses and the graph is as it was.
  pub invalidate_fact_refused :
      some_starts_after ≡ true
      → ((invalidate_fact g subject predicate object ended today).0 ≡ g)
        × ((invalidate_fact g subject predicate object ended today).1.invalidated ≡ 0)
        × ((invalidate_fact g subject predicate object ended today).1.refused
            ≡ some (ended_before_valid_from (max_start (named g subject predicate object) g.facts)))
  unfolding invalidate_fact close_guarded
  invalidate_fact_refused h = rw (ends_before_start-max_start, h) (refl, refl, refl)

  -- Whatever the outcome, every row that the call does not name stays as it is.
  pub invalidate_fact_others :
      (f : Fact)
      → named g subject predicate object f ≡ false
      → In f g.facts
      → In f (invalidate_fact g subject predicate object ended today).0.facts
  unfolding invalidate_fact close_guarded
  invalidate_fact_others f k h =
      elim (Bool-cases (
        ends_before_start (max_start (named g subject predicate object) g.facts)
          (or_default ended today))) [
            | inl e ↦ rw e h
            | inr e ↦ rw e (
                close_rows_other (named g subject predicate object) (or_default ended today) f
                  g.facts k h)
          ]
