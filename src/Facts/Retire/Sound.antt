-- ===== src/Facts/Retire/Sound.antt =====
-- src/facts.js: closing rows keeps the graph sound.
use kb_graph.Base.{
  Bool, true, false, ◌&&◌, List, [], ◌∷◌, Option, none, some, any, Text, ◌≡◌, ◌∙◌, refl, arith,
  Bool-cases, inl, inr, All,
}
use kb_graph.Facts.Dates.{ends_before_start, ends_before_start-some}
use kb_graph.Facts.Graph.{Entity, Fact, Graph, is_live, names_triple, is_live_triple, has_fact_id}
use kb_graph.Facts.Graph.Invariant.{IsKeyed, IsLiveUnique, IsDated, IsDatedWith, HasEnds, IsSound}
use kb_graph.Facts.Retire.{close_row, close_rows}
use kb_graph.Facts.Retire.Guard.{starts_after}

module _ (test : Fact → Bool) (end : Text) where
  -- No row becomes live, and no row changes its triple.
  pub close_row-is_live_triple :
      (s p o : Text) (f : Fact)
      → is_live_triple s p o (close_row test end f) ≡ true
      → is_live_triple s p o f ≡ true
  unfolding close_row is_live names_triple
  close_row-is_live_triple s p o f h = ground arith

  any-close_rows :
      (s p o : Text) (fs : List Fact)
      → any (is_live_triple s p o) fs ≡ false
      → any (is_live_triple s p o) (close_rows test end fs) ≡ false
  unfolding any close_rows
  any-close_rows s p o [] h = refl
  any-close_rows s p o (f ∷ fs) h =
      ground (arith, any-close_rows s p o fs, close_row-is_live_triple s p o f)

  close_rows-IsLiveUnique :
      (fs : List Fact) → IsLiveUnique fs → IsLiveUnique (close_rows test end fs)
  unfolding close_rows close_row is_live
  close_rows-IsLiveUnique [] h = tt
  close_rows-IsLiveUnique (f ∷ fs) h = elim (Bool-cases (test f)) [
    | inl e ↦ rw e ((λ live. cc), close_rows-IsLiveUnique fs h.1)
    | inr e ↦ rw e (
      (λ live. any-close_rows f.subject f.predicate f.object fs (h.0 live)),
      close_rows-IsLiveUnique fs h.1,
    )
  ]

  has_fact_id-close_rows :
      (id : Text) (fs : List Fact) → has_fact_id (close_rows test end fs) id ≡ has_fact_id fs id
  unfolding close_rows close_row any
  has_fact_id-close_rows id [] = refl
  has_fact_id-close_rows id (f ∷ fs) = ground (arith, has_fact_id-close_rows id fs)

  close_rows-IsKeyed : (fs : List Fact) → IsKeyed fs → IsKeyed (close_rows test end fs)
  unfolding close_rows close_row
  close_rows-IsKeyed [] h = tt
  close_rows-IsKeyed (f ∷ fs) h = elim (Bool-cases (test f)) [
    | inl e ↦ rw e (has_fact_id-close_rows f.id fs ∙ h.0, close_rows-IsKeyed fs h.1)
    | inr e ↦ rw e (has_fact_id-close_rows f.id fs ∙ h.0, close_rows-IsKeyed fs h.1)
  ]

  close_rows-HasEnds :
      (es : List Entity) (fs : List Fact)
      → All (HasEnds es) fs
      → All (HasEnds es) (close_rows test end fs)
  unfolding close_rows close_row
  close_rows-HasEnds es [] h = tt
  close_rows-HasEnds es (f ∷ fs) h = elim (Bool-cases (test f)) [
    | inl e ↦ rw e (h.0, close_rows-HasEnds es fs h.1)
    | inr e ↦ rw e (h.0, close_rows-HasEnds es fs h.1)
  ]

  IsDated_closed :
      (start : Option Text) → ends_before_start start end ≡ false → IsDatedWith start (some end)
  IsDated_closed none h = tt
  IsDated_closed (some t) h = ground (arith, ends_before_start-some t end)

  close_rows-IsDated :
      (fs : List Fact)
      → any (λ f. test f && starts_after end f) fs ≡ false
      → All IsDated fs
      → All IsDated (close_rows test end fs)
  unfolding close_rows close_row any
  close_rows-IsDated [] k h = tt
  close_rows-IsDated (f ∷ fs) k h = elim (Bool-cases (test f)) [
    | inl e ↦
        rw e (IsDated_closed f.valid_from (ground arith), close_rows-IsDated fs (ground arith) h.1)
    | inr e ↦ rw e (h.0, close_rows-IsDated fs (ground arith) h.1)
  ]

  pub close_rows-IsSound :
      (g : Graph)
      → IsSound g
      → any (λ f. test f && starts_after end f) g.facts ≡ false
      → IsSound (record g { facts = close_rows test end g.facts })
  close_rows-IsSound g h k = record {
    keyed = close_rows-IsKeyed g.facts h.keyed;
    unique = close_rows-IsLiveUnique g.facts h.unique;
    dated = close_rows-IsDated g.facts k h.dated;
    ends = close_rows-HasEnds g.entities g.facts h.ends;
  }
