-- ===== src/Facts/Retire/Guard.antt =====
-- src/facts.js: the guard by MAX(valid_from) asks whether any interval would run backwards.
use kb_graph.Base.{
  Bool, ◌&&◌, List, [], ◌∷◌, Option, none, some, any, Text, ◌≡◌, refl, arith, Bool-cases, inl, inr,
  ◌||◌,
}
use kb_graph.Facts.Dates.{
  text_lt, text_lt_between, text_lt_asymm, ends_before_start, ends_before_start-some,
}
use kb_graph.Facts.Graph.{Fact}
use kb_graph.Facts.Retire.{later_of, max_start}

abbrev pub starts_after : Text → Fact → Bool
starts_after end f = ends_before_start f.valid_from end

ends_before_start-later_of :
    (a b : Option Text) (end : Text)
    → ends_before_start (later_of a b) end ≡ (ends_before_start a end || ends_before_start b end)
ends_before_start-later_of none b end = unfold ends_before_start in refl
ends_before_start-later_of (some a) none end = unfold ends_before_start in ground arith
ends_before_start-later_of (some a) (some b) end = elim (Bool-cases (text_lt a b)) [
  | inl e ↦
      rw (e, ends_before_start-some a end, ends_before_start-some b end)
        (ground (arith, text_lt_between end b a, text_lt_asymm a b e))
  | inr e ↦
      rw (e, ends_before_start-some a end, ends_before_start-some b end)
        (ground (arith, text_lt_between end a b))
]

-- The latest start lies behind the end exactly if one of the starts does.
pub ends_before_start-max_start :
    (test : Fact → Bool) (end : Text) (fs : List Fact)
    → ends_before_start (max_start test fs) end ≡ any (λ f. test f && starts_after end f) fs
unfolding max_start any
ends_before_start-max_start test end [] = unfold ends_before_start in refl
ends_before_start-max_start test end (f ∷ fs) = ground (
  arith,
  ends_before_start-max_start test end fs,
  ends_before_start-later_of f.valid_from (max_start test fs) end,
)
