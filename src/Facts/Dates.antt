-- ===== src/Facts/Dates.antt =====
-- src/facts.js: dates are texts, and compare as texts do.
use kb_graph.Base.{
  Bool, true, false, ◌&&◌, ◌||◌, [], ◌∷◌, Option, none, some, ◌==◌, ltb, Text, ◌≡◌, refl, arith,
}

-- `a < b`
unfoldable pub text_lt : Text → Text → Bool
text_lt [] [] = false
text_lt [] (d ∷ ds) = true
text_lt (c ∷ cs) [] = false
text_lt (c ∷ cs) (d ∷ ds) = ltb c d || (c == d && text_lt cs ds)

pub text_lt_irrefl : (a : Text) → text_lt a a ≡ false
unfolding text_lt
text_lt_irrefl [] = refl
text_lt_irrefl (c ∷ cs) = ground (arith, text_lt_irrefl cs)

pub text_lt_asymm : (a b : Text) → text_lt a b ≡ true → text_lt b a ≡ false
unfolding text_lt
text_lt_asymm [] [] h = cc
text_lt_asymm [] (d ∷ ds) h = refl
text_lt_asymm (c ∷ cs) [] h = cc
text_lt_asymm (c ∷ cs) (d ∷ ds) h = ground (arith, text_lt_asymm cs ds)

-- Between two texts in order any third text stands above the first or below the second.
pub text_lt_between : (a b c : Text) → text_lt a c ≡ true → text_lt a b ≡ false → text_lt b c ≡ true
unfolding text_lt
text_lt_between [] [] c h k = h
text_lt_between [] (y ∷ b) c h k = cc
text_lt_between (x ∷ a) [] [] h k = cc
text_lt_between (x ∷ a) [] (z ∷ c) h k = refl
text_lt_between (x ∷ a) (y ∷ b) [] h k = cc
text_lt_between (x ∷ a) (y ∷ b) (z ∷ c) h k = ground (arith, text_lt_between a b c)

-- `a || null`
abbrev pub or_null : Option Text → Option Text
or_null none = none
or_null (some []) = none
or_null (some (c ∷ cs)) = some (c ∷ cs)

-- `a || b`
abbrev pub or_default : Option Text → Text → Text
or_default none b = b
or_default (some []) b = b
or_default (some (c ∷ cs)) b = c ∷ cs

-- `Boolean(validFrom && validFrom > endDate)`
unfoldable pub ends_before_start : Option Text → Text → Bool
ends_before_start none end = false
ends_before_start (some []) end = false
ends_before_start (some (c ∷ cs)) end = text_lt end (c ∷ cs)

pub ends_before_start-some :
    (start end : Text) → ends_before_start (some start) end ≡ text_lt end start
unfolding ends_before_start text_lt
ends_before_start-some [] [] = refl
ends_before_start-some [] (c ∷ cs) = refl
ends_before_start-some (c ∷ cs) end = refl
