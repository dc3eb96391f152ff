-- ===== src/Base/Texts.antt =====
-- A text is the list of its code units, as in the source's language. `to_lower` folds the ASCII
-- letters and leaves every other unit alone; white space is the source language's full set.
use Prim.Native.Nat.{ℕ, ◌+◌}
use Prim.Native.Char.{code}
use Prim.Native.String.{String}
use mathlib.Core.Bool.{Bool, true, false, ◌&&◌, ◌||◌}
use mathlib.Core.List.{List, [], ◌∷◌, map}
use native.Mathlib.Decide.{ℕ_discrete}
use kb_graph.Base.Tests.{leb, ◌==◌, if◌then◌else◌}

abbrev pub Text : Type 0
Text = List ℕ

abbrev pub codes : String → Text
codes String.[] = []
codes (String.◌∷◌ c s) = code c ∷ codes s

unfoldable pub text_dec : Discrete Text
unfolding ℕ_discrete
text_dec = hlevel ℕ_discrete

-- `a === b`
abbrev pub text_eq : Text → Text → Bool
text_eq a b = elim (text_dec a b) [ yes _ ↦ true | no _ ↦ false ]

-- `\s`
unfoldable pub is_space : ℕ → Bool
is_space c =
    leb 9 c && leb c 13
    || (c == 32
        || (c == 160
            || (c == 5760
                || (leb 8192 c && leb c 8202
                    || (c == 8232
                        || (c == 8233
                            || (c == 8239 || (c == 8287 || (c == 12288 || c == 65279)))))))))

unfoldable pub lower_unit : ℕ → ℕ
lower_unit c = if leb 65 c && leb c 90 then c + 32 else c

unfoldable pub to_lower : Text → Text
unfolding lower_unit
to_lower = map lower_unit

unfoldable pub drop_while : (ℕ → Bool) → Text → Text
drop_while p [] = []
drop_while p (c ∷ cs) = let rest = drop_while p cs in if p c then rest else c ∷ cs

-- `c` in front of what was kept; a unit that passes goes if nothing was kept behind it.
unfoldable pub keep_end : (ℕ → Bool) → ℕ → Text → Text
keep_end p c [] = if p c then [] else c ∷ []
keep_end p c (d ∷ ds) = c ∷ d ∷ ds

unfoldable pub drop_end : (ℕ → Bool) → Text → Text
unfolding keep_end
drop_end p [] = []
drop_end p (c ∷ cs) = keep_end p c (drop_end p cs)

-- `trim()`
unfoldable pub trim : Text → Text
unfolding drop_while drop_end is_space
trim t = drop_end is_space (drop_while is_space t)

-- `replace(/[...]+/g, '_')`; the flag says that the last unit was of the class.
unfoldable pub fold_runs : (ℕ → Bool) → Bool → Text → Text
fold_runs sep r [] = []
fold_runs sep r (c ∷ cs) =
    let rest = fold_runs sep (sep c) cs in
    if sep c then (if r then rest else b'_' ∷ rest) else c ∷ rest

abbrev pub is_underscore : ℕ → Bool
is_underscore c = c == b'_'

-- `replace(/^_+|_+$/g, '')`
unfoldable pub strip_underscores : Text → Text
unfolding drop_while drop_end
strip_underscores t = drop_end is_underscore (drop_while is_underscore t)

-- `startsWith`
unfoldable pub starts_with : Text → Text → Bool
starts_with [] t = true
starts_with (p ∷ ps) [] = false
starts_with (p ∷ ps) (c ∷ cs) = p == c && starts_with ps cs
