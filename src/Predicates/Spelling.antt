-- ===== src/Predicates/Spelling.antt =====
-- src/predicates.js: the folds of a predicate's spelling that need no list (`rawPred`), and the
-- grouping key of its inflections (`lemmaKey`).
use mathlib.Core.List.{reverse}
use kb_graph.Base.{
  ℕ, zero, suc, Bool, false, not, ◌&&◌, ◌||◌, List, [], ◌∷◌, ◌++◌, ◌==◌, leb, if◌then◌else◌, filter,
  drop, length, starts_with, fold_runs, is_space, strip_underscores, to_lower, Text, codes,
}

-- `['’]`
unfoldable pub is_quote : ℕ → Bool
is_quote c = c == 39 || c == 8217

-- `[\s-]`
unfoldable pub pred_separator : ℕ → Bool
pred_separator c = is_space c || c == b'-'

abbrev pub copulas : List Text
copulas =
    codes "is_"
    ∷ codes "are_"
    ∷ codes "was_"
    ∷ codes "were_"
    ∷ codes "be_"
    ∷ codes "been_"
    ∷ codes "being_"
    ∷ []

-- `replace(COPULA, '')`: at most one of the copulas stands in front.
unfoldable pub strip_prefix : List Text → Text → Text
strip_prefix [] t = t
strip_prefix (c ∷ cs) t = if starts_with c t then drop (length c) t else strip_prefix cs t

unfoldable pub raw_pred : Text → Text
raw_pred p = strip_prefix copulas (
    strip_underscores
      (fold_runs pred_separator false (filter (λ c. not (is_quote c)) (to_lower p))))

-- `slice(0, -n)`
unfoldable pub drop_last : ℕ → Text → Text
drop_last n t = reverse (drop n (reverse t))

unfoldable pub ends_with : Text → Text → Bool
ends_with s t = starts_with (reverse s) (reverse t)

unfoldable pub is_vowel : ℕ → Bool
is_vowel c = c == b'a' || (c == b'e' || (c == b'i' || (c == b'o' || c == b'u')))

-- The test on the unit with `n` units behind it, in a reversed text.
unfoldable pub test_at : (ℕ → Bool) → ℕ → Text → Bool
test_at test n [] = false
test_at test zero (c ∷ cs) = test c
test_at test (suc n) (c ∷ cs) = test_at test n cs

-- `([^aeiou])\1ed$`, behind the `ed`
unfoldable pub doubled : Text → Bool
doubled (c ∷ d ∷ cs) = c == d && not (is_vowel c)
doubled _ = false

unfoldable pub inflection_of : Text → Text
inflection_of token =
    if ends_with (codes "ss") token
      || (ends_with (codes "us") token || ends_with (codes "is") token)
    then token
    else if ends_with (codes "ies") token && test_at (λ c. not (is_vowel c)) 3 (reverse token)
    then drop_last 3 token ++ codes "y"
    else if ends_with (codes "s") token && test_at (λ c. leb b'a' c && leb c b'z') 1 (reverse token)
    then drop_last 1 token
    else if ends_with (codes "ied") token && test_at (λ c. not (is_vowel c)) 3 (reverse token)
    then drop_last 3 token ++ codes "y"
    else if ends_with (codes "ed") token && doubled (drop 2 (reverse token))
    then drop_last 3 token
    else if ends_with (codes "ed") token
    then drop_last 2 token
    else token

unfoldable pub stem : Text → Text
stem token =
    let base = inflection_of token in if ends_with (codes "e") base then drop_last 1 base else base

-- What stands before the first underscore, and the rest from it on.
unfoldable pub cut_underscore : Text → Text × Text
cut_underscore [] = ([], [])
cut_underscore (c ∷ cs) =
    let rest = cut_underscore cs in if c == b'_' then ([], c ∷ cs) else (c ∷ rest.0, rest.1)

unfoldable pub lemma_key : Text → Text
lemma_key p = let (verb, rest) = cut_underscore p in stem verb ++ rest
