-- ===== src/Triggers/Command.antt =====
-- src/trigger-match.js: a command is cleared of here-documents, split into segments as a shell starts
-- commands, and each segment of its wrappers.
use kb_graph.Base.{
  ℕ, Bool, false, not, ◌&&◌, ◌||◌, ◌==◌, leb, List, [], ◌∷◌, ◌++◌, Option, none, some,
  if◌then◌else◌, Text, codes, text_eq, any, map, filter, join, split_on, trim, to_lower,
  fold_spaces, take_while, drop_while, is_space,
}
use kb_graph.Triggers.Split.{
  quote_aware_split, segment_break_len, word_break_len, is_empty, is_unit, single_quote,
}

abbrev pub is_lower : ℕ → Bool
is_lower c = leb b'a' c && leb c b'z'

abbrev pub is_digit : ℕ → Bool
is_digit c = leb b'0' c && leb c b'9'

-- `[A-Za-z_]`, and `[A-Za-z0-9_]`
abbrev pub is_word_start : ℕ → Bool
is_word_start c = is_lower c || ((leb b'A' c && leb c b'Z') || c == b'_')

abbrev pub is_word_unit : ℕ → Bool
is_word_unit c = is_word_start c || is_digit c

-- The delimiter at the start of a text, which has to be followed by the quote that stood before it.
unfoldable pub word_before : Option ℕ → Text → Option Text
word_before quote [] = none
word_before none (c ∷ cs) = if is_word_start c then some (c ∷ take_while is_word_unit cs) else none
word_before (some q) (c ∷ cs) =
    if is_word_start c
    then elim (drop_while is_word_unit cs) [
      | [] ↦ none
      | d ∷ ds ↦ if d == q then some (c ∷ take_while is_word_unit cs) else none
    ]
    else none

unfoldable pub delimiter : Text → Option Text
delimiter [] = none
delimiter (c ∷ cs) =
    if c == single_quote || c == b'"' then word_before (some c) cs else word_before none (c ∷ cs)

unfoldable pub drop_dash : Text → Text
drop_dash [] = []
drop_dash (c ∷ cs) = if c == b'-' then cs else c ∷ cs

abbrev pub starts_less : Text → Bool
starts_less [] = false
starts_less (c ∷ cs) = c == b'<'

-- `<<` that is no part of `<<<`, then the delimiter; `prev` is the unit before.
unfoldable pub opener_at : Option ℕ → Text → Option Text
opener_at prev (a ∷ b ∷ rest) =
    if (a == b'<' && b == b'<') && (not (is_unit b'<' prev) && not (starts_less rest))
    then delimiter (drop_while is_space (drop_dash rest))
    else none
opener_at prev _ = none

abbrev pub put_some : Option Text → List Text → List Text
put_some none ts = ts
put_some (some t) ts = t ∷ ts

-- The delimiters that a line opens. A match holds no `<` but its own two, so the matches of the
-- global search are those at each place.
unfoldable pub openers : Option ℕ → Text → List Text
openers prev [] = []
openers prev (c ∷ cs) = put_some (opener_at prev (c ∷ cs)) (openers (some c) cs)

-- The lines outside the bodies, and the delimiters that still wait.
unfoldable pub strip_lines : List Text → List Text → List Text × List Text
strip_lines queue [] = ([], queue)
strip_lines [] (line ∷ lines) =
    let rest = strip_lines (openers none line) lines in (line ∷ rest.0, rest.1)
strip_lines (q ∷ queue) (line ∷ lines) =
    strip_lines (if text_eq (trim line) q then queue else q ∷ queue) lines

unfoldable pub strip_heredocs : Text → Text
strip_heredocs raw =
    let (out, queue) = strip_lines [] (split_on 10 raw) in
    elim queue [ [] ↦ join (10 ∷ []) out | q ∷ qs ↦ raw ]

abbrev pub wrapper_tokens : List Text
wrapper_tokens = codes "sudo" ∷ codes "nohup" ∷ codes "time" ∷ codes "env" ∷ codes "command" ∷ []

abbrev pub is_name_start : ℕ → Bool
is_name_start c = is_lower c || c == b'_'

-- `/^[a-z_][a-z0-9_]*=/`
unfoldable pub env_assignment : Text → Bool
env_assignment [] = false
env_assignment (c ∷ cs) =
    is_name_start c
    && elim (drop_while (λ d. is_name_start d || is_digit d) cs) [ [] ↦ false | d ∷ ds ↦ d == b'=' ]

unfoldable pub is_wrapper : Text → Bool
is_wrapper token = env_assignment token || any (text_eq token) wrapper_tokens

unfoldable pub drop_wrappers : List Text → List Text
drop_wrappers [] = []
drop_wrappers (t ∷ ts) = let rest = drop_wrappers ts in if is_wrapper t then rest else t ∷ ts

abbrev pub is_some_text : Text → Bool
is_some_text t = not (is_empty t)

unfoldable pub strip_wrappers : Text → Text
strip_wrappers segment =
    join (codes " ")
      (drop_wrappers (filter is_some_text (quote_aware_split segment word_break_len)))

-- `replace(/\n/g, ' ; ').replace(/\t/g, ' ')`
unfoldable pub flatten : Text → Text
flatten [] = []
flatten (c ∷ cs) =
    let rest = flatten cs in
    if c == 10 then codes " ; " ++ rest else (if c == 9 then b' ' else c) ∷ rest

unfoldable pub command_segments : Text → List Text
command_segments command = filter is_some_text (
    map (λ seg. strip_wrappers (trim seg))
      (quote_aware_split (trim (fold_spaces false (flatten (to_lower (strip_heredocs command)))))
        segment_break_len))
