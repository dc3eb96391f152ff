-- ===== src/Triggers/Split.antt =====
-- src/trigger-match.js: the quote-aware split. One pass over the units; what lies before the place
-- of the pass is carried in reverse, since a break may look back at it.
pub mod Quotes
pub mod Words
use kb_graph.Base.{
  ℕ, zero, suc, Bool, true, false, not, ◌&&◌, ◌||◌, ◌==◌, List, [], ◌∷◌, ◌++◌, Option, none, some,
  if◌then◌else◌, Text,
}

-- What becomes of the next unit: it is read, it was escaped, or it belongs to a break, with so many
-- units of it still behind.
pub data Pending : Type 0 where
  plain escaped : Pending
  skipping : ℕ → Pending

pub record Scan : Type 0 where
  pub in_single : Bool
  pub in_double : Bool
  pub pending : Pending
  pub current : Text
  pub chunks : List Text

abbrev pub start : Scan
start = record { in_single = false; in_double = false; pending = plain; current = []; chunks = [] }

-- A break's length at a place: the units before it, the last one first, and those from it on.
abbrev pub Break : Type 0
Break = Text → Text → ℕ

abbrev pub single_quote : ℕ
single_quote = 39

abbrev pub is_empty : Text → Bool
is_empty [] = true
is_empty (c ∷ cs) = false

unfoldable pub rest_of : ℕ → Pending
rest_of zero = plain
rest_of (suc n) = skipping n

unfoldable pub append : ℕ → Scan → Scan
append c s = record s { current = s.current ++ (c ∷ []) }

-- Outside quotes a break of positive length ends the chunk.
unfoldable pub break_or_append : ℕ → ℕ → Scan → Scan
break_or_append zero c s = append c s
break_or_append (suc n) c s = record s {
  pending = rest_of n;
  current = [];
  chunks = s.chunks ++ (s.current ∷ []);
}

unfoldable pub read_unit : Break → Text → ℕ → Text → Scan → Scan
read_unit is_break seen c rest s =
    if not s.in_single && (c == b'\\' && not (is_empty rest))
    then append c (record s { pending = escaped })
    else if not s.in_double && c == single_quote
    then append c (record s { in_single = not s.in_single })
    else if not s.in_single && c == b'"'
    then append c (record s { in_double = not s.in_double })
    else if not s.in_single && not s.in_double
    then break_or_append (is_break seen (c ∷ rest)) c s
    else append c s

unfoldable pub scan_unit : Break → Text → ℕ → Text → Scan → Pending → Scan
scan_unit is_break seen c rest s plain = read_unit is_break seen c rest s
scan_unit is_break seen c rest s escaped = append c (record s { pending = plain })
scan_unit is_break seen c rest s (skipping n) = record s { pending = rest_of n }

unfoldable pub scan : Break → Text → Text → Scan → Scan
scan is_break seen [] s = s
scan is_break seen (c ∷ cs) s =
    scan is_break (c ∷ seen) cs (scan_unit is_break seen c cs s s.pending)

unfoldable pub chunks_of : Scan → List Text
chunks_of s = s.chunks ++ (s.current ∷ [])

unfoldable pub quote_aware_split : Text → Break → List Text
quote_aware_split text is_break = chunks_of (scan is_break [] text start)

unfoldable pub prev_non_space : Text → Option ℕ
prev_non_space [] = none
prev_non_space (c ∷ seen) = if c == b' ' then prev_non_space seen else some c

abbrev pub is_unit : ℕ → Option ℕ → Bool
is_unit c none = false
is_unit c (some d) = d == c

abbrev pub head : Text → Option ℕ
head [] = none
head (c ∷ cs) = some c

unfoldable pub break_len : Text → ℕ → Option ℕ → ℕ
break_len seen c next =
    if (c == b'|' && is_unit b'|' next)
      || ((c == b'&' && is_unit b'&' next) || (c == b'$' && is_unit b'(' next))
    then 2
    else if c == b';' || (c == b'|' || c == b'`')
    then 1
    else if c == b'&'
    then (if is_unit b'>' (prev_non_space seen) || is_unit b'>' next then 0 else 1)
    else 0

unfoldable pub segment_break_len : Break
segment_break_len seen [] = 0
segment_break_len seen (c ∷ rest) = break_len seen c (head rest)

unfoldable pub word_break_len : Break
word_break_len seen [] = 0
word_break_len seen (c ∷ rest) = if c == b' ' then 1 else 0
