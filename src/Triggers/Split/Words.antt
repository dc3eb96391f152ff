-- ===== src/Triggers/Split/Words.antt =====
-- src/trigger-match.js: what the quote-aware split at spaces takes for a word.
use kb_graph.Base.{
  ℕ, Bool, true, false, ◌==◌, List, [], ◌∷◌, ◌++◌, Text, any, All, join, ◌≡◌, refl, ap, reverse_aux,
  ◌∙◌, arith, append_assoc,
}
use kb_graph.Triggers.Split.{
  Scan, single_quote, append, break_or_append, read_unit, scan_unit, scan, chunks_of,
  quote_aware_split, word_break_len, rest_of,
}
use kb_graph.Triggers.Split.Quotes.{outside, scan-quoted, join-quote_aware_split}

-- Between double quotes: a unit, or a backslash with the unit that it escapes.
pub data Inner : Type 0 where
  bare slashed : ℕ → Inner

-- A command's text in pieces: a unit, a backslash with the unit that it escapes, a part in single or
-- in double quotes, and a space outside all quotes.
pub data Piece : Type 0 where
  ordinary escape : ℕ → Piece
  single : Text → Piece
  double : List Inner → Piece
  gap : Piece

abbrev pub IsInner : Inner → Type 0
IsInner (bare c) = ((c == b'\\') ≡ false) × ((c == b'"') ≡ false)
IsInner (slashed c) = Unit

abbrev pub is_special : ℕ → Bool
is_special c = any (λ d. c == d) (b'\\' ∷ single_quote ∷ b'"' ∷ b' ' ∷ [])

abbrev pub IsPiece : Piece → Type 0
IsPiece (ordinary c) = is_special c ≡ false
IsPiece (escape c) = Unit
IsPiece (single t) = any (λ c. c == single_quote) t ≡ false
IsPiece (double inner) = All IsInner inner
IsPiece gap = Unit

abbrev pub render_inner : List Inner → Text
render_inner [] = []
render_inner (bare c ∷ inner) = c ∷ render_inner inner
render_inner (slashed c ∷ inner) = b'\\' ∷ c ∷ render_inner inner

abbrev pub render_piece : Piece → Text
render_piece (ordinary c) = c ∷ []
render_piece (escape c) = b'\\' ∷ c ∷ []
render_piece (single t) = single_quote ∷ (t ++ (single_quote ∷ []))
render_piece (double inner) = b'"' ∷ (render_inner inner ++ (b'"' ∷ []))
render_piece gap = b' ' ∷ []

abbrev pub render : List Piece → Text
render [] = []
render (p ∷ ps) = render_piece p ++ render ps

-- The pieces between the gaps, each word as it stands in the text.
abbrev pub words_from : Text → List Piece → List Text
words_from word [] = word ∷ []
words_from word (gap ∷ ps) = word ∷ words_from [] ps
words_from word (ordinary c ∷ ps) = words_from (word ++ render_piece (ordinary c)) ps
words_from word (escape c ∷ ps) = words_from (word ++ render_piece (escape c)) ps
words_from word (single t ∷ ps) = words_from (word ++ render_piece (single t)) ps
words_from word (double inner ∷ ps) = words_from (word ++ render_piece (double inner)) ps

abbrev pub words : List Piece → List Text
words ps = words_from [] ps

-- The scan of a text inside double quotes.
abbrev inside_double : List Text → Text → Scan
inside_double chunks current = record (outside chunks current) { in_double = true }

-- A piece that is read outside all quotes joins the word.
abbrev Joins : Text → Text → Text → List Text → Text → Type 0
Joins piece seen rest chunks current =
    (seen' : Text) × (scan word_break_len seen (piece ++ rest) (outside chunks current)
      ≡ scan word_break_len seen' rest (outside chunks (current ++ piece)))

read_ordinary :
    (seen : Text) (c : ℕ) (rest : Text) (chunks : List Text) (current : Text)
    → is_special c ≡ false
    → read_unit word_break_len seen c rest (outside chunks current)
      ≡ outside chunks (current ++ (c ∷ []))
unfolding read_unit append break_or_append word_break_len any
read_ordinary seen c rest chunks current h =
    let slash : (c == b'\\') ≡ false = ground arith in
    let quote : (c == single_quote) ≡ false = ground arith in
    let double_quote : (c == b'"') ≡ false = ground arith in
    let space : (c == b' ') ≡ false = ground arith in rw (slash, quote, double_quote, space) refl

ordinary-Joins :
    (c : ℕ) (seen rest : Text) (chunks : List Text) (current : Text)
    → is_special c ≡ false
    → Joins (c ∷ []) seen rest chunks current
unfolding scan scan_unit
ordinary-Joins c seen rest chunks current h = (
  c ∷ seen,
  ap (scan word_break_len (c ∷ seen) rest) (read_ordinary seen c rest chunks current h),
)

escape-Joins :
    (c : ℕ) (seen rest : Text) (chunks : List Text) (current : Text)
    → Joins (b'\\' ∷ c ∷ []) seen rest chunks current
unfolding scan scan_unit read_unit append
escape-Joins c seen rest chunks current = (
  c ∷ b'\\' ∷ seen,
  ap (λ t. scan word_break_len (c ∷ b'\\' ∷ seen) rest (outside chunks t))
      (append_assoc current (b'\\' ∷ []) (c ∷ [])),
)

single-Joins :
    (t seen rest : Text) (chunks : List Text) (current : Text)
    → any (λ c. c == single_quote) t ≡ false
    → Joins (single_quote ∷ (t ++ (single_quote ∷ []))) seen rest chunks current
single-Joins t seen rest chunks current h = (
  single_quote ∷ reverse_aux t (single_quote ∷ seen),
  ap (λ u. scan word_break_len seen (single_quote ∷ u) (outside chunks current))
        (append_assoc t (single_quote ∷ []) rest)
      ∙ scan-quoted word_break_len seen t rest chunks current h
      ∙ ap
          (λ u.
            scan word_break_len (single_quote ∷ reverse_aux t (single_quote ∷ seen)) rest
              (outside chunks u))
          (append_assoc (current ++ (single_quote ∷ [])) t (single_quote ∷ [])
            ∙ append_assoc current (single_quote ∷ []) (t ++ (single_quote ∷ []))),
)

read_bare :
    (seen : Text) (c : ℕ) (rest : Text) (chunks : List Text) (current : Text)
    → IsInner (bare c)
    → read_unit word_break_len seen c rest (inside_double chunks current)
      ≡ inside_double chunks (current ++ (c ∷ []))
unfolding read_unit append
read_bare seen c rest chunks current h = rw (h.0, h.1) refl

-- Inside double quotes the scan reads on to the quote that closes them.
inner-scan :
    (inner : List Inner) (seen rest : Text) (chunks : List Text) (current : Text)
    → All IsInner inner
    → (seen' : Text) × (scan word_break_len seen
          (render_inner inner ++ (b'"' ∷ rest))
          (inside_double chunks current)
        ≡ scan word_break_len seen' rest
            (outside chunks (current ++ (render_inner inner ++ (b'"' ∷ [])))))
unfolding scan scan_unit read_unit append
inner-scan [] seen rest chunks current h = (b'"' ∷ seen, refl)
inner-scan (bare c ∷ inner) seen rest chunks current h =
    let (seen', e) = inner-scan inner (c ∷ seen) rest chunks (current ++ (c ∷ [])) h.1 in
    (
      seen',
      ap (scan word_break_len (c ∷ seen) (render_inner inner ++ (b'"' ∷ rest)))
            (read_bare seen c (render_inner inner ++ (b'"' ∷ rest)) chunks current h.0)
          ∙ e
          ∙ ap (λ u. scan word_break_len seen' rest (outside chunks u))
              (append_assoc current (c ∷ []) (render_inner inner ++ (b'"' ∷ []))),
    )
inner-scan (slashed c ∷ inner) seen rest chunks current h =
    let (seen', e) =
      inner-scan inner (c ∷ b'\\' ∷ seen) rest chunks ((current ++ (b'\\' ∷ [])) ++ (c ∷ [])) h.1 in
    (
      seen',
      e
          ∙ ap (λ u. scan word_break_len seen' rest (outside chunks u))
              (append_assoc (current ++ (b'\\' ∷ [])) (c ∷ []) (render_inner inner ++ (b'"' ∷ []))
                ∙ append_assoc current (b'\\' ∷ []) (c ∷ (render_inner inner ++ (b'"' ∷ [])))),
    )

double-Joins :
    (inner : List Inner) (seen rest : Text) (chunks : List Text) (current : Text)
    → All IsInner inner
    → Joins (b'"' ∷ (render_inner inner ++ (b'"' ∷ []))) seen rest chunks current
unfolding scan scan_unit read_unit append
double-Joins inner seen rest chunks current h =
    let (seen', e) = inner-scan inner (b'"' ∷ seen) rest chunks (current ++ (b'"' ∷ [])) h in
    (
      seen',
      ap (λ u. scan word_break_len (b'"' ∷ seen) u (inside_double chunks (current ++ (b'"' ∷ []))))
            (append_assoc (render_inner inner) (b'"' ∷ []) rest)
          ∙ e
          ∙ ap (λ u. scan word_break_len seen' rest (outside chunks u))
              (append_assoc current (b'"' ∷ []) (render_inner inner ++ (b'"' ∷ []))),
    )

gap-scan :
    (seen rest : Text) (chunks : List Text) (current : Text)
    → scan word_break_len seen (b' ' ∷ rest) (outside chunks current)
      ≡ scan word_break_len (b' ' ∷ seen) rest (outside (chunks ++ (current ∷ [])) [])
unfolding scan scan_unit read_unit break_or_append word_break_len rest_of
gap-scan seen rest chunks current = refl

-- A text in pieces is scanned word by word.
scan-words :
    (ps : List Piece) (seen : Text) (chunks : List Text) (current : Text)
    → All IsPiece ps
    → chunks_of (scan word_break_len seen (render ps) (outside chunks current))
      ≡ chunks ++ words_from current ps
unfolding chunks_of
scan-words [] seen chunks current h = unfold scan in refl
scan-words (gap ∷ ps) seen chunks current h =
    ap chunks_of (gap-scan seen (render ps) chunks current)
    ∙ scan-words ps (b' ' ∷ seen) (chunks ++ (current ∷ [])) [] h.1
    ∙ append_assoc chunks (current ∷ []) (words_from [] ps)
scan-words (ordinary c ∷ ps) seen chunks current h =
    let (seen', e) = ordinary-Joins c seen (render ps) chunks current h.0 in
    ap chunks_of e ∙ scan-words ps seen' chunks (current ++ render_piece (ordinary c)) h.1
scan-words (escape c ∷ ps) seen chunks current h =
    let (seen', e) = escape-Joins c seen (render ps) chunks current in
    ap chunks_of e ∙ scan-words ps seen' chunks (current ++ render_piece (escape c)) h.1
scan-words (single t ∷ ps) seen chunks current h =
    let (seen', e) = single-Joins t seen (render ps) chunks current h.0 in
    ap chunks_of e ∙ scan-words ps seen' chunks (current ++ render_piece (single t)) h.1
scan-words (double inner ∷ ps) seen chunks current h =
    let (seen', e) = double-Joins inner seen (render ps) chunks current h.0 in
    ap chunks_of e ∙ scan-words ps seen' chunks (current ++ render_piece (double inner)) h.1

-- The words of any text, joined by the spaces at which it was split, are the text. The words of a text
-- that is put together from ordinary units, units escaped by a backslash, parts in single quotes, parts
-- in double quotes with escaped units in them, and spaces, are what stands between these spaces, so
-- that a space in quotes or behind a backslash separates nothing, nor does a quote in the other
-- quotes or behind a backslash open or close anything.
pub quote_aware_split-words :
    (text : Text) (ps : List Piece)
    → All IsPiece ps
    → (join (b' ' ∷ []) (quote_aware_split text word_break_len) ≡ text)
      × (quote_aware_split (render ps) word_break_len ≡ words ps)
unfolding quote_aware_split
quote_aware_split-words text ps h = (join-quote_aware_split text, scan-words ps [] [] [] h)
