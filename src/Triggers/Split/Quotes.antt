-- ===== src/Triggers/Split/Quotes.antt =====
-- src/trigger-match.js: the quote-aware split loses nothing, and never breaks inside single quotes.
use kb_graph.Base.{
  ℕ, Empty, true, false, not, ◌==◌, List, [], ◌∷◌, ◌++◌, Text, any, join, join-snoc, ◌≡◌, refl, sym,
  ap, ◌∙◌, arith, Bool-cases, inl, inr, reverse_aux, append_assoc, append-nil,
}
use kb_graph.Triggers.Split.{
  Pending, plain, escaped, skipping, Scan, start, Break, single_quote, rest_of, append,
  break_or_append, read_unit, scan_unit, scan, chunks_of, quote_aware_split, word_break_len,
}

abbrev space : Text
space = b' ' ∷ []

-- The text that a scan has read so far, its chunks joined by spaces.
abbrev joined : Scan → Text
joined s = join space (s.chunks ++ (s.current ∷ []))

join-grow :
    (ts : List Text) (t u : Text)
    → join space (ts ++ ((t ++ u) ∷ [])) ≡ join space (ts ++ (t ∷ [])) ++ u
unfolding join
join-grow [] t u = refl
join-grow (s ∷ ts) t u =
    rw (join-snoc space s ts (t ++ u), join-snoc space s ts t) (simp append_assoc)

join-next :
    (ts : List Text) (t : Text)
    → join space ((ts ++ (t ∷ [])) ++ ([] ∷ [])) ≡ join space (ts ++ (t ∷ [])) ++ space
unfolding join
join-next [] t = refl
join-next (s ∷ ts) t = join-snoc space s (ts ++ (t ∷ [])) []

abbrev IsReading : Pending → Type 0
IsReading plain = Unit
IsReading escaped = Unit
IsReading (skipping n) = Empty

-- One unit is read, and added.
abbrev Adds : ℕ → Scan → Scan → Type 0
Adds c s s' = IsReading s'.pending × (joined s' ≡ joined s ++ (c ∷ []))

append-Adds : (c : ℕ) (s : Scan) → IsReading s.pending → Adds c s (append c s)
unfolding append
append-Adds c s h = (h, join-grow s.chunks s.current (c ∷ []))

word_break-Adds :
    (seen : Text) (c : ℕ) (rest : Text) (s : Scan)
    → IsReading s.pending
    → Adds c s (break_or_append (word_break_len seen (c ∷ rest)) c s)
unfolding word_break_len break_or_append rest_of
word_break-Adds seen c rest s h = elim (Bool-cases (c == b' ')) [
  | inl e ↦ let is_space : c ≡ b' ' = ground arith in rw is_space (tt, join-next s.chunks s.current)
  | inr e ↦ rw e (append-Adds c s h)
]

read_unit-Adds :
    (seen : Text) (c : ℕ) (rest : Text) (s : Scan)
    → IsReading s.pending
    → Adds c s (read_unit word_break_len seen c rest s)
unfolding read_unit
read_unit-Adds seen c rest s h = ground (
  arith,
  append-Adds c s h,
  word_break-Adds seen c rest s h,
  append-Adds c (record s { pending = escaped }) tt,
  append-Adds c (record s { in_single = not s.in_single }) h,
  append-Adds c (record s { in_double = not s.in_double }) h,
)

scan_unit-Adds :
    (seen : Text) (c : ℕ) (rest : Text) (s : Scan) (p : Pending)
    → IsReading p
    → IsReading s.pending
    → Adds c s (scan_unit word_break_len seen c rest s p)
unfolding scan_unit
scan_unit-Adds seen c rest s plain r h = read_unit-Adds seen c rest s h
scan_unit-Adds seen c rest s escaped r h = append-Adds c (record s { pending = plain }) tt
scan_unit-Adds seen c rest s (skipping n) r h = elim r [ ]

joined-scan :
    (seen text : Text) (s : Scan)
    → IsReading s.pending
    → joined (scan word_break_len seen text s) ≡ joined s ++ text
unfolding scan
joined-scan seen [] s h = sym (append-nil (joined s))
joined-scan seen (c ∷ cs) s h =
    let (r, e) = scan_unit-Adds seen c cs s s.pending h h in
    joined-scan (c ∷ seen) cs (scan_unit word_break_len seen c cs s s.pending) r
    ∙ rw e (append_assoc (joined s) (c ∷ []) cs)

-- The words of a segment, joined by the spaces at which they were split, are the segment again.
pub join-quote_aware_split :
    (text : Text) → join (b' ' ∷ []) (quote_aware_split text word_break_len) ≡ text
unfolding quote_aware_split chunks_of join
join-quote_aware_split text = joined-scan [] text start tt

-- The scan of a text inside single quotes, and outside all quotes.
abbrev pub inside : List Text → Text → Scan
inside chunks current = record {
  in_single = true;
  in_double = false;
  pending = plain;
  current = current;
  chunks = chunks;
}

abbrev pub outside : List Text → Text → Scan
outside chunks current = record (inside chunks current) { in_single = false }

read_inside :
    (is_break : Break) (seen : Text) (c : ℕ) (rest : Text) (chunks : List Text) (current : Text)
    → (c == single_quote) ≡ false
    → read_unit is_break seen c rest (inside chunks current) ≡ inside chunks (current ++ (c ∷ []))
unfolding read_unit append
read_inside is_break seen c rest chunks current h = rw h refl

read_quote :
    (is_break : Break) (seen rest : Text) (chunks : List Text) (current : Text)
    → (read_unit is_break seen single_quote rest (inside chunks current)
        ≡ outside chunks (current ++ (single_quote ∷ [])))
      × (read_unit is_break seen single_quote rest (outside chunks current)
          ≡ inside chunks (current ++ (single_quote ∷ [])))
unfolding read_unit append
read_quote is_break seen rest chunks current = (refl, refl)

scan-inside :
    (is_break : Break) (seen body rest : Text) (chunks : List Text) (current : Text)
    → any (λ c. c == single_quote) body ≡ false
    → scan is_break seen (body ++ rest) (inside chunks current)
      ≡ scan is_break (reverse_aux body seen) rest (inside chunks (current ++ body))
unfolding scan scan_unit any
scan-inside is_break seen [] rest chunks current h =
    ap (λ t. scan is_break seen rest (inside chunks t)) (sym (append-nil current))
scan-inside is_break seen (c ∷ body) rest chunks current h =
    ap (scan is_break (c ∷ seen) (body ++ rest))
      (read_inside is_break seen c (body ++ rest) chunks current (ground arith))
    ∙ scan-inside is_break (c ∷ seen) body rest chunks (current ++ (c ∷ [])) (ground arith)
    ∙ ap (λ t. scan is_break (reverse_aux body (c ∷ seen)) rest (inside chunks t))
        (append_assoc current (c ∷ []) body)

-- Outside all quotes, a part in single quotes joins the chunk that is read, whatever counts as a
-- break, and the scan goes on outside behind it: between single quotes nothing is special.
pub scan-quoted :
    (is_break : Break) (seen body rest : Text) (chunks : List Text) (current : Text)
    → any (λ c. c == single_quote) body ≡ false
    → scan is_break seen (single_quote ∷ (body ++ (single_quote ∷ rest))) (outside chunks current)
      ≡ scan is_break
          (single_quote ∷ reverse_aux body (single_quote ∷ seen))
          rest
          (outside chunks (((current ++ (single_quote ∷ [])) ++ body) ++ (single_quote ∷ [])))
unfolding scan scan_unit
scan-quoted is_break seen body rest chunks current h =
    ap (scan is_break (single_quote ∷ seen) (body ++ (single_quote ∷ rest)))
      (read_quote is_break seen (body ++ (single_quote ∷ rest)) chunks current).1
    ∙ scan-inside is_break (single_quote ∷ seen) body (single_quote ∷ rest) chunks
        (current ++ (single_quote ∷ [])) h
    ∙ ap (scan is_break (single_quote ∷ reverse_aux body (single_quote ∷ seen)) rest)
        (read_quote is_break (reverse_aux body (single_quote ∷ seen)) rest chunks
          ((current ++ (single_quote ∷ [])) ++ body)).0
