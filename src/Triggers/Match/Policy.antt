-- ===== src/Triggers/Match/Policy.antt =====
-- src/trigger-match.js: exactly the matching entries fire, a blocking one whatever has fired before,
-- and the rarest pattern decides the order.
use kb_graph.Base.{
  ℕ, ◌≤◌, true, false, leb, min, List, [], ◌∷◌, Option, none, some, if◌then◌else◌, Text, ◌≡◌, refl,
  ◌⊎◌, ◌↔◌, inl, inr, In, All, All-map, arith, Bool-cases,
}
use kb_graph.Triggers.Command.{command_segments}
use kb_graph.Triggers.Match.{
  Pattern, Entry, Fired, pattern_fires, rarer, rarest_hits, fired_of, put_fired, has_id, is_spent,
  fired_entries, fires_before, insert_fired, sort_fired, match_command,
}

pub In-insert_fired :
    (a f : Fired) (fs : List Fired) → In a (insert_fired f fs) ↔ ((a ≡ f) ⊎ In a fs)
unfolding insert_fired
In-insert_fired a f [] = ground arith
In-insert_fired a f (h ∷ fs) = ground (arith, In-insert_fired a f fs)

In-sort_fired : (a : Fired) (fs : List Fired) → In a (sort_fired fs) ↔ In a fs
unfolding sort_fired
In-sort_fired a [] = ground arith
In-sort_fired a (f ∷ fs) = ground (arith, In-insert_fired a f (sort_fired fs), In-sort_fired a fs)

-- The hits of the rarest pattern: no pattern that fires has fewer, and one has as many.
rarest_hits-le :
    (segments : List Text) (p : Pattern) (ps : List Pattern)
    → In p ps
    → pattern_fires segments p ≡ true
    → (hits : ℕ) × (rarest_hits segments ps ≡ some hits) × (hits ≤ p.hits)
unfolding rarest_hits
rarest_hits-le segments p [] m h = elim m [ ]
rarest_hits-le segments p (q ∷ ps) (inl e) h = here (rarest_hits segments ps)
  where
    here :
        (o : Option ℕ)
        → (hits : ℕ) × ((if pattern_fires segments q then some (rarer q.hits o) else o) ≡ some hits)
          × (hits ≤ p.hits)
    here none = (p.hits, ground arith, omega arith)
    here (some n) = (min p.hits n, ground arith, omega arith)
rarest_hits-le segments p (q ∷ ps) (inr m) h =
    let (n, found, le) = rarest_hits-le segments p ps m h in
    elim (Bool-cases (pattern_fires segments q)) [
      | inl fires ↦ (min q.hits n, ground arith, omega arith)
      | inr quiet ↦ (n, ground arith, le)
    ]

abbrev Attained : List Text → List Pattern → ℕ → Type 0
Attained segments ps hits =
    (p : Pattern) × In p ps × (pattern_fires segments p ≡ true) × (p.hits ≡ hits)

rarest_hits-Attained :
    (segments : List Text) (ps : List Pattern) (hits : ℕ)
    → rarest_hits segments ps ≡ some hits
    → Attained segments ps hits
unfolding rarest_hits
rarest_hits-Attained segments [] hits h = cc
rarest_hits-Attained segments (q ∷ ps) hits h = elim (Bool-cases (pattern_fires segments q)) [
  | inl fires ↦
      fewest fires (rarest_hits segments ps) (ground arith)
        (λ n e. rarest_hits-Attained segments ps n e) refl
  | inr quiet ↦ wider (rarest_hits-Attained segments ps hits (ground arith))
]
  where
    wider : {n : ℕ} → Attained segments ps n → Attained segments (q ∷ ps) n
    wider (p, m, f, e) = (p, inr m, f, e)

    fewest :
        pattern_fires segments q ≡ true
        → (o : Option ℕ) → rarer q.hits o ≡ hits
        → ((n : ℕ) → rarest_hits segments ps ≡ some n → Attained segments ps n)
        → rarest_hits segments ps ≡ o
        → Attained segments (q ∷ ps) hits
    fewest fires none e later r = (q, inl refl, fires, e)
    fewest fires (some n) e later r = elim (Bool-cases (leb q.hits n)) [
      | inl less ↦ (q, inl refl, fires, ground arith)
      | inr more ↦ let (p, m, f, k) = later n r in (p, inr m, f, ground arith)
    ]

-- What an entry that fires adds.
In-fired_entries :
    (segments : List Text) (already : List ℕ) (e : Entry) (es : List Entry) (hits : ℕ)
    → In e es
    → is_spent already e ≡ false
    → rarest_hits segments e.patterns ≡ some hits
    → In (fired_of e hits) (fired_entries segments already es)
unfolding fired_entries put_fired
In-fired_entries segments already e [] hits m fresh h = elim m [ ]
In-fired_entries segments already e (d ∷ es) hits (inl same) fresh h =
    rw (← same) (rw (fresh, h) (inl refl))
In-fired_entries segments already e (d ∷ es) hits (inr m) fresh h =
    let later = In-fired_entries segments already e es hits m fresh h in
    elim (Bool-cases (is_spent already d)) [
      | inl x ↦ rw x later
      | inr x ↦ rw x (below (rarest_hits segments d.patterns) later)
    ]
  where
    below :
        (o : Option ℕ)
        → In (fired_of e hits) (fired_entries segments already es)
        → In (fired_of e hits) (put_fired d o (fired_entries segments already es))
    below none k = k
    below (some n) k = inr k

abbrev Source : List Text → List ℕ → Fired → List Entry → Type 0
Source segments already f es =
    (e : Entry) × In e es
    × (is_spent already e ≡ false)
    × ((hits : ℕ) × (rarest_hits segments e.patterns ≡ some hits) × (f ≡ fired_of e hits))

fired_entries-Source :
    (segments : List Text) (already : List ℕ) (f : Fired) (es : List Entry)
    → In f (fired_entries segments already es)
    → Source segments already f es
unfolding fired_entries put_fired
fired_entries-Source segments already f [] m = elim m [ ]
fired_entries-Source segments already f (d ∷ es) m =
    let later = λ (k : In f (fired_entries segments already es)).
      wider (fired_entries-Source segments already f es k) in
    elim (Bool-cases (is_spent already d)) [
      | inl x ↦ later (rw x at m)
      | inr x ↦ here x (rarest_hits segments d.patterns) refl later (rw x at m)
    ]
  where
    wider : Source segments already f es → Source segments already f (d ∷ es)
    wider (e, m, fresh, h) = (e, inr m, fresh, h)

    here :
        is_spent already d ≡ false
        → (o : Option ℕ) → rarest_hits segments d.patterns ≡ o
        → (In f (fired_entries segments already es) → Source segments already f (d ∷ es))
        → In f (put_fired d o (fired_entries segments already es))
        → Source segments already f (d ∷ es)
    here x none e later k = later k
    here x (some n) e later (inl same) = (d, inl refl, x, (n, e, same))
    here x (some n) e later (inr k) = later k

-- An entry with a pattern that matches a segment of the command fires, at most as common as that
-- pattern, unless it is advisory and has fired before; so one that blocks always fires.
pub match_command_fires :
    (command : Text) (entries : List Entry) (already : List ℕ) (e : Entry) (p : Pattern)
    → In e entries
    → In p e.patterns
    → pattern_fires (command_segments command) p ≡ true
    → (e.block ≡ true) ⊎ (has_id already e.id ≡ false)
    → (f : Fired) × In f (match_command command entries already)
      × (f.id ≡ e.id)
      × (f.block ≡ e.block)
      × (f.hits ≤ p.hits)
unfolding match_command is_spent
match_command_fires command entries already e p m k fires fresh =
    let segments = command_segments command in
    let (hits, found, le) = rarest_hits-le segments p e.patterns k fires in
    (
      fired_of e hits,
      ground (
        arith,
        In-sort_fired (fired_of e hits) (fired_entries segments already entries),
        In-fired_entries segments already e entries hits m (ground arith) found,
      ),
      refl,
      refl,
      le,
    )

-- What fires comes from an entry of the index with a pattern that matches a segment of the command
-- and has as many hits as it reports, and that entry either blocks or has not fired before.
pub match_command_only :
    (command : Text) (entries : List Entry) (already : List ℕ) (f : Fired)
    → In f (match_command command entries already)
    → (e : Entry) × In e entries
      × (f.id ≡ e.id)
      × (f.block ≡ e.block)
      × ((e.block ≡ true) ⊎ (has_id already e.id ≡ false))
      × ((p : Pattern) × In p e.patterns
          × (pattern_fires (command_segments command) p ≡ true)
          × (p.hits ≡ f.hits))
unfolding match_command is_spent
match_command_only command entries already f m =
    let segments = command_segments command in
    let (e, k, fresh, (hits, found, same)) =
      fired_entries-Source segments already f entries
        (ground (arith, In-sort_fired f (fired_entries segments already entries))) in
    let (p, mp, fires, eq) = rarest_hits-Attained segments e.patterns hits found in
    (e, k, ground arith, ground arith, ground arith, (p, mp, fires, ground arith))

-- In the order of the hits.
abbrev pub IsByHits : List Fired → Type 0
IsByHits [] = Unit
IsByHits (f ∷ fs) = All (λ g. f.hits ≤ g.hits) fs × IsByHits fs

All-insert_fired :
    (n : ℕ) (f : Fired) (fs : List Fired)
    → n ≤ f.hits
    → All (λ g. n ≤ g.hits) fs
    → All (λ g. n ≤ g.hits) (insert_fired f fs)
unfolding insert_fired
All-insert_fired n f [] h k = (h, tt)
All-insert_fired n f (g ∷ fs) h k = ground (arith, All-insert_fired n f fs)

insert_fired-IsByHits : (f : Fired) (fs : List Fired) → IsByHits fs → IsByHits (insert_fired f fs)
unfolding insert_fired fires_before
insert_fired-IsByHits f [] h = (tt, tt)
insert_fired-IsByHits f (g ∷ fs) h = ground (
  arith,
  insert_fired-IsByHits f fs,
  All-insert_fired g.hits f fs,
  All-map (λ (x : Fired). g.hits ≤ x.hits) (λ x. f.hits ≤ x.hits) fs,
)

sort_fired-IsByHits : (fs : List Fired) → IsByHits (sort_fired fs)
unfolding sort_fired
sort_fired-IsByHits [] = tt
sort_fired-IsByHits (f ∷ fs) = insert_fired-IsByHits f (sort_fired fs) (sort_fired-IsByHits fs)

-- The matches come in the order of their hits, the rarest first; that a match blocks puts it before
-- no other.
pub match_command-IsByHits :
    (command : Text) (entries : List Entry) (already : List ℕ)
    → IsByHits (match_command command entries already)
unfolding match_command
match_command-IsByHits command entries already =
    sort_fired-IsByHits (fired_entries (command_segments command) already entries)
