-- ===== src/Triggers/Hook/Marker.antt =====
-- src/cli/trigger-hook.js: the session's marker when a warning is written to it.
use kb_graph.Base.{
  ℕ, ◌≤◌, ◌<◌, true, false, ◌&&◌, List, [], ◌∷◌, ◌++◌, Text, any, any-append, length, length-append,
  ◌≡◌, refl, sym, ap, subst, ◌⊎◌, inl, inr, arith, ◌==◌, Bool-cases, append-nil,
}
use kb_graph.Triggers.Sweep.{IsStale, after_sweep-cases}
use kb_graph.Triggers.Match.{Fired, has_id}
use kb_graph.Triggers.Hook.{
  Disk, max_session_warnings, write_marker, append_marker, Output, silent, warning, denial,
  deliver_marked,
}

-- What an output warns of.
abbrev pub warned_of : Output → List ℕ
warned_of silent = []
warned_of (warning f) = f.id ∷ []
warned_of (denial f) = []

-- No id twice.
abbrev pub IsDistinct : List ℕ → Type 0
IsDistinct [] = Unit
IsDistinct (i ∷ ids) = (has_id ids i ≡ false) × IsDistinct ids

-- The marker is within the cap, and names no note twice.
abbrev pub IsCapped : List ℕ → Type 0
IsCapped marker = (length marker ≤ max_session_warnings) × IsDistinct marker

snoc-IsDistinct :
    (ids : List ℕ) (i : ℕ) → IsDistinct ids → has_id ids i ≡ false → IsDistinct (ids ++ (i ∷ []))
unfolding any
snoc-IsDistinct [] i d h = (refl, tt)
snoc-IsDistinct (j ∷ ids) i d h = (
  ground (arith, any-append (λ k. k == j) ids (i ∷ [])),
  snoc-IsDistinct ids i d.1 (ground arith),
)

-- One write: the marker as it is read grows by what the session is warned of.
abbrev Grows : List ℕ → List ℕ × Output → Type 0
Grows current out = IsCapped out.0 × (out.0 ≡ current ++ warned_of out.1)

write_marker-Grows :
    (disk : Disk) (current : List ℕ) (f : Fired)
    → IsCapped current
    → has_id current f.id ≡ false
    → length current < max_session_warnings
    → Grows current (deliver_marked (write_marker disk current f.id) (warning f))
unfolding write_marker deliver_marked
write_marker-Grows disk current f c fresh room = elim (Bool-cases (disk.made && disk.writes)) [
  | inl e ↦ subst (Grows current) (sym (ap (λ r. deliver_marked r (warning f)) (written e))) grown
  | inr e ↦
      subst (Grows current) (sym (ap (λ r. deliver_marked r (warning f)) (lost e)))
        (c, sym (append-nil current))
]
  where
    written :
        (disk.made && disk.writes) ≡ true
        → write_marker disk current f.id ≡ (current ++ (f.id ∷ []), true)
    written e = ground (arith, fresh)

    lost : (disk.made && disk.writes) ≡ false → write_marker disk current f.id ≡ (current, false)
    lost e = ground (arith, fresh)

    grown : Grows current (current ++ (f.id ∷ []), warning f)
    grown = (
      (omega (arith, length-append current (f.id ∷ [])), snoc-IsDistinct current f.id c.1 fresh),
      refl,
    )

-- The ids named before and warned of now are those that a sweep forgot and those of the marker; what
-- is forgotten was in a stale marker.
abbrev pub Keeps : Text → Disk → List ℕ → List ℕ × Output → Type 0
Keeps session disk marker out =
    IsCapped out.0
    × ((forgotten : List ℕ) × (marker ++ warned_of out.1 ≡ forgotten ++ out.0)
        × ((forgotten ≡ []) ⊎ IsStale session disk.listing))

pub silent-Keeps :
    (session : Text) (disk : Disk) (marker : List ℕ)
    → IsCapped marker
    → Keeps session disk marker (marker, silent)
silent-Keeps session disk marker c = (c, ([], append-nil marker, inl refl))

pub append_marker-Keeps :
    (disk : Disk) (session : Text) (marker : List ℕ) (f : Fired)
    → IsCapped marker
    → has_id marker f.id ≡ false
    → length marker < max_session_warnings
    → Keeps session disk marker
        (deliver_marked (append_marker disk session marker f.id) (warning f))
unfolding append_marker any
append_marker-Keeps disk session marker f c fresh room =
    elim (after_sweep-cases session disk.listing marker) [
      | inl e ↦
          let grown = write_marker-Grows disk marker f c fresh room in
          rw e (grown.0, ([], sym grown.1, inl refl))
      | inr (e, stale) ↦
          let grown = write_marker-Grows disk [] f (omega arith, tt) refl (omega arith) in
          rw e (grown.0, (marker, ap (λ ids. marker ++ ids) (sym grown.1), inr stale))
    ]
