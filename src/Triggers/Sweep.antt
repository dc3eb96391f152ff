-- ===== src/Triggers/Sweep.antt =====
-- src/cli/trigger-hook.js: the sweep of old markers and logs, which runs before a marker is written.
use kb_graph.Base.{
  ℕ, ◌*◌, ◌<◌, Bool, true, ltb, List, [], ◌∷◌, ◌++◌, Option, none, some, if◌then◌else◌, Text, codes,
  text_eq, eq_of_text_eq, any, In, inl, inr, ◌⊎◌, ◌≡◌, refl, ◌∙◌, Empty, reverse_aux, starts_with,
  sym, ap, ◌&&◌, arith, Bool-cases,
}
use kb_graph.Predicates.Spelling.{ends_with}

abbrev pub marker_retention_ms : ℕ
marker_retention_ms = 7 * 24 * 60 * 60 * 1000

abbrev pub log_retention_ms : ℕ
log_retention_ms = 30 * 24 * 60 * 60 * 1000

-- A file of the triggers' directory: how long ago it was written, if that can be read, and whether it
-- can be unlinked.
pub record TriggerFile : Type 0 where
  pub name : Text
  pub age : Option ℕ
  pub removable : Bool

-- `maxAge`; none is a file that the sweep leaves alone.
unfoldable pub max_age : Text → Option ℕ
max_age name =
    if ends_with (codes ".jsonl") name
    then some log_retention_ms
    else if ends_with (codes ".json") name
    then some marker_retention_ms
    else none

-- One turn of the loop, with the names that the rest of it unlinks; a failure ends the loop.
unfoldable pub sweep_aged : TriggerFile → ℕ → Option ℕ → List Text → List Text
sweep_aged f limit none rest = []
sweep_aged f limit (some age) rest =
    if ltb limit age then (if f.removable then f.name ∷ rest else []) else rest

unfoldable pub sweep_file : TriggerFile → Option ℕ → List Text → List Text
sweep_file f none rest = rest
sweep_file f (some limit) rest = sweep_aged f limit f.age rest

-- The names that the sweep unlinks.
unfoldable pub sweep_files : List TriggerFile → List Text
sweep_files [] = []
sweep_files (f ∷ fs) = sweep_file f (max_age f.name) (sweep_files fs)

-- `readdirSync` throws on a directory that is not there.
unfoldable pub sweep_old_trigger_files : Option (List TriggerFile) → List Text
sweep_old_trigger_files none = []
sweep_old_trigger_files (some files) = sweep_files files

abbrev pub marker_name : Text → Text
marker_name session = session ++ codes ".json"

-- What `readMarker` finds behind the sweep.
unfoldable pub after_sweep : Text → Option (List TriggerFile) → List ℕ → List ℕ
after_sweep session listing marker =
    if any (text_eq (marker_name session)) (sweep_old_trigger_files listing) then [] else marker

-- The marker of the session is in the listing, older than seven days.
abbrev pub IsStale : Text → Option (List TriggerFile) → Type 0
IsStale session none = Empty
IsStale session (some files) =
    (f : TriggerFile) × In f files
    × (f.name ≡ marker_name session)
    × ((age : ℕ) × (f.age ≡ some age) × (marker_retention_ms < age))

reverse_aux-append : (s t acc : Text) → reverse_aux (s ++ t) acc ≡ reverse_aux t (reverse_aux s acc)
reverse_aux-append [] t acc = refl
reverse_aux-append (c ∷ s) t acc = reverse_aux-append s t (c ∷ acc)

-- A marker's name ends in `.json`, not in `.jsonl`.
max_age-marker : (session : Text) → max_age (marker_name session) ≡ some marker_retention_ms
unfolding max_age ends_with starts_with
max_age-marker session = rw (reverse_aux-append session (codes ".json") []) refl

sweep_aged-aged :
    (f : TriggerFile) (limit : ℕ) (o : Option ℕ) (rest : List Text) (name : Text)
    → any (text_eq name) (sweep_aged f limit o rest) ≡ true
    → (any (text_eq name) rest ≡ true)
      ⊎ ((f.name ≡ name) × ((age : ℕ) × (o ≡ some age) × (limit < age)))
unfolding sweep_aged any
sweep_aged-aged f limit none rest name h = absurd (ground arith)
sweep_aged-aged f limit (some age) rest name h =
    elim (Bool-cases (ltb limit age && (f.removable && text_eq name f.name))) [
      | inl e ↦ inr (sym (eq_of_text_eq name f.name (ground arith)), (age, refl, ground arith))
      | inr e ↦ inl (ground arith)
    ]

-- What the turn of one file unlinks under the session's marker's name was stale, or came later.
sweep_file-marker :
    (session : Text) (f : TriggerFile) (o : Option ℕ) (rest : List Text)
    → max_age f.name ≡ o
    → any (text_eq (marker_name session)) (sweep_file f o rest) ≡ true
    → (any (text_eq (marker_name session)) rest ≡ true)
      ⊎ ((f.name ≡ marker_name session)
          × ((age : ℕ) × (f.age ≡ some age) × (marker_retention_ms < age)))
unfolding sweep_file
sweep_file-marker session f none rest e k = inl k
sweep_file-marker session f (some limit) rest e k =
    elim (sweep_aged-aged f limit f.age rest (marker_name session) k) [
      | inl k' ↦ inl k'
      | inr (named, (age, aged, older)) ↦
          let limit_is : some limit ≡ some marker_retention_ms =
            sym e ∙ ap max_age named ∙ max_age-marker session in
          inr (named, (age, aged, ground arith))
    ]

-- A file with the session's marker's name goes only if it is stale.
swept-IsStale :
    (session : Text) (files : List TriggerFile)
    → any (text_eq (marker_name session)) (sweep_files files) ≡ true
    → IsStale session (some files)
unfolding sweep_files any
swept-IsStale session [] h = absurd (ground arith)
swept-IsStale session (f ∷ fs) h =
    elim (sweep_file-marker session f (max_age f.name) (sweep_files fs) refl h) [
      | inl k ↦ let (x, m, named, aged) = swept-IsStale session fs k in (x, inr m, named, aged)
      | inr (named, aged) ↦ (f, inl refl, named, aged)
    ]

-- The sweep leaves the session's marker alone, or the marker was stale and is gone.
pub after_sweep-cases :
    (session : Text) (listing : Option (List TriggerFile)) (marker : List ℕ)
    → (after_sweep session listing marker ≡ marker)
      ⊎ ((after_sweep session listing marker ≡ []) × IsStale session listing)
unfolding after_sweep sweep_old_trigger_files any
after_sweep-cases session none marker = inl refl
after_sweep-cases session (some files) marker =
    elim (Bool-cases (any (text_eq (marker_name session)) (sweep_files files))) [
      | inl e ↦ inr (rw e refl, swept-IsStale session files e)
      | inr e ↦ inl (rw e refl)
    ]
