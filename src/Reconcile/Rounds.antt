-- ===== src/Reconcile/Rounds.antt =====
-- src/reconciliation.js: the queue is worked off in rounds, each from where the last one stopped.
pub mod Turns
pub mod Next
pub mod Reached
use kb_graph.Base.{
  ℕ, zero, suc, ◌-◌, Bool, true, false, not, ◌&&◌, ◌||◌, ◌==◌, List, [], ◌∷◌, ◌++◌, Option, none,
  some, if◌then◌else◌, Text, take, drop, length, filter,
}
use kb_graph.Facts.Dates.{text_lt}

module _ {A : Type 0} (key : A → Text) where
  unfoldable pub insert_entry : A → List A → List A
  insert_entry a [] = a ∷ []
  insert_entry a (b ∷ bs) =
      let rest = insert_entry a bs in if text_lt (key b) (key a) then b ∷ rest else a ∷ b ∷ bs

  -- The queue in the order of its keys.
  unfoldable pub sort_queue : List A → List A
  sort_queue [] = []
  sort_queue (a ∷ rest) = insert_entry a (sort_queue rest)

  -- `findIndex(item => item.key > cursor)`
  unfoldable pub index_after : Text → List A → Option ℕ
  index_after cursor [] = none
  index_after cursor (a ∷ rest) =
      let later = index_after cursor rest in
      if text_lt cursor (key a) then some 0 else elim later [ none ↦ none | some n ↦ some (suc n) ]

  unfoldable pub or_first : Option ℕ → ℕ
  or_first none = 0
  or_first (some n) = n

  -- Where a round starts: behind the cursor, or at the front where nothing is behind it.
  unfoldable pub start_of : Option Text → List A → ℕ
  start_of none queue = 0
  start_of (some []) queue = 0
  start_of (some (c ∷ cs)) queue = or_first (index_after (c ∷ cs) queue)

  unfoldable pub rotated : ℕ → List A → List A
  rotated start queue = drop start queue ++ take start queue

  unfoldable pub selected : ℕ → Option Text → List A → List A
  selected max cursor queue = take max (rotated (start_of cursor queue) queue)

  -- The cursor after a round that writes: the key of the last entry it decided.
  unfoldable pub cursor_after : Option Text → List A → Option Text
  cursor_after cursor [] = cursor
  cursor_after cursor (a ∷ rest) = cursor_after (some (key a)) rest

  -- The cursors of rounds on a queue that stays as it is.
  unfoldable pub cursor_at : ℕ → Option Text → List A → ℕ → Option Text
  cursor_at max cursor queue zero = cursor
  cursor_at max cursor queue (suc n) =
      let before = cursor_at max cursor queue n in cursor_after before (selected max before queue)
