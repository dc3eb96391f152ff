-- ===== src/Reconcile/Rounds/Next.antt =====
-- src/reconciliation.js: on a queue that stays as it is, the rounds go round.
use kb_graph.Base.{
  ℕ, suc, ◌<◌, true, List, [], ◌∷◌, ◌++◌, Option, none, some, Text, take, drop, length, ◌≡◌, refl,
  sym, ap, subst, ◌∙◌, ◌⊎◌, inl, inr, In, All, at_of_All, arith, append-nil,
}
use kb_graph.Facts.Dates.{text_lt, text_lt_irrefl, text_lt_asymm}
use kb_graph.Reconcile.Rounds.{rotated, start_of, selected, index_after, or_first, cursor_after}

module _ {A : Type 0} (key : A → Text) where
  -- In the strict order of the keys, as `sort_queue` puts entries of different keys.
  abbrev pub IsStrict : List A → Type 0
  IsStrict [] = Unit
  IsStrict (a ∷ rest) = All (λ b. text_lt (key a) (key b) ≡ true) rest × IsStrict rest

  -- Behind the key of the entry that ends a strict prefix nothing of the prefix is found.
  index_after_end :
      (before : List A) (x : A)
      → All (λ b. text_lt (key b) (key x) ≡ true) before
      → index_after key (key x) (before ++ (x ∷ [])) ≡ none
  unfolding index_after
  index_after_end [] x h = rw (text_lt_irrefl (key x)) refl
  index_after_end (b ∷ before) x (q, h) =
      rw (index_after_end before x h, text_lt_asymm (key b) (key x) q) refl

  index_after_next :
      (before : List A) (x y : A) (rest : List A)
      → All (λ b. text_lt (key b) (key x) ≡ true) before
      → text_lt (key x) (key y) ≡ true
      → index_after key (key x) (before ++ (x ∷ y ∷ rest)) ≡ some (suc (length before))
  unfolding index_after
  index_after_next [] x y rest h lt = rw (text_lt_irrefl (key x), lt) refl
  index_after_next (b ∷ before) x y rest (q, h) lt =
      rw (index_after_next before x y rest h lt, text_lt_asymm (key b) (key x) q) refl

  drop-through :
      (before : List A) (x : A) (after : List A)
      → drop (suc (length before)) (before ++ (x ∷ after)) ≡ after
  drop-through [] x after = refl
  drop-through (b ∷ before) x after = drop-through before x after

  take-through :
      (before : List A) (x : A) (after : List A)
      → take (suc (length before)) (before ++ (x ∷ after)) ≡ before ++ (x ∷ [])
  take-through [] x after = refl
  take-through (b ∷ before) x after = ap (λ bs. b ∷ bs) (take-through before x after)

  pub in_middle : (before : List A) (x : A) (after : List A) → In x (before ++ (x ∷ after))
  in_middle [] x after = inl refl
  in_middle (b ∷ before) x after = inr (in_middle before x after)

  before-IsStrict :
      (before : List A) (x : A) (after : List A)
      → IsStrict (before ++ (x ∷ after))
      → All (λ b. text_lt (key b) (key x) ≡ true) before
  before-IsStrict [] x after h = tt
  before-IsStrict (b ∷ before) x after (q, h) = (
    at_of_All (λ c. text_lt (key b) (key c) ≡ true) x (before ++ (x ∷ after)) q
        (in_middle before x after),
    before-IsStrict before x after h,
  )

  after-IsStrict :
      (before : List A) (x y : A) (after : List A)
      → IsStrict (before ++ (x ∷ y ∷ after))
      → text_lt (key x) (key y) ≡ true
  after-IsStrict [] x y after (q, h) = q.0
  after-IsStrict (b ∷ before) x y after (q, h) = after-IsStrict before x y after h

  start_of-filled :
      (k : Text) (queue : List A)
      → 0 < length k
      → start_of key (some k) queue ≡ or_first key (index_after key k queue)
  unfolding start_of
  start_of-filled [] queue h = absurd (omega (arith, h))
  start_of-filled (c ∷ cs) queue h = refl

  -- Where the last entry decided is `x`, the next round starts behind it and goes round to it.
  rotated-next :
      (before : List A) (x : A) (after : List A)
      → IsStrict (before ++ (x ∷ after))
      → 0 < length (key x)
      → rotated key (start_of key (some (key x)) (before ++ (x ∷ after))) (before ++ (x ∷ after))
        ≡ after ++ (before ++ (x ∷ []))
  unfolding rotated or_first
  rotated-next before x [] s f =
      rw
        (
          start_of-filled (key x) (before ++ (x ∷ [])) f,
          index_after_end before x (before-IsStrict before x [] s),
        )
        (append-nil (before ++ (x ∷ [])))
  rotated-next before x (y ∷ after) s f =
      rw
        (
          start_of-filled (key x) (before ++ (x ∷ y ∷ after)) f,
          index_after_next before x y after (before-IsStrict before x (y ∷ after) s)
              (after-IsStrict before x y after s),
        )
        (ap (λ xs. xs ++ take (suc (length before)) (before ++ (x ∷ y ∷ after)))
            (drop-through before x (y ∷ after))
          ∙ ap (λ xs. (y ∷ after) ++ xs) (take-through before x (y ∷ after)))

  -- The queue as it is from behind the last entry decided, round to that entry.
  pub record IsTurn (queue : List A) (cursor : Option Text) (turn : List A) : Type 0 where
    pub before : List A
    pub last : A
    pub after : List A
    pub is_queue : queue ≡ before ++ (last ∷ after)
    pub is_cursor : cursor ≡ some (key last)
    pub is_turn : turn ≡ after ++ (before ++ (last ∷ []))

  -- What is decided next is the first of the turn.
  pub selected-turn :
      (queue : List A) (cursor : Option Text) (turn : List A) (max : ℕ)
      → IsStrict queue
      → All (λ a. 0 < length (key a)) queue
      → IsTurn queue cursor turn
      → selected key max cursor queue ≡ take max turn
  unfolding selected
  selected-turn queue cursor turn max s f t = ap (take max) (
      subst (λ c. rotated key (start_of key c queue) queue ≡ turn) (sym t.is_cursor)
        (subst (λ q. rotated key (start_of key (some (key t.last)) q) q ≡ turn) (sym t.is_queue)
          (rotated-next t.before t.last t.after (subst IsStrict t.is_queue s) (
              at_of_All (λ a. 0 < length (key a)) t.last queue f
                (subst (In t.last) (sym t.is_queue) (in_middle t.before t.last t.after)))
            ∙ sym t.is_turn)))

  -- Of two ways to cut a list, one cuts no later than the other.
  pub cut :
      (xs ys us vs : List A)
      → xs ++ ys ≡ us ++ vs
      → ((es : List A) × (xs ≡ us ++ es) × (vs ≡ es ++ ys))
        ⊎ ((es : List A) × (us ≡ xs ++ es) × (ys ≡ es ++ vs))
  cut [] ys us vs e = inr (us, refl, e)
  cut (x ∷ xs) ys [] vs e = inl (x ∷ xs, refl, sym e)
  cut (x ∷ xs) ys (u ∷ us) vs e =
      let (same, rest) : (x ≡ u) × (xs ++ ys ≡ us ++ vs) = (cc, cc) in
      elim (cut xs ys us vs rest) [
        | inl (es, p, r) ↦ inl (es, cc, r)
        | inr (es, p, r) ↦ inr (es, cc, r)
      ]

  pub cursor_after-snoc :
      (cursor : Option Text) (xs : List A) (x : A)
      → cursor_after key cursor (xs ++ (x ∷ [])) ≡ some (key x)
  unfolding cursor_after
  cursor_after-snoc cursor [] x = refl
  cursor_after-snoc cursor (y ∷ xs) x = cursor_after-snoc (some (key y)) xs x
