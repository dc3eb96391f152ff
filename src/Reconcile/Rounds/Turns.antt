-- ===== src/Reconcile/Rounds/Turns.antt =====
-- src/reconciliation.js: rounds that may decide as many entries as the queue has.
use kb_graph.Base.{
  ℕ, zero, suc, ◌+◌, ◌≤◌, List, [], ◌∷◌, ◌++◌, Option, Text, take, drop, length, length-append, ◌≡◌,
  refl, ap, ◌∙◌, ◌⊎◌, inl, inr, In, arith,
}
use kb_graph.Reconcile.Rounds.{rotated, start_of, selected}

module _ {A : Type 0} where
  pub In-append : (a : A) (xs ys : List A) → In a xs ⊎ In a ys → In a (xs ++ ys)
  In-append a [] ys (inl m) = elim m [ ]
  In-append a [] ys (inr m) = m
  In-append a (x ∷ xs) ys (inl (inl e)) = inl e
  In-append a (x ∷ xs) ys (inl (inr m)) = inr (In-append a xs ys (inl m))
  In-append a (x ∷ xs) ys (inr m) = inr (In-append a xs ys (inr m))

  In-take-drop : (n : ℕ) (a : A) (xs : List A) → In a xs → In a (take n xs) ⊎ In a (drop n xs)
  In-take-drop zero a xs m = inr m
  In-take-drop (suc n) a [] m = inl m
  In-take-drop (suc n) a (x ∷ xs) (inl e) = inl (inl e)
  In-take-drop (suc n) a (x ∷ xs) (inr m) = elim (In-take-drop n a xs m) [
    | inl k ↦ inl (inr k)
    | inr k ↦ inr k
  ]

  take_all : (n : ℕ) (xs : List A) → length xs ≤ n → take n xs ≡ xs
  take_all zero [] h = refl
  take_all zero (x ∷ xs) h = absurd (omega (arith, h))
  take_all (suc n) [] h = refl
  take_all (suc n) (x ∷ xs) h = ap (λ ys. x ∷ ys) (take_all n xs (omega (arith, h)))

  length-take-drop : (n : ℕ) (xs : List A) → length (drop n xs) + length (take n xs) ≡ length xs
  length-take-drop zero xs = omega arith
  length-take-drop (suc n) [] = refl
  length-take-drop (suc n) (x ∷ xs) = omega (arith, length-take-drop n xs)

  length-rotated : (key : A → Text) (n : ℕ) (xs : List A) → length (rotated key n xs) ≡ length xs
  unfolding rotated
  length-rotated key n xs = length-append (drop n xs) (take n xs) ∙ length-take-drop n xs

  In-rotated : (key : A → Text) (n : ℕ) (a : A) (xs : List A) → In a xs → In a (rotated key n xs)
  unfolding rotated
  In-rotated key n a xs m = elim (In-take-drop n a xs m) [
    | inl k ↦ In-append a (drop n xs) (take n xs) (inr k)
    | inr k ↦ In-append a (drop n xs) (take n xs) (inl k)
  ]

  -- Wherever the last round stopped, a round that may decide as many entries as the queue has
  -- decides every entry.
  pub selected-all :
      (key : A → Text) (max : ℕ) (cursor : Option Text) (queue : List A) (a : A)
      → length queue ≤ max
      → In a queue
      → In a (selected key max cursor queue)
  unfolding selected
  selected-all key max cursor queue a h m =
      rw
        (take_all max (rotated key (start_of key cursor queue) queue)
          (omega (arith, h, length-rotated key (start_of key cursor queue) queue)))
        (In-rotated key (start_of key cursor queue) a queue m)
