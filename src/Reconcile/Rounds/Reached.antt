-- ===== src/Reconcile/Rounds/Reached.antt =====
-- src/reconciliation.js: rounds on a queue that stays as it is, and the entries they come to.
use kb_graph.Base.{
  ℕ, zero, suc, ◌+◌, ◌≤◌, ◌<◌, List, [], ◌∷◌, ◌++◌, Option, some, Text, take, drop, length, ◌≡◌,
  refl, sym, ap, subst, ◌∙◌, inl, inr, In, All, arith, append_assoc, append-nil, Bool-cases, ltb,
  ltb→lt,
}
use kb_graph.Reconcile.Rounds.{selected, cursor_after, cursor_at}
use kb_graph.Reconcile.Rounds.Turns.{In-append}
use kb_graph.Reconcile.Rounds.Next.{IsStrict, IsTurn, selected-turn, cut, cursor_after-snoc}

module _ {A : Type 0} where
  -- A list that is not empty ends in an entry.
  snoc_view : (x : A) (xs : List A) → (ys : List A) × (y : A) × (x ∷ xs ≡ ys ++ (y ∷ []))
  snoc_view x [] = ([], x, refl)
  snoc_view x (z ∷ xs) = let (ys, y, e) = snoc_view z xs in (x ∷ ys, y, ap (λ zs. x ∷ zs) e)

  snoc_inj : (xs ys : List A) (x y : A) → xs ++ (x ∷ []) ≡ ys ++ (y ∷ []) → (xs ≡ ys) × (x ≡ y)
  snoc_inj [] [] x y e = (refl, cc)
  snoc_inj [] (z ∷ []) x y e = cc
  snoc_inj [] (z ∷ w ∷ ys) x y e = cc
  snoc_inj (z ∷ []) [] x y e = cc
  snoc_inj (z ∷ w ∷ xs) [] x y e = cc
  snoc_inj (z ∷ xs) (w ∷ ys) x y e =
      let (same, rest) : (z ≡ w) × (xs ++ (x ∷ []) ≡ ys ++ (y ∷ [])) = (cc, cc) in
      let (p, q) = snoc_inj xs ys x y rest in (cc, q)

  In-round :
      (before after : List A) (last a : A)
      → In a (before ++ (last ∷ after))
      → In a (after ++ (before ++ (last ∷ [])))
  In-round [] after last a (inl e) = In-append a after (last ∷ []) (inr (inl e))
  In-round [] after last a (inr i) = In-append a after (last ∷ []) (inl i)
  In-round (b ∷ before) after last a (inl e) =
      In-append a after (b ∷ (before ++ (last ∷ []))) (inr (inl e))
  In-round (b ∷ before) after last a (inr i) =
      weaken after b (before ++ (last ∷ [])) a (In-round before after last a i)
    where
      weaken : (xs : List A) (z : A) (ys : List A) (c : A) → In c (xs ++ ys) → In c (xs ++ (z ∷ ys))
      weaken [] z ys c j = inr j
      weaken (x ∷ xs) z ys c (inl e) = inl e
      weaken (x ∷ xs) z ys c (inr j) = inr (weaken xs z ys c j)

module _ {A : Type 0} (key : A → Text) where
  -- The first part of a turn, decided, goes behind the rest.
  IsTurn-early :
      (queue : List A) (cursor : Option Text) (front : List A) (x : A) (es : List A) (t : List A)
      → (turn : IsTurn key queue cursor t) → turn.after ≡ (front ++ (x ∷ [])) ++ es
      → IsTurn key queue
          (some (key x))
          ((es ++ (turn.before ++ (turn.last ∷ []))) ++ (front ++ (x ∷ [])))
  IsTurn-early queue cursor front x es t turn e = record {
    before = turn.before ++ (turn.last ∷ front);
    last = x;
    after = es;
    is_queue = turn.is_queue ∙ simp (e, append_assoc);
    is_cursor = refl;
    is_turn = simp (append_assoc);
  }

  IsTurn-late :
      (queue : List A) (cursor : Option Text) (v : List A) (y : A) (w t : List A)
      → (turn : IsTurn key queue cursor t) → turn.before ≡ (v ++ (y ∷ [])) ++ w
      → IsTurn key queue (some (key y)) ((w ++ (turn.last ∷ [])) ++ (turn.after ++ (v ++ (y ∷ []))))
  IsTurn-late queue cursor v y w t turn e = record {
    before = v;
    last = y;
    after = w ++ (turn.last ∷ turn.after);
    is_queue = turn.is_queue ∙ simp (e, append_assoc);
    is_cursor = refl;
    is_turn = simp (append_assoc);
  }

  -- A turn of which a part was decided and a part is left goes on with what is left.
  IsTurn-next :
      (queue : List A) (cursor : Option Text) (front : List A) (x u : A) (us t : List A)
      → IsTurn key queue cursor t
      → t ≡ (front ++ (x ∷ [])) ++ (u ∷ us)
      → IsTurn key queue (some (key x)) ((u ∷ us) ++ (front ++ (x ∷ [])))
  IsTurn-next queue cursor front x u us t turn e =
      elim (cut key turn.after (turn.before ++ (turn.last ∷ [])) (front ++ (x ∷ [])) (u ∷ us)
        (sym turn.is_turn ∙ e)) [
          | inl (es, p, r) ↦
              subst (λ zs. IsTurn key queue (some (key x)) (zs ++ (front ++ (x ∷ [])))) (sym r)
                (IsTurn-early queue cursor front x es t turn p)
          | inr (es, p, r) ↦ late es p r
        ]
    where
      late :
          (es : List A)
          → front ++ (x ∷ []) ≡ turn.after ++ es
          → turn.before ++ (turn.last ∷ []) ≡ es ++ (u ∷ us)
          → IsTurn key queue (some (key x)) ((u ∷ us) ++ (front ++ (x ∷ [])))
      late [] p r =
          subst (λ zs. IsTurn key queue (some (key x)) (zs ++ (front ++ (x ∷ [])))) r
            (IsTurn-early queue cursor front x [] t turn
              (sym (append-nil turn.after) ∙ sym p ∙ sym (append-nil (front ++ (x ∷ [])))))
      late (z ∷ zs) p r =
          let (v, y, n) = snoc_view z zs in
          let (w, l, k) = snoc_view u us in
          let (same, xy) =
            snoc_inj front (turn.after ++ v) x y
              (p ∙ ap (λ q. turn.after ++ q) n ∙ sym (append_assoc turn.after v (y ∷ []))) in
          let (split, ll) = snoc_inj turn.before ((v ++ (y ∷ [])) ++ w) turn.last l (
            r
            ∙ ap (λ q. q ++ (u ∷ us)) n
            ∙ ap (λ q. (v ++ (y ∷ [])) ++ q) k
            ∙ sym (append_assoc (v ++ (y ∷ [])) w (l ∷ []))) in
          let shape : (w ++ (turn.last ∷ [])) ++ (turn.after ++ (v ++ (y ∷ [])))
              ≡ (u ∷ us) ++ (front ++ (x ∷ [])) =
            ap (λ c. (w ++ (c ∷ [])) ++ (turn.after ++ (v ++ (y ∷ [])))) ll
            ∙ ap (λ q. q ++ (turn.after ++ (v ++ (y ∷ [])))) (sym k)
            ∙ ap (λ q. (u ∷ us) ++ q) (sym (append_assoc turn.after v (y ∷ [])))
            ∙ ap (λ q. (u ∷ us) ++ (q ++ (y ∷ []))) (sym same)
            ∙ ap (λ c. (u ∷ us) ++ (front ++ (c ∷ []))) (sym xy) in
          subst (λ c. IsTurn key queue (some (key c)) ((u ∷ us) ++ (front ++ (x ∷ [])))) (sym xy)
            (subst (IsTurn key queue (some (key y))) shape
              (IsTurn-late queue cursor v y w t turn split))

  -- The cursor after one round more, from the first round or from the last.
  cursor_at-suc :
      (max : ℕ) (cursor : Option Text) (queue : List A) (n : ℕ)
      → cursor_at key max (cursor_after key cursor (selected key max cursor queue)) queue n
        ≡ cursor_at key max cursor queue (suc n)
  unfolding cursor_at
  cursor_at-suc max cursor queue zero = refl
  cursor_at-suc max cursor queue (suc n) =
      ap (λ c. cursor_after key c (selected key max c queue)) (cursor_at-suc max cursor queue n)

  In-take :
      (n : ℕ) (front : List A) (a : A) (rest : List A)
      → length front < n
      → In a (take n (front ++ (a ∷ rest)))
  In-take zero front a rest h = absurd (omega (arith, h))
  In-take (suc n) [] a rest h = inl refl
  In-take (suc n) (b ∷ front) a rest h = inr (In-take n front a rest (omega (arith, h)))

  -- A list cut where it is still in front of an entry.
  cut_before :
      (n : ℕ) (front : List A) (a : A) (rest : List A)
      → n ≤ length front
      → (front ++ (a ∷ rest) ≡ take n front ++ (drop n front ++ (a ∷ rest)))
        × (take n (front ++ (a ∷ rest)) ≡ take n front)
        × (n + length (drop n front) ≡ length front)
  cut_before zero front a rest h = (refl, refl, omega arith)
  cut_before (suc n) [] a rest h = absurd (omega (arith, h))
  cut_before (suc n) (b ∷ front) a rest h =
      let (p, q, l) = cut_before n front a rest (omega (arith, h)) in
      (ap (λ xs. b ∷ xs) p, ap (λ xs. b ∷ xs) q, omega (arith, l))

  take_cons :
      (n : ℕ) (front : List A)
      → 0 < n
      → n ≤ length front
      → (x : A) × (xs : List A) × (take n front ≡ x ∷ xs)
  take_cons zero front m h = absurd (omega (arith, m))
  take_cons (suc n) [] m h = absurd (omega (arith, h))
  take_cons (suc n) (b ∷ front) m h = (b, take n front, refl)

  cons_view :
      (xs : List A) (a : A) (rest : List A) → (u : A) × (us : List A) × (xs ++ (a ∷ rest) ≡ u ∷ us)
  cons_view [] a rest = (a, rest, refl)
  cons_view (x ∷ xs) a rest = (x, xs ++ (a ∷ rest), refl)

  -- A round that does not come to an entry brings it nearer by what it decides.
  IsTurn-nearer :
      (max : ℕ) (queue : List A) (cursor : Option Text) (front : List A) (a : A) (rest : List A)
      → 0 < max
      → max ≤ length front
      → IsTurn key queue cursor (front ++ (a ∷ rest))
      → (y : A) × (behind : List A) × (take max (front ++ (a ∷ rest)) ≡ behind ++ (y ∷ []))
        × IsTurn key queue (some (key y)) (drop max front ++ (a ∷ (rest ++ (behind ++ (y ∷ [])))))
  IsTurn-nearer max queue cursor front a rest m le t =
      let (b, bs, tc) = take_cons max front m le in
      let (ys, y, e) = snoc_view b bs in
      let (p, q, l) = cut_before max front a rest le in
      let (u, us, d) = cons_view (drop max front) a rest in
      let cutting : front ++ (a ∷ rest) ≡ (ys ++ (y ∷ [])) ++ (u ∷ us) =
        p
        ∙ ap (λ zs. zs ++ (drop max front ++ (a ∷ rest))) (tc ∙ e)
        ∙ ap (λ zs. (ys ++ (y ∷ [])) ++ zs) d in
      (
        y,
        ys,
        q ∙ tc ∙ e,
        subst (IsTurn key queue (some (key y)))
            (ap (λ zs. zs ++ (ys ++ (y ∷ []))) (sym d)
              ∙ append_assoc (drop max front) (a ∷ rest) (ys ++ (y ∷ [])))
            (IsTurn-next queue cursor ys y u us (front ++ (a ∷ rest)) t cutting),
      )

  reaches_later :
      (max : ℕ) (queue : List A) (cursor : Option Text) (y : A) (behind turn : List A) (a : A)
      → IsStrict key queue
      → All (λ b. 0 < length (key b)) queue
      → IsTurn key queue cursor turn
      → take max turn ≡ behind ++ (y ∷ [])
      → (n : ℕ) × In a (selected key max (cursor_at key max (some (key y)) queue n) queue)
      → (n : ℕ) × In a (selected key max (cursor_at key max cursor queue n) queue)
  reaches_later max queue cursor y behind turn a s f t e (n, i) =
      let moved : cursor_after key cursor (selected key max cursor queue) ≡ some (key y) =
        ap (cursor_after key cursor) (selected-turn key queue cursor turn max s f t ∙ e)
        ∙ cursor_after-snoc key cursor behind y in
      (
        suc n,
        subst (λ c. In a (selected key max c queue))
            (ap (λ c. cursor_at key max c queue n) (sym moved) ∙ cursor_at-suc max cursor queue n)
            i,
      )

  -- An entry at any place of a turn is decided after as many rounds at most.
  turn-reaches :
      (fuel max : ℕ) (queue : List A) (cursor : Option Text) (front : List A) (a : A)
      (rest : List A)
      → 0 < max
      → IsStrict key queue
      → All (λ b. 0 < length (key b)) queue
      → IsTurn key queue cursor (front ++ (a ∷ rest))
      → length front < fuel
      → (n : ℕ) × In a (selected key max (cursor_at key max cursor queue n) queue)
  unfolding cursor_at
  turn-reaches zero max queue cursor front a rest m s f t h = absurd (omega (arith, h))
  turn-reaches (suc fuel) max queue cursor front a rest m s f t h =
      elim (Bool-cases (ltb (length front) max)) [
        | inl e ↦ (
          zero,
          subst (In a) (sym (selected-turn key queue cursor (front ++ (a ∷ rest)) max s f t))
              (In-take max front a rest (ltb→lt (length front) max e)),
        )
        | inr e ↦
            let le : max ≤ length front = ground arith in
            let (y, behind, k, t') = IsTurn-nearer max queue cursor front a rest m le t in
            reaches_later max queue cursor y behind (front ++ (a ∷ rest)) a s f t k (
              turn-reaches fuel max queue (some (key y)) (drop max front) a
                (rest ++ (behind ++ (y ∷ []))) m s f t'
                (omega (arith, (cut_before max front a rest le).2, m, h)))
      ]

  split_at :
      (a : A) (xs : List A)
      → In a xs
      → (before : List A) × (after : List A) × (xs ≡ before ++ (a ∷ after))
  split_at a [] i = elim i [ ]
  split_at a (x ∷ xs) (inl e) = ([], xs, ap (λ z. z ∷ xs) (sym e))
  split_at a (x ∷ xs) (inr i) = let (b, c, e) = split_at a xs i in (x ∷ b, c, ap (λ zs. x ∷ zs) e)

  -- On a queue that stays as it is, in the strict order of keys that are not empty, rounds that decide
  -- at least one entry each come to every entry, from the key of whatever entry the cursor starts.
  pub selected-reaches :
      (max : ℕ) (queue : List A) (last a : A)
      → 0 < max
      → IsStrict key queue
      → All (λ b. 0 < length (key b)) queue
      → In last queue
      → In a queue
      → (n : ℕ) × In a (selected key max (cursor_at key max (some (key last)) queue n) queue)
  selected-reaches max queue last a m s f il ia =
      let (before, after, e) = split_at last queue il in
      let turn : List A = after ++ (before ++ (last ∷ [])) in
      let (front, rest, q) = split_at a turn (In-round before after last a (subst (In a) e ia)) in
      turn-reaches (suc (length front)) max queue (some (key last)) front a rest m s f
        (subst (IsTurn key queue (some (key last))) q (record {
          before = before;
          last = last;
          after = after;
          is_queue = e;
          is_cursor = refl;
          is_turn = refl;
        }))
        (omega arith)
