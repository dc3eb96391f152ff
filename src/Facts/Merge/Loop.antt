-- ===== src/Facts/Merge/Loop.antt =====
-- src/facts.js: the loop of `dedupeLiveFacts` over its sorted rows.
use kb_graph.Base.{
  true, false, ◌||◌, List, [], ◌∷◌, if◌then◌else◌, Text, text_eq, text_dec, ◌≡◌, ◌≢◌, ◌⊎◌, refl,
  sym, ◌∙◌, ap, arith, inl, inr, In, any, at_of_All, any_of_In,
}
use kb_graph.Predicates.Registry.{Config, has}
use kb_graph.Facts.Graph.{Fact, has_fact_id}
use kb_graph.Facts.Graph.Invariant.{IsKeyed}
use kb_graph.Facts.Merge.{start_le, dedupe_key, dropped_ids}
use kb_graph.Facts.Merge.Sorting.{StartsBefore, IsSorted, start_le_refl}

abbrev after : Config → Fact → List Text → List Text
after c f kept = if has kept (dedupe_key c f) then kept else dedupe_key c f ∷ kept

-- The row `g` stays for the row `f`: it has `f`'s key, and starts no later.
pub record StaysFor (c : Config) (dropped : List Text) (rows : List Fact) (f g : Fact)
    : Type 0 where
  pub member : In g rows
  pub key : dedupe_key c g ≡ dedupe_key c f
  pub stays : has dropped g.id ≡ false
  pub earlier : start_le g.valid_from f.valid_from ≡ true

module _ (c : Config) where
  -- A row whose key is taken goes.
  dropped_of_taken :
      (f : Fact) (rows : List Fact) (kept : List Text)
      → In f rows
      → has kept (dedupe_key c f) ≡ true
      → has (dropped_ids c rows kept) f.id ≡ true
  unfolding dropped_ids has any
  dropped_of_taken f [] kept h k = elim h [ ]
  dropped_of_taken f (r ∷ rows) kept h k = ground (arith, dropped_of_taken f rows (after c r kept))

  -- Of two rows with one key at least one goes.
  pub one_dropped :
      (f g : Fact) (rows : List Fact) (kept : List Text)
      → In f rows
      → In g rows
      → dedupe_key c f ≡ dedupe_key c g
      → f.id ≢ g.id
      → (has (dropped_ids c rows kept) f.id || has (dropped_ids c rows kept) g.id) ≡ true
  unfolding dropped_ids has any
  one_dropped f g [] kept hf hg e d = elim hf [ ]
  one_dropped f g (r ∷ rows) kept (inl p) (inl q) e d =
      absurd (d (ap (λ (x : Fact). x.id) (p ∙ sym q)))
  one_dropped f g (r ∷ rows) kept (inl p) (inr hg) e d =
      ground (arith, dropped_of_taken g rows (after c r kept) hg)
  one_dropped f g (r ∷ rows) kept (inr hf) (inl q) e d =
      ground (arith, dropped_of_taken f rows (after c r kept) hf)
  one_dropped f g (r ∷ rows) kept (inr hf) (inr hg) e d =
      ground (arith, one_dropped f g rows (after c r kept) hf hg e d)

  -- Only rows of the list go.
  pub has_fact_id_of_dropped :
      (id : Text) (rows : List Fact) (kept : List Text)
      → has (dropped_ids c rows kept) id ≡ true
      → has_fact_id rows id ≡ true
  unfolding dropped_ids has any
  has_fact_id_of_dropped id [] kept h = h
  has_fact_id_of_dropped id (r ∷ rows) kept h =
      ground (arith, has_fact_id_of_dropped id rows (after c r kept))

  ne_of_keyed :
      (r g : Fact) (rows : List Fact) → has_fact_id rows r.id ≡ false → In g rows → r.id ≢ g.id
  ne_of_keyed r g rows h m e =
      cc (h, any_of_In (λ (x : Fact). text_eq x.id r.id) g rows m (ground arith))

  -- The first row with its key stays.
  head_stays :
      (r : Fact) (rows : List Fact) (kept : List Text)
      → has_fact_id rows r.id ≡ false
      → has kept (dedupe_key c r) ≡ false
      → has (dropped_ids c (r ∷ rows) kept) r.id ≡ false
  unfolding dropped_ids
  head_stays r rows kept h k =
      rw k (ground (arith, has_fact_id_of_dropped r.id rows (dedupe_key c r ∷ kept)))

  tail_stays :
      (r g : Fact) (rows : List Fact) (kept : List Text)
      → r.id ≢ g.id
      → has (dropped_ids c rows (after c r kept)) g.id ≡ false
      → has (dropped_ids c (r ∷ rows) kept) g.id ≡ false
  unfolding dropped_ids has any
  tail_stays r g rows kept d h = ground arith

  pub earliest_stays :
      (f : Fact) (rows : List Fact) (kept : List Text)
      → IsSorted rows
      → IsKeyed rows
      → In f rows
      → has kept (dedupe_key c f) ≡ false
      → (g : Fact) × StaysFor c (dropped_ids c rows kept) rows f g
  earliest_stays f [] kept s k m h = elim m [ ]
  earliest_stays f (r ∷ rows) kept s k m h = elim (text_dec (dedupe_key c r) (dedupe_key c f)) [
    | yes e ↦ (
      r,
      record {
        member = inl refl;
        key = e;
        stays = head_stays r rows kept k.0 (rw e h);
        earlier = first m;
      },
    )
    | no d ↦
        let (g, later) = earliest_stays f rows (after c r kept) s.1 k.1 (behind d m) (still d) in
        (
          g,
          record {
            member = inr later.member;
            key = later.key;
            stays = tail_stays r g rows kept (ne_of_keyed r g rows k.0 later.member) later.stays;
            earlier = later.earlier;
          },
        )
  ]
    where
      first : (f ≡ r) ⊎ In f rows → start_le r.valid_from f.valid_from ≡ true
      first (inl e) = rw e (start_le_refl r.valid_from)
      first (inr n) = at_of_All (StartsBefore r) f rows s.0 n

      behind : dedupe_key c r ≢ dedupe_key c f → (f ≡ r) ⊎ In f rows → In f rows
      behind d (inl e) = absurd (d (ap (dedupe_key c) (sym e)))
      behind d (inr n) = n

      still : dedupe_key c r ≢ dedupe_key c f → has (after c r kept) (dedupe_key c f) ≡ false
      still d = unfold has any in ground arith
