-- ===== src/Reviews/Accepted.antt =====
-- src/fact-reviews.js: what an accepted review promises.
use kb_graph.Base.{
  ℕ, suc, Bool, List, [], ◌∷◌, Option, none, some, Text, map, ltb, length, Dict, lookup, ◌≡◌, refl,
  sym, subst, inl, inr, All, arith, Bool-cases,
}
use kb_graph.Facts.Graph.{Fact}
use kb_graph.Reviews.Items.{
  Item, Decision, ReviewError, Checked, ok, refused, trimmed, normalize_item, prepend,
  normalize_each, facts_by_id, source_of, duplicates, unknowns, missing, decisions_by_id,
  check_targets, sort_decisions, checked_targets, with_decisions, covered, normalize_review_items,
}
use kb_graph.Reviews.Targets.{IsWellFormed, normalize_item-IsWellFormed}

abbrev pub decided_ids : List Decision → List Text
decided_ids = map (λ d. d.fact_id)

abbrev pub item_ids : List Item → List Text
item_ids = map (λ i. trimmed i.fact_id)

prepend_parts :
    (d : Checked Decision) (rest : Checked (List Decision)) (ds : List Decision)
    → prepend d rest ≡ ok ds
    → (e : Decision) × (es : List Decision) × (d ≡ ok e) × (rest ≡ ok es) × (ds ≡ e ∷ es)
unfolding prepend
prepend_parts (refused e) rest ds h = cc
prepend_parts (ok d) (refused e) ds h = cc
prepend_parts (ok d) (ok es) ds h = (d, es, refl, refl, ground arith)

pub normalize_each-All :
    (facts : Dict Fact) (ix : ℕ) (items : List Item) (ds : List Decision)
    → normalize_each facts ix items ≡ ok ds
    → All IsWellFormed ds × (decided_ids ds ≡ item_ids items)
unfolding normalize_each
normalize_each-All facts ix [] [] h = (tt, refl)
normalize_each-All facts ix [] (d ∷ ds) h = absurd (ground arith)
normalize_each-All facts ix (item ∷ items) ds h =
    let source = source_of (lookup (trimmed item.fact_id) facts) in
    let (e, es, first, later, whole) =
      prepend_parts (normalize_item source ix item item.extra) (normalize_each facts (suc ix) items)
        ds h in
    let one = normalize_item-IsWellFormed source ix item item.extra e first in
    let others = normalize_each-All facts (suc ix) items es later in
    subst (λ xs. All IsWellFormed xs × (decided_ids xs ≡ item_ids (item ∷ items))) (sym whole)
      ((one.0, others.0), rw (one.1, others.1) refl)

module _ (locale_le : Text → Text → Bool) where
  -- The parts of an accepted review, before the sort.
  abbrev pub IsAccepted : List Item → List Fact → List Decision → List Decision → Type 0
  IsAccepted items facts es ds =
      (normalize_each (facts_by_id facts) 0 items ≡ ok es)
      × (check_targets (decisions_by_id es) es ≡ none)
      × (ds ≡ sort_decisions locale_le es)
      × (missing facts (item_ids items) ≡ [])
      × (unknowns (facts_by_id facts) (item_ids items) ≡ [])
      × (duplicates [] (item_ids items) ≡ [])

  checked_parts :
      (es ds : List Decision) (o : Option ReviewError)
      → checked_targets locale_le es o ≡ ok ds
      → (o ≡ none) × (ds ≡ sort_decisions locale_le es)
  unfolding checked_targets
  checked_parts es ds none h = (refl, ground arith)
  checked_parts es ds (some e) h = cc

  with_parts :
      (o : Checked (List Decision)) (ds : List Decision)
      → with_decisions locale_le o ≡ ok ds
      → (es : List Decision) × (o ≡ ok es)
        × (check_targets (decisions_by_id es) es ≡ none)
        × (ds ≡ sort_decisions locale_le es)
  unfolding with_decisions
  with_parts (refused e) ds h = cc
  with_parts (ok es) ds h =
      let parts = checked_parts es ds (check_targets (decisions_by_id es) es) h in
      (es, refl, parts.0, parts.1)

  covered_parts :
      (items : List Item) (facts : List Fact) (a b c : List Text) (ds : List Decision)
      → covered locale_le items facts a b c ≡ ok ds
      → (with_decisions locale_le (normalize_each (facts_by_id facts) 0 items) ≡ ok ds)
        × (a ≡ [])
        × (b ≡ [])
        × (c ≡ [])
  unfolding covered
  covered_parts items facts [] [] [] ds h = (h, refl, refl, refl)
  covered_parts items facts [] [] (c ∷ cs) ds h = cc
  covered_parts items facts [] (b ∷ bs) c ds h = cc
  covered_parts items facts (a ∷ rest) b c ds h = cc

  pub accepted :
      (items : List Item) (facts : List Fact) (ds : List Decision)
      → normalize_review_items locale_le items facts ≡ ok ds
      → (es : List Decision) × IsAccepted items facts es ds
  unfolding normalize_review_items
  accepted [] facts ds h = cc
  accepted (item ∷ items) facts ds h = elim (Bool-cases (ltb 1000 (length (item ∷ items)))) [
    | inl e ↦ absurd (ground arith)
    | inr e ↦
        let all_items = item ∷ items in
        let parts =
          covered_parts all_items facts (missing facts (item_ids all_items))
            (unknowns (facts_by_id facts) (item_ids all_items)) (duplicates [] (item_ids all_items))
            ds (rw e at h) in
        let (es, each, targets, sorted) =
          with_parts (normalize_each (facts_by_id facts) 0 all_items) ds parts.0 in
        (es, (each, targets, sorted, parts.1, parts.2, parts.3))
  ]
