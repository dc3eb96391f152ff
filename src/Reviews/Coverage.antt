-- ===== src/Reviews/Coverage.antt =====
-- src/fact-reviews.js: an accepted review covers the live facts exactly, and its targets are current.
use kb_graph.Base.{
  Bool, true, false, List, [], ◌∷◌, some, Text, text_eq, filter, any, ◌≡◌, refl, sym, ap, ◌∙◌,
  subst, inl, inr, In, at_of_All, arith, Bool-cases, eq_of_text_eq,
}
use kb_graph.Facts.Graph.{Fact}
use kb_graph.Reviews.Items.{
  Item, Decision, ok, facts_by_id, is_current, duplicates, missing, decisions_by_id,
  normalize_review_items,
}
use kb_graph.Reviews.Targets.{In-sort_decisions, check_targets_all, target_of, IsWellFormed}
use kb_graph.Reviews.Accepted.{decided_ids, item_ids, normalize_each-All, accepted}

missing-In :
    (f : Fact) (facts : List Fact) (ids : List Text)
    → missing facts ids ≡ []
    → In f facts
    → any (λ id. text_eq id f.id) ids ≡ true
unfolding missing filter
missing-In f [] ids h m = elim m [ ]
missing-In f (g ∷ facts) ids h m = ground (arith, missing-In f facts ids)

decided-In :
    (k : Text) (es : List Decision)
    → any (λ id. text_eq id k) (decided_ids es) ≡ true
    → (e : Decision) × In e es × (e.fact_id ≡ k)
unfolding any
decided-In k [] h = absurd (ground arith)
decided-In k (e ∷ es) h = elim (Bool-cases (text_eq e.fact_id k)) [
  | inl same ↦ (e, inl refl, eq_of_text_eq e.fact_id k same)
  | inr other ↦ let (d, m, same) = decided-In k es (ground arith) in (d, inr m, same)
]

seen-In :
    (e : Decision) (es : List Decision) (seen : List Text)
    → duplicates seen (decided_ids es) ≡ []
    → In e es
    → any (λ s. text_eq s e.fact_id) seen ≡ false
unfolding duplicates any
seen-In e [] seen h m = elim m [ ]
seen-In e (d ∷ es) seen h m = ground (arith, seen-In e es (d.fact_id ∷ seen))

decided_once :
    (a b : Decision) (es : List Decision) (seen : List Text)
    → duplicates seen (decided_ids es) ≡ []
    → In a es
    → In b es
    → a.fact_id ≡ b.fact_id
    → a ≡ b
unfolding duplicates any
decided_once a b [] seen h m n same = elim m [ ]
decided_once a b (d ∷ es) seen h m n same = ground (
  arith,
  decided_once a b es (d.fact_id ∷ seen),
  seen-In a es (d.fact_id ∷ seen),
  seen-In b es (d.fact_id ∷ seen),
)

module _ (locale_le : Text → Text → Bool) (items : List Item) (facts : List Fact)
    (ds : List Decision) where
  -- In an accepted review every live fact has a decision, and exactly one.
  pub normalize_review_items_covers :
      (f : Fact)
      → normalize_review_items locale_le items facts ≡ ok ds
      → In f facts
      → (e : Decision) × In e ds
        × (e.fact_id ≡ f.id)
        × ((d : Decision) → In d ds → d.fact_id ≡ f.id → d ≡ e)
  normalize_review_items_covers f h live =
      let (es, (each, targets, sorted, covers, known, once)) =
        accepted locale_le items facts ds h in
      let ids = (normalize_each-All (facts_by_id facts) 0 items es each).1 in
      let (e, e_in, e_id) = decided-In f.id es (
        subst (λ xs. any (λ id. text_eq id f.id) xs ≡ true) (sym ids)
          (missing-In f facts (item_ids items) covers live)) in
      (
        e,
        ground (arith, In-sort_decisions locale_le e es),
        e_id,
        λ d d_in d_id.
            decided_once d e es [] (ap (duplicates []) ids ∙ once)
              (ground (arith, In-sort_decisions locale_le d es)) e_in (d_id ∙ sym e_id),
      )

  -- In an accepted review a decision has a target exactly if it is `superseded` or `synonym`, the
  -- target is not its own fact, `rejected` and `abstain` have a reason, and all but `abstain` have a
  -- source to refer to.
  pub normalize_review_items-IsWellFormed :
      (d : Decision)
      → normalize_review_items locale_le items facts ≡ ok ds
      → In d ds
      → IsWellFormed d
  normalize_review_items-IsWellFormed d h m =
      let (es, (each, targets, sorted, covers, known, once)) =
        accepted locale_le items facts ds h in
      at_of_All IsWellFormed d es (normalize_each-All (facts_by_id facts) 0 items es each).0
        (ground (arith, In-sort_decisions locale_le d es))

  -- A target of a decision in an accepted review has a decision in the same review, and that
  -- decision is `current`.
  pub normalize_review_items_targets :
      (d : Decision) (t : Text)
      → normalize_review_items locale_le items facts ≡ ok ds
      → In d ds
      → d.target_fact_id ≡ some t
      → (e : Decision) × In e ds × (e.fact_id ≡ t) × (is_current e.disposition ≡ true)
  normalize_review_items_targets d t h m k =
      let (es, (each, targets, sorted, covers, known, once)) =
        accepted locale_le items facts ds h in
      let d_in : In d es = ground (arith, In-sort_decisions locale_le d es) in
      let (e, e_in, e_id, e_current) =
        target_of es d t (check_targets_all (decisions_by_id es) d es targets d_in) k in
      (e, ground (arith, In-sort_decisions locale_le e es), e_id, e_current)
