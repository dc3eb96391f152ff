-- ===== src/Predicates/Registry/Triples.antt =====
-- src/predicates.js: `canonicalTriple` gives a triple one direction.
use kb_graph.Base.{
  true, false, [], ◌∷◌, Option, none, some, lookup, Text, trim, ◌≡◌, refl, arith, Option-cases, ◌⊎◌,
  inl, inr, ◌∙◌,
}
use kb_graph.Predicates.Registry.{
  Config, Triple, has, predicate_inverses, single_valued, canonical_predicate, work_item_object,
  fold_direction, is_swapped, fold_roles, canonical_triple,
}
use kb_graph.Predicates.Registry.Inverses.{predicate_inverses_safe}

module _ (c : Config) where
  -- No inverse is left to fold: the table has no target for the predicate, or an empty one.
  IsFolded : Text → Type 0
  IsFolded pred =
      (lookup pred (predicate_inverses c) ≡ none) ⊎ (lookup pred (predicate_inverses c) ≡ some [])

  -- The predicate that a triple is stored under has no inverse fold left to make.
  no_inverse_left :
      (f : Triple) (pred : Text)
      → IsFolded (fold_direction c f (lookup pred (predicate_inverses c)) pred).predicate
  unfolding fold_direction IsFolded
  no_inverse_left f pred = go (lookup pred (predicate_inverses c)) refl
    where
      go :
          (o : Option Text)
          → lookup pred (predicate_inverses c) ≡ o
          → IsFolded (fold_direction c f o pred).predicate
      go none e = inl e
      go (some []) e = inr e
      go (some (i ∷ v)) e = inl (predicate_inverses_safe c pred (i ∷ v) e).2

  predicate-fold_roles : (t : Triple) → (fold_roles c t).predicate ≡ t.predicate
  unfolding fold_roles
  predicate-fold_roles t = ground arith

  fold_roles_idem :
      (t : Triple)
      → ((x : Text) → c.is_work_item x ≡ true → c.names_work_item x ≡ true)
      → fold_roles c (fold_roles c t) ≡ fold_roles c t
  unfolding fold_roles is_swapped
  fold_roles_idem t exact = ground (arith, exact (trim t.object), exact (trim t.subject))

  canonical_triple_of_settled :
      (t : Triple)
      → canonical_predicate c t.predicate ≡ t.predicate
      → IsFolded t.predicate
      → canonical_triple c t ≡ fold_roles c t
  unfolding canonical_triple fold_direction IsFolded
  canonical_triple_of_settled t settled (inl free) = rw (settled, free)
  canonical_triple_of_settled t settled (inr empty) = rw (settled, empty)

  -- A triple that `canonicalTriple` made is its own canonical triple, if the fold of spellings has
  -- settled on its predicate and whatever is a work item also begins with one.
  pub canonical_triple_idem :
      (f : Triple)
      → ((x : Text) → c.is_work_item x ≡ true → c.names_work_item x ≡ true)
      → canonical_predicate c (canonical_triple c f).predicate ≡ (canonical_triple c f).predicate
      → canonical_triple c (canonical_triple c f) ≡ canonical_triple c f
  unfolding canonical_triple
  canonical_triple_idem f exact settled =
      canonical_triple_of_settled (canonical_triple c f) settled
        (rw predicate-fold_roles (no_inverse_left f (canonical_predicate c f.predicate)))
      ∙ fold_roles_idem _ exact

  -- A predicate that retires older objects keeps the subject whose objects it retires: a
  -- single-valued triple is stored in the direction in which it was given, unless its predicate is
  -- also one that wants a work item for its object.
  pub canonical_triple_single_valued :
      (f : Triple)
      → has (single_valued c) (canonical_predicate c f.predicate) ≡ true
      → has (work_item_object c) (canonical_predicate c f.predicate) ≡ false
      → canonical_triple c f ≡ record f { predicate = canonical_predicate c f.predicate }
  unfolding canonical_triple fold_direction fold_roles is_swapped
  canonical_triple_single_valued f single plain =
      elim (Option-cases (lookup (canonical_predicate c f.predicate) (predicate_inverses c))) [
        | inl e ↦ rw e (rw plain)
        | inr (v, e) ↦ cc (single, (predicate_inverses_safe c _ v e).0)
      ]
