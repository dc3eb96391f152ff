-- ===== src/Predicates/Registry/Inverses.antt =====
-- src/predicates.js: the inverse map converges, and keeps off the single-valued predicates.
use kb_graph.Base.{
  true, false, map, none, some, filter, Dict, lookup, Text, ◌≡◌, In-of_In-filter, arith,
}
use kb_graph.Predicates.Registry.{
  Config, has, without_chains, predicate_inverses, allowed_inverse, single_valued,
  canonical_predicate, configured_inverses,
}
use kb_graph.Predicates.Registry.Aliases.{chain_free, In-of_from_entries, without_chains-In}

allowed_ends :
    (c : Config) (p inverse : Text)
    → allowed_inverse c (p, inverse) ≡ true
    → (has (single_valued c) p ≡ false) × (has (single_valued c) inverse ≡ false)
unfolding allowed_inverse
allowed_ends c p inverse e = ground arith

-- An inverse fold never starts from or ends in a single-valued predicate, and its target is folded
-- no further.
pub predicate_inverses_safe :
    (c : Config) (p inverse : Text)
    → lookup p (predicate_inverses c) ≡ some inverse
    → (has (single_valued c) p ≡ false)
      × (has (single_valued c) inverse ≡ false)
      × (lookup inverse (predicate_inverses c) ≡ none)
unfolding predicate_inverses
predicate_inverses_safe c p inverse h =
    let kept =
      without_chains-In (filter (allowed_inverse c) es) p inverse
        (In-of_from_entries (without_chains (filter (allowed_inverse c) es)) p inverse h) in
    let passed = (In-of_In-filter (allowed_inverse c) (p, inverse) es kept).1 in
    let parts = allowed_ends c p inverse passed in
    (parts.0, parts.1, chain_free (filter (allowed_inverse c) es) p inverse h)
  where
    es : Dict Text
    es = map (λ e. (canonical_predicate c e.0, canonical_predicate c e.1)) (configured_inverses c)
