-- ===== src/Tiers/Claims/Warrant.antt =====
-- src/tiers.js: what an asserted tier rests on.
use kb_graph.Base.{
  true, false, List, Option, none, some, Text, any, ◌≡◌, refl, sym, ap, ◌∙◌, inl, inr, arith,
  Option-cases, eq_of_text_eq, text_eq_self, text_dec, ◌↔◌, find,
}
use kb_graph.Tiers.{
  inferred, observed, verified, default_tier, coerce_tier, includes_tier, is_same, text_of, is_tier,
  or_default,
}
use kb_graph.Tiers.Sources.{is_unattended_source}
use kb_graph.Tiers.References.{normalize_ref, reference_in}
use kb_graph.Tiers.Repos.{Host, resolved_reference_in, if_resolved}
use kb_graph.Tiers.Claims.{
  Standing, is_given, resolve_tier, accepted, is_unknown, is_demoted, assert_resolved, assert_tier,
}

-- A known text is the text of the tier that it reads as.
text_of-coerce_tier : (t : Text) → includes_tier t ≡ true → text_of (coerce_tier (some t)) ≡ t
unfolding includes_tier coerce_tier any find is_tier or_default
text_of-coerce_tier t h = ground (
  arith,
  eq_of_text_eq t (text_of inferred),
  eq_of_text_eq t (text_of observed),
  eq_of_text_eq t (text_of verified),
)

coerce_none : coerce_tier none ≡ inferred
unfolding coerce_tier
coerce_none = refl

verified_differs : is_demoted (some (text_of verified)) default_tier ≡ true
unfolding is_demoted text_of text_dec
verified_differs = refl

-- A claim to be verified that falls to the floor is seen to fall.
verified-is_demoted :
    (tier : Option Text)
    → is_unknown tier ≡ false
    → coerce_tier tier ≡ verified
    → is_demoted tier default_tier ≡ true
unfolding is_unknown is_demoted
verified-is_demoted none h e = ground (arith, coerce_none)
verified-is_demoted (some t) h e =
    demoted t (sym (text_of-coerce_tier t (ground arith)) ∙ ap text_of e)
  where
    demoted : (u : Text) → u ≡ text_of verified → is_demoted (some u) default_tier ≡ true
    demoted u k = rw (k) verified_differs

-- A known claim that keeps its tier is not seen to fall.
kept-is_demoted :
    (tier : Option Text) → is_unknown tier ≡ false → is_demoted tier (coerce_tier tier) ≡ false
unfolding is_unknown is_demoted
kept-is_demoted none h = refl
kept-is_demoted (some t) h = rw (text_of-coerce_tier t (ground arith), text_eq_self t) refl

-- What resolves, by name or by shape, is the stored form.
resolved_reference_in-stored :
    (host : Host) (ref : Option Text) (roots : List Text) (f : Text)
    → resolved_reference_in host ref roots ≡ some f
    → normalize_ref ref ≡ some f
unfolding resolved_reference_in if_resolved
resolved_reference_in-stored host ref roots f h = elim (Option-cases (normalize_ref ref)) [
  | inl e ↦ ground arith
  | inr (g, e) ↦ ground arith
]

module _ (host : Host) (tier ref provenance : Option Text) (roots : List Text) where
  -- What a writer must have: a tier that is known, the floor where the pass is unattended, and for
  -- the highest tier a reference that has the right shape and resolves.
  pub record IsWarranted : Type 0 where
    pub is_known : is_unknown tier ≡ false
    pub is_attended : is_unattended_source provenance ≡ true → coerce_tier tier ≡ default_tier
    pub is_shown :
        coerce_tier tier ≡ verified
        → (is_given (reference_in (normalize_ref ref)) ≡ true)
          × (is_given (resolved_reference_in host ref roots) ≡ true)

  assert_tier_accepts :
      (s : Standing)
      → assert_tier host tier ref provenance roots ≡ accepted s
      → IsWarranted × (s ≡ record { tier = coerce_tier tier; ref = normalize_ref ref })
  unfolding assert_tier assert_resolved resolve_tier is_same
  assert_tier_accepts s h = (
    record {
      is_known = ground arith;
      is_attended = ground arith;
      is_shown = ground (arith, verified-is_demoted tier);
    },
    ground (arith, verified-is_demoted tier),
  )

  assert_tier_admits :
      IsWarranted
      → assert_tier host tier ref provenance roots
        ≡ accepted (record { tier = coerce_tier tier; ref = normalize_ref ref })
  unfolding assert_tier assert_resolved resolve_tier is_same
  assert_tier_admits w = ground (arith, kept-is_demoted tier w.is_known, w.is_attended, w.is_shown)

  -- A writer is given a standing exactly when the claim is warranted, and then it is the tier claimed,
  -- or the floor where none is claimed, with the stored form of the reference.
  pub assert_tier-IsWarranted :
      (s : Standing)
      → (assert_tier host tier ref provenance roots ≡ accepted s)
        ↔ (IsWarranted × (s ≡ record { tier = coerce_tier tier; ref = normalize_ref ref }))
  assert_tier-IsWarranted s =
      (assert_tier_accepts s, λ (w, e). assert_tier_admits w ∙ ap accepted (sym e))
