-- ===== src/Tiers/Claims.antt =====
-- src/tiers.js: the tier that a claim gets when a row lands, and the one that a writer may assert.
pub mod Warrant
pub mod Landing
use kb_graph.Base.{
  ℕ, Bool, true, false, not, ◌&&◌, ◌||◌, List, [], ◌∷◌, ◌++◌, Option, none, some, if◌then◌else◌,
  Text, codes, text_eq,
}
use kb_graph.Tiers.{
  Tier, inferred, observed, verified, default_tier, coerce_tier, includes_tier, is_same, text_of,
}
use kb_graph.Tiers.Sources.{is_unattended_source}
use kb_graph.Tiers.References.{normalize_ref, reference_in}
use kb_graph.Tiers.Repos.{Host, resolved_reference_in, search_dirs}

pub record Standing : Type 0 where
  pub tier : Tier
  pub ref : Option Text

unfoldable pub is_given : Option Text → Bool
is_given none = false
is_given (some t) = true

-- The tier of a row: a claim to be verified that shows no reference falls to the floor.
unfoldable pub resolve_tier : Option Text → Option Text → Standing
resolve_tier tier ref =
    let want = coerce_tier tier in
    let text = normalize_ref ref in
    if is_same want verified && not (is_given (reference_in text))
    then record { tier = default_tier; ref = text }
    else record { tier = want; ref = text }

pub data TierError : Type 0 where
  unknown_tier : Text → TierError
  unattended_sweep : Option Text → TierError
  reference_required : Option Text → TierError
  reference_unresolved : Option Text → List Text → TierError

pub data Asserted : Type 0 where
  accepted : Standing → Asserted
  refused : TierError → Asserted

unfoldable pub is_unknown : Option Text → Bool
is_unknown none = false
is_unknown (some t) = not (includes_tier t)

unfoldable pub is_demoted : Option Text → Tier → Bool
is_demoted none got = false
is_demoted (some t) got = not (text_eq (text_of got) t)

unfoldable pub given_or : Option Text → Text
given_or none = []
given_or (some t) = t

unfoldable pub tried : List Text → List Text → List Text
tried [] roots = roots
tried (d ∷ ds) roots = d ∷ ds

module _ (host : Host) where
  -- The last check: a reference of the right shape must also name something in reach.
  unfoldable pub assert_resolved : Option Text → List Text → Standing → Asserted
  assert_resolved ref roots resolved =
      if is_same resolved.tier verified && not (is_given (resolved_reference_in host ref roots))
      then refused (reference_unresolved (normalize_ref ref) (tried (search_dirs host roots) roots))
      else accepted resolved

  -- The tier that a writer may assert, in the order of the checks.
  unfoldable pub assert_tier : Option Text → Option Text → Option Text → List Text → Asserted
  assert_tier tier ref provenance roots =
      let resolved = resolve_tier tier ref in
      if is_unknown tier
      then refused (unknown_tier (given_or tier))
      else if is_unattended_source provenance && not (is_same (coerce_tier tier) default_tier)
      then refused (unattended_sweep provenance)
      else if is_demoted tier resolved.tier
      then refused (reference_required (normalize_ref ref))
      else assert_resolved ref roots resolved
