-- ===== src/Tiers/Claims/Landing.antt =====
-- src/tiers.js: a standing that was given is kept when its row lands again.
use kb_graph.Base.{
  Bool, true, List, [], ◌∷◌, Option, none, some, Text, any, filter, ◌≡◌, refl, arith, find,
  text_dec,
}
use kb_graph.Tiers.{
  Tier, inferred, observed, verified, coerce_tier, is_same, text_of, is_tier, or_default,
}
use kb_graph.Tiers.References.{normalize_ref, reference_in, if_named, token_is_reference, tokens_of}
use kb_graph.Tiers.References.Stored.{normalize_ref_idem}
use kb_graph.Tiers.Repos.{
  Host, resolved_reference_in, if_resolved, search_dirs, resolves_in, token_resolves,
  resolves_by_shape,
}
use kb_graph.Tiers.Claims.{resolve_tier}

pub coerce_tier-text_of : (t : Tier) → coerce_tier (some (text_of t)) ≡ t
unfolding coerce_tier find text_of is_tier or_default text_dec
coerce_tier-text_of inferred = refl
coerce_tier-text_of observed = refl
coerce_tier-text_of verified = refl

-- A row that lands again, with the tier and the reference that it was given, keeps both.
pub resolve_tier_idem :
    (tier ref : Option Text)
    → resolve_tier (some (text_of (resolve_tier tier ref).tier)) (resolve_tier tier ref).ref
      ≡ resolve_tier tier ref
unfolding resolve_tier is_same
resolve_tier_idem tier ref = ground (
  arith,
  normalize_ref_idem ref,
  coerce_tier-text_of inferred,
  coerce_tier-text_of (coerce_tier tier),
)

-- What resolves has the shape of a reference.
any-filter_of : (p q : Text → Bool) (ts : List Text) → any q (filter p ts) ≡ true → any p ts ≡ true
unfolding any filter
any-filter_of p q [] h = h
any-filter_of p q (t ∷ ts) h = ground (arith, any-filter_of p q ts)

any-search :
    (host : Host) (p : Text → Bool) (ts dirs : List Text)
    → any (resolves_in host (filter p ts)) dirs ≡ true
    → any p ts ≡ true
unfolding any resolves_in
any-search host p ts [] h = cc
any-search host p ts (d ∷ ds) h =
    ground (arith, any-filter_of p (token_resolves host d) ts, any-search host p ts ds)

-- What resolves is a reference by its shape, in the same stored form: the check of a writer's claim
-- admits no text that the landing of the row would send to the floor.
pub resolved_reference_in-reference_in :
    (host : Host) (ref : Option Text) (roots : List Text) (f : Text)
    → resolved_reference_in host ref roots ≡ some f
    → reference_in ref ≡ some f
unfolding resolved_reference_in reference_in if_resolved if_named
resolved_reference_in-reference_in host ref roots f h = go (normalize_ref ref) h
  where
    go : (o : Option Text) → if_resolved host roots o ≡ some f → if_named o ≡ some f
    go none k = k
    go (some flat) k = ground (
      arith,
      any-filter_of token_is_reference resolves_by_shape (tokens_of flat),
      any-search host token_is_reference (tokens_of flat) (search_dirs host roots),
    )
