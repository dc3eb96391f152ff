-- ===== src/Tiers.antt =====
-- src/tiers.js: how much standing a note has earned, and what a writer may claim for one.
pub mod Sources
pub mod References
pub mod Repos
pub mod Claims
mod Tests
use kb_graph.Base.{
  ℕ, suc, Bool, true, false, ◌&&◌, ltb, List, [], ◌∷◌, ◌++◌, Option, none, some, if◌then◌else◌,
  Text, codes, text_eq, find, any, filter, length, take, map,
}

pub data Tier : Type 0 where
  inferred observed verified : Tier

unfoldable pub text_of : Tier → Text
text_of inferred = codes "inferred"
text_of observed = codes "observed"
text_of verified = codes "verified"

-- Weakest first.
abbrev pub tiers : List Tier
tiers = inferred ∷ observed ∷ verified ∷ []

abbrev pub default_tier : Tier
default_tier = inferred

unfoldable pub is_tier : Text → Tier → Bool
is_tier t tier = text_eq t (text_of tier)

unfoldable pub includes_tier : Text → Bool
includes_tier t = any (is_tier t) tiers

unfoldable pub or_default : Option Tier → Tier
or_default none = default_tier
or_default (some t) = t

-- A tier that is missing or unknown reads as the floor.
unfoldable pub coerce_tier : Option Text → Tier
coerce_tier none = default_tier
coerce_tier (some t) = or_default (find (is_tier t) tiers)

unfoldable pub is_same : Tier → Tier → Bool
is_same inferred inferred = true
is_same observed observed = true
is_same verified verified = true
is_same inferred observed = false
is_same inferred verified = false
is_same observed inferred = false
is_same observed verified = false
is_same verified inferred = false
is_same verified observed = false

unfoldable pub index_of : Tier → List Tier → ℕ
index_of t [] = 0
index_of t (u ∷ us) = let rest = index_of t us in if is_same u t then 0 else suc rest

unfoldable pub tier_rank : Option Text → ℕ
tier_rank t = index_of (coerce_tier t) tiers

unfoldable pub tier_meaning : Tier → Text
tier_meaning verified = codes "a fix landed or a test proves it"
tier_meaning observed = codes "an agent directly saw this behaviour"
tier_meaning inferred = codes "an unconfirmed model conclusion — verify before acting on it"

unfoldable pub tier_mark : Tier → Text
tier_mark verified = []
tier_mark observed = []
tier_mark inferred = codes "⚠ "

unfoldable pub tier_label : Option Text → Text
tier_label tier = tier_mark (coerce_tier tier) ++ text_of (coerce_tier tier)

-- The distinct tiers, as `new Set` keeps them.
unfoldable pub distinct_tiers : List Tier → List Tier → List Tier
distinct_tiers seen [] = seen
distinct_tiers seen (t ∷ ts) =
    let kept = distinct_tiers seen ts in
    let added = distinct_tiers (seen ++ (t ∷ [])) ts in if any (is_same t) seen then kept else added

unfoldable pub is_counted : Option Text × ℕ → Bool
is_counted (tier, count) = ltb 0 count

unfoldable pub coerced : Option Text × ℕ → Tier
coerced (tier, count) = coerce_tier tier

unfoldable pub tiers_discriminate : List (Option Text × ℕ) → Bool
tiers_discriminate counts =
    ltb 1 (length (distinct_tiers [] (map coerced (filter is_counted counts))))

unfoldable pub upper_of : Tier → Text
upper_of inferred = codes "INFERRED"
upper_of observed = codes "OBSERVED"
upper_of verified = codes "VERIFIED"

-- A text or nothing, as `tier_ref ? … : ''` reads it: the empty text is nothing.
unfoldable pub given : Option Text → Text → Text → Text
given none before after = []
given (some []) before after = []
given (some (c ∷ cs)) before after = before ++ ((c ∷ cs) ++ after)

unfoldable pub first_ten : Option Text → Option Text
first_ten none = none
first_ten (some t) = some (take 10 t)

unfoldable pub tier_banner : Option Text → Option Text → Option Text → Text
tier_banner tier tier_ref tier_at =
    let t = coerce_tier tier in
    let ref = given tier_ref (codes " [") (codes "]") in
    let at =
      if is_same t default_tier then [] else given (first_ten tier_at) (codes " as of ") [] in
    tier_mark t ++ (upper_of t ++ (ref ++ (at ++ (codes " — " ++ tier_meaning t))))
