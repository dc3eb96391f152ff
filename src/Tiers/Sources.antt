-- ===== src/Tiers/Sources.antt =====
-- src/tiers.js: where a note came from, and the tier that each kind of source proves on its own.
use kb_graph.Base.{
  ℕ, Bool, true, false, not, ◌&&◌, ◌||◌, leb, ◌==◌, [], ◌∷◌, Option, none, some, if◌then◌else◌,
  Text, codes, text_eq, starts_with, to_lower, trim, reverse_aux,
}
use kb_graph.Tiers.{Tier, inferred, or_default}

abbrev pub harvest_source_prefix : Text
harvest_source_prefix = codes "harvest:"

unfoldable pub is_unattended_source : Option Text → Bool
is_unattended_source none = false
is_unattended_source (some source) = starts_with harvest_source_prefix (to_lower (trim source))

pub data Family : Type 0 where
  harvest manual web session file no_source other : Family

-- `\w`
unfoldable pub is_word : ℕ → Bool
is_word c =
    (leb 48 c && leb c 57) || ((leb 65 c && leb c 90) || ((leb 97 c && leb c 122) || c == 95))

-- `^` and the text, then a word boundary; the text ends in a unit of a word.
unfoldable pub starts_word : Text → Text → Bool
starts_word [] [] = true
starts_word [] (c ∷ cs) = not (is_word c)
starts_word (p ∷ ps) [] = false
starts_word (p ∷ ps) (c ∷ cs) = p == c && starts_word ps cs

unfoldable pub reversed : Text → Text
reversed t = reverse_aux t []

unfoldable pub ends_with : Text → Text → Bool
ends_with part t = starts_with (reversed part) (reversed t)

unfoldable pub family_of : Text → Family
family_of [] = no_source
family_of (c ∷ cs) =
    let s = c ∷ cs in
    let l = to_lower s in
    if is_unattended_source (some s)
    then harvest
    else if (starts_with (codes "http://") l || starts_with (codes "https://") l)
        || text_eq l (codes "web")
    then web
    else if text_eq l (codes "manual")
    then manual
    else if starts_word (codes "session") l
    then session
    else if ends_with (codes ".md") l
    then file
    else other

unfoldable pub source_family : Option Text → Family
source_family none = no_source
source_family (some source) = family_of (trim source)

unfoldable pub source_family_tier : Family → Option Tier
source_family_tier harvest = some inferred
source_family_tier manual = some inferred
source_family_tier web = some inferred
source_family_tier session = some inferred
source_family_tier file = some inferred
source_family_tier no_source = some inferred
source_family_tier other = none

unfoldable pub tier_for_source : Option Text → Tier
tier_for_source source = or_default (source_family_tier (source_family source))
