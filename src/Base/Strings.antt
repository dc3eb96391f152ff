-- ===== src/Base/Strings.antt =====
-- The string methods of the source's language that several modules call, on texts.
use Prim.Native.Nat.{ℕ}
use mathlib.Core.Path.{◌≡◌, refl}
use mathlib.Core.Bool.{Bool, ◌||◌}
use mathlib.Core.List.{List, [], ◌∷◌, ◌++◌, append_assoc}
use kb_graph.Base.Tests.{◌==◌, if◌then◌else◌}
use kb_graph.Base.Texts.{Text, is_space, starts_with}

-- `join(sep)`
unfoldable pub join : Text → List Text → Text
join sep [] = []
join sep (t ∷ []) = t
join sep (t ∷ u ∷ ts) = t ++ (sep ++ join sep (u ∷ ts))

-- A unit in front of the first part.
unfoldable pub put_front : ℕ → List Text → List Text
put_front c [] = (c ∷ []) ∷ []
put_front c (t ∷ ts) = (c ∷ t) ∷ ts

-- `split(sep)` at a separator of one unit; there is always a first part.
unfoldable pub split_on : ℕ → Text → List Text
unfolding put_front
split_on sep [] = [] ∷ []
split_on sep (c ∷ cs) =
    let rest = split_on sep cs in if c == sep then [] ∷ rest else put_front c rest

-- `includes`
unfoldable pub includes : Text → Text → Bool
includes part [] = starts_with part []
includes part (c ∷ cs) = starts_with part (c ∷ cs) || includes part cs

-- `replace(/\s+/g, ' ')`; the flag says that the last unit was white space.
unfoldable pub fold_spaces : Bool → Text → Text
fold_spaces r [] = []
fold_spaces r (c ∷ cs) =
    let rest = fold_spaces (is_space c) cs in
    if is_space c then (if r then rest else b' ' ∷ rest) else c ∷ rest

unfoldable pub take_while : (ℕ → Bool) → Text → Text
take_while p [] = []
take_while p (c ∷ cs) = let rest = take_while p cs in if p c then c ∷ rest else []

-- A text joined to a last part.
pub join-snoc :
    (sep : Text) (t : Text) (ts : List Text) (u : Text)
    → join sep ((t ∷ ts) ++ (u ∷ [])) ≡ join sep (t ∷ ts) ++ (sep ++ u)
unfolding join
join-snoc sep t [] u = refl
join-snoc sep t (s ∷ ts) u = simp (join-snoc sep s ts u, append_assoc)
