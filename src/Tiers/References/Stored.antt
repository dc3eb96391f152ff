-- ===== src/Tiers/References/Stored.antt =====
-- src/tiers.js: the stored form of a reference is stable.
use kb_graph.Base.{
  ℕ, Bool, true, false, [], ◌∷◌, Option, none, some, if◌then◌else◌, Text, trim, is_space,
  drop_while, drop_end, keep_end, fold_spaces, ◌≡◌, refl, ap, subst, ◌∙◌, arith,
}
use kb_graph.Tiers.References.{normalize_ref, is_storable}

-- White space is single spaces; the flag says that the unit before was one.
abbrev IsFolded : Bool → Text → Type 0
IsFolded r [] = Unit
IsFolded r (c ∷ cs) = (is_space c ≡ true → (r ≡ false) × (c ≡ 32)) × IsFolded (is_space c) cs

-- A single space is white space.
space_lem : is_space 32 ≡ true
unfolding is_space
space_lem = refl

IsFolded-weaken : (r : Bool) (t : Text) → IsFolded true t → IsFolded r t
IsFolded-weaken true t h = h
IsFolded-weaken false [] h = tt
IsFolded-weaken false (c ∷ cs) (h, hs) = ((λ e. (refl, (h e).1)), hs)

-- What a unit puts in front of the rest, by what it is.
front-IsFolded :
    (r b : Bool) (c : ℕ) (cs rest : Text)
    → is_space c ≡ b
    → IsFolded b rest
    → IsFolded r (if b then (if r then rest else 32 ∷ rest) else c ∷ rest)
front-IsFolded true true c cs rest e h = h
front-IsFolded false true c cs rest e h = rw (space_lem) ((λ h. (refl, refl)), h)
front-IsFolded r false c cs rest e h = ground arith

fold_spaces-IsFolded : (r : Bool) (t : Text) → IsFolded r (fold_spaces r t)
unfolding fold_spaces
fold_spaces-IsFolded r [] = tt
fold_spaces-IsFolded r (c ∷ cs) =
    front-IsFolded r (is_space c) c cs (fold_spaces (is_space c) cs) refl
      (fold_spaces-IsFolded (is_space c) cs)

-- A text that is folded is its own folded form.
fold_spaces_id : (r : Bool) (t : Text) → IsFolded r t → fold_spaces r t ≡ t
unfolding fold_spaces
fold_spaces_id r [] h = refl
fold_spaces_id r (c ∷ cs) (h, hs) = ground (arith, fold_spaces_id (is_space c) cs hs)

IsFolded-drop_while : (t : Text) → IsFolded false t → IsFolded false (drop_while is_space t)
unfolding drop_while
IsFolded-drop_while [] h = tt
IsFolded-drop_while (c ∷ cs) (h, hs) = front_dropped (is_space c) refl (IsFolded-drop_while cs)
  where
    front_dropped :
        (b : Bool)
        → is_space c ≡ b
        → (IsFolded false cs → IsFolded false (drop_while is_space cs))
        → IsFolded false (if b then drop_while is_space cs else c ∷ cs)
    front_dropped true e k = k (IsFolded-weaken false cs (subst (λ x. IsFolded x cs) e hs))
    front_dropped false e k = (h, hs)

IsFolded-drop_end : (r : Bool) (t : Text) → IsFolded r t → IsFolded r (drop_end is_space t)
unfolding drop_end keep_end
IsFolded-drop_end r [] h = tt
IsFolded-drop_end r (c ∷ cs) (h, hs) =
    go (drop_end is_space cs) (IsFolded-drop_end (is_space c) cs hs)
  where
    go : (ds : Text) → IsFolded (is_space c) ds → IsFolded r (keep_end is_space c ds)
    go [] k = ground arith
    go (d ∷ ds) k = (h, k)

drop_end_idem : (p : ℕ → Bool) (t : Text) → drop_end p (drop_end p t) ≡ drop_end p t
unfolding drop_end keep_end
drop_end_idem p [] = refl
drop_end_idem p (c ∷ cs) = go (drop_end p cs) (drop_end_idem p cs)
  where
    go : (ds : Text) → drop_end p ds ≡ ds → drop_end p (keep_end p c ds) ≡ keep_end p c ds
    go [] k = ground arith
    go (d ∷ ds) k = rw (k) refl

-- The text is empty or starts with a unit that does not pass.
abbrev StartsOut : (ℕ → Bool) → Text → Type 0
StartsOut p [] = Unit
StartsOut p (c ∷ cs) = p c ≡ false

drop_while-StartsOut : (p : ℕ → Bool) (t : Text) → StartsOut p (drop_while p t)
unfolding drop_while
drop_while-StartsOut p [] = tt
drop_while-StartsOut p (c ∷ cs) = go (p c) refl (drop_while-StartsOut p cs)
  where
    go :
        (b : Bool)
        → p c ≡ b
        → StartsOut p (drop_while p cs)
        → StartsOut p (if b then drop_while p cs else c ∷ cs)
    go true e rest = rest
    go false e rest = e

drop_end-StartsOut : (p : ℕ → Bool) (t : Text) → StartsOut p t → StartsOut p (drop_end p t)
unfolding drop_end keep_end
drop_end-StartsOut p [] h = tt
drop_end-StartsOut p (c ∷ cs) h = go (drop_end p cs)
  where
    go : (ds : Text) → StartsOut p (keep_end p c ds)
    go [] = rw (h) h
    go (d ∷ ds) = h

drop_while_id : (p : ℕ → Bool) (t : Text) → StartsOut p t → drop_while p t ≡ t
unfolding drop_while
drop_while_id p [] h = refl
drop_while_id p (c ∷ cs) h = rw (h) refl

trim_idem : (t : Text) → trim (trim t) ≡ trim t
unfolding trim
trim_idem t =
    ap (drop_end is_space) (
      drop_while_id is_space (drop_end is_space (drop_while is_space t))
        (drop_end-StartsOut is_space (drop_while is_space t) (drop_while-StartsOut is_space t)))
    ∙ drop_end_idem is_space (drop_while is_space t)

trim-IsFolded : (t : Text) → IsFolded false t → IsFolded false (trim t)
unfolding trim
trim-IsFolded t h = IsFolded-drop_end false (drop_while is_space t) (IsFolded-drop_while t h)

-- The flat form of a text is its own flat form.
flat_idem :
    (t : Text) → trim (fold_spaces false (trim (fold_spaces false t))) ≡ trim (fold_spaces false t)
flat_idem t =
    ap trim (
      fold_spaces_id false (trim (fold_spaces false t))
        (trim-IsFolded (fold_spaces false t) (fold_spaces-IsFolded false t)))
    ∙ trim_idem (fold_spaces false t)

-- A stored reference is its own stored form.
pub normalize_ref_idem : (ref : Option Text) → normalize_ref (normalize_ref ref) ≡ normalize_ref ref
unfolding normalize_ref
normalize_ref_idem none = refl
normalize_ref_idem (some t) = go (is_storable (trim (fold_spaces false t))) refl
  where
    go :
        (b : Bool)
        → is_storable (trim (fold_spaces false t)) ≡ b
        → normalize_ref (if b then some (trim (fold_spaces false t)) else none)
          ≡ (if b then some (trim (fold_spaces false t)) else none)
    go true e = rw (flat_idem t, e) refl
    go false e = refl
