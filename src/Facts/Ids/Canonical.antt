-- ===== src/Facts/Ids/Canonical.antt =====
-- src/facts.js: `canonicalEntityId` is a normal form.
use mathlib.Core.Path.{ap₂}
use kb_graph.Base.{
  ℕ, Bool, true, false, [], ◌∷◌, ◌≡◌, ◌∙◌, subst, ◌≢◌, refl, ap, arith, if◌then◌else◌, filter,
  drop_while, drop_end, fold_runs, is_space, is_underscore, keep_end, strip_underscores, trim, Text,
  Bool-cases, inl, inr, All, to_lower, lower_unit,
}
use kb_graph.Facts.Ids.{separator, is_apostrophe, bare, folded, canonical_entity_id, or_else}
use kb_graph.Facts.Ids.Spaced.{
  IsBare, IsSpaced, bare-IsBare, bare_of_IsBare, fold_runs-IsSpaced, fold_runs_of_IsSpaced,
  drop_while-IsSpaced, drop_while_of_IsSpaced, drop_end-IsSpaced, drop_end_idem, IsSpaced-after,
  not_underscore,
}

abbrev IsSeparators : Text → Type 0
IsSeparators = All (λ c. separator c ≡ true)

drop_while-IsBare : (p : ℕ → Bool) (t : Text) → IsBare t → IsBare (drop_while p t)
unfolding drop_while
drop_while-IsBare p [] h = tt
drop_while-IsBare p (c ∷ cs) h = elim (Bool-cases (p c)) [
  | inl e ↦ rw e (drop_while-IsBare p cs h.1)
  | inr e ↦ rw e h
]

drop_end-IsBare : (p : ℕ → Bool) (t : Text) → IsBare t → IsBare (drop_end p t)
unfolding drop_end
drop_end-IsBare p [] h = tt
drop_end-IsBare p (c ∷ cs) h = kept (drop_end p cs) (drop_end-IsBare p cs h.1)
  where
    kept : (t : Text) → IsBare t → IsBare (keep_end p c t)
    kept [] k = elim (Bool-cases (p c)) [ inl e ↦ rw e tt | inr e ↦ rw e (h.0, tt) ]
    kept (d ∷ ds) k = (h.0, k)

fold_runs-IsBare : (r : Bool) (t : Text) → IsBare t → IsBare (fold_runs separator r t)
unfolding fold_runs is_apostrophe lower_unit
fold_runs-IsBare r [] h = tt
fold_runs-IsBare r (c ∷ cs) h = kept r (separator c) _ (fold_runs-IsBare (separator c) cs h.1)
  where
    kept :
        (r' s : Bool) (t : Text)
        → IsBare t
        → IsBare (if s then (if r' then t else b'_' ∷ t) else c ∷ t)
    kept true true t k = k
    kept false true t k = ((refl, refl), k)
    kept _ false t k = (h.0, k)

tidy_fixed : (t : Text) → IsBare t → IsSpaced true t → drop_end is_underscore t ≡ t → folded t ≡ t
unfolding folded strip_underscores
tidy_fixed t plain spaced ended =
    rw
      (
        bare_of_IsBare t plain,
        fold_runs_of_IsSpaced false t (IsSpaced-after false t spaced),
        drop_while_of_IsSpaced t spaced,
      )
      ended

folded-IsBare : (name : Text) → IsBare (folded name)
unfolding folded strip_underscores
folded-IsBare name =
    drop_end-IsBare is_underscore _
      (drop_while-IsBare is_underscore _ (fold_runs-IsBare false _ (bare-IsBare name)))

folded-IsSpaced : (name : Text) → IsSpaced true (folded name)
unfolding folded strip_underscores
folded-IsSpaced name =
    drop_end-IsSpaced true _ (drop_while-IsSpaced false _ (fold_runs-IsSpaced false (bare name)))

folded_ended : (name : Text) → drop_end is_underscore (folded name) ≡ folded name
unfolding folded strip_underscores
folded_ended name =
    drop_end_idem is_underscore (drop_while is_underscore (fold_runs separator false (bare name)))

pub folded_idem : (name : Text) → folded (folded name) ≡ folded name
folded_idem name =
    tidy_fixed (folded name) (folded-IsBare name) (folded-IsSpaced name) (folded_ended name)

-- A name folds to nothing exactly if it is made of separators.
drop_end-eq-nil : (p : ℕ → Bool) (t : Text) → drop_end p t ≡ [] → All (λ c. p c ≡ true) t
unfolding drop_end
drop_end-eq-nil p [] h = tt
drop_end-eq-nil p (c ∷ cs) h = kept (drop_end p cs) (drop_end-eq-nil p cs) h
  where
    kept :
        (t : Text)
        → (t ≡ [] → All (λ d. p d ≡ true) cs)
        → keep_end p c t ≡ []
        → All (λ d. p d ≡ true) (c ∷ cs)
    kept [] k e = (ground arith, k refl)
    kept (d ∷ ds) k e = cc

drop_while_all :
    (p : ℕ → Bool) (t : Text) → All (λ c. p c ≡ true) (drop_while p t) → All (λ c. p c ≡ true) t
unfolding drop_while
drop_while_all p [] h = tt
drop_while_all p (c ∷ cs) h = elim (Bool-cases (p c)) [
  | inl e ↦ (e, drop_while_all p cs (rw e at h))
  | inr e ↦ (rw e at h)
]

fold_runs-IsSeparators :
    (r : Bool) (t : Text)
    → All (λ c. is_underscore c ≡ true) (fold_runs separator r t)
    → IsSeparators t
unfolding fold_runs
fold_runs-IsSeparators r [] h = tt
fold_runs-IsSeparators r (c ∷ cs) h = elim (Bool-cases (separator c)) [
  | inl e ↦ (e, run (fold_runs-IsSeparators true cs) r (rw e at h))
  | inr e ↦ absurd (clash (rw e at h) (not_underscore c e))
]
  where
    run :
        (All (λ d. is_underscore d ≡ true) (fold_runs separator true cs) → IsSeparators cs)
        → (s : Bool)
        → All
            (λ d. is_underscore d ≡ true)
            (if s then fold_runs separator true cs else 95 ∷ fold_runs separator true cs)
        → IsSeparators cs
    run ih true k = ih k
    run ih false k = ih k.1

    clash : {P : Type 0} → (is_underscore c ≡ true) × P → is_underscore c ≡ false → ⊥
    clash k e = cc (k.0)

IsSeparators-of_folded : (name : Text) → folded name ≡ [] → IsSeparators (bare name)
unfolding folded strip_underscores
IsSeparators-of_folded name h =
    fold_runs-IsSeparators false (bare name)
      (drop_while_all is_underscore _ (drop_end-eq-nil is_underscore _ h))

fold_runs_of_separators : (t : Text) → IsSeparators t → fold_runs separator true t ≡ []
unfolding fold_runs
fold_runs_of_separators [] h = refl
fold_runs_of_separators (c ∷ cs) h = rw h.0 (fold_runs_of_separators cs h.1)

folded_of_separators : (t : Text) → IsBare t → IsSeparators t → folded t ≡ []
unfolding folded bare filter to_lower strip_underscores drop_while drop_end fold_runs
folded_of_separators [] plain h = refl
folded_of_separators (c ∷ cs) plain h =
    ap (λ t. strip_underscores (fold_runs separator false t)) (bare_of_IsBare (c ∷ cs) plain)
    ∙ rw (h.0, fold_runs_of_separators cs h.1)

drop_while-IsSeparators : (p : ℕ → Bool) (t : Text) → IsSeparators t → IsSeparators (drop_while p t)
unfolding drop_while
drop_while-IsSeparators p [] h = tt
drop_while-IsSeparators p (c ∷ cs) h = elim (Bool-cases (p c)) [
  | inl e ↦ rw e (drop_while-IsSeparators p cs h.1)
  | inr e ↦ rw e h
]

drop_end-IsSeparators : (p : ℕ → Bool) (t : Text) → IsSeparators t → IsSeparators (drop_end p t)
unfolding drop_end
drop_end-IsSeparators p [] h = tt
drop_end-IsSeparators p (c ∷ cs) h = kept (drop_end p cs) (drop_end-IsSeparators p cs h.1)
  where
    kept : (t : Text) → IsSeparators t → IsSeparators (keep_end p c t)
    kept [] k = elim (Bool-cases (p c)) [ inl e ↦ rw e tt | inr e ↦ rw e (h.0, tt) ]
    kept (d ∷ ds) k = (h.0, k)

drop_while_kept :
    (p : ℕ → Bool) (c : ℕ) (t : Text) → p c ≡ false → drop_while p (keep_end p c t) ≡ keep_end p c t
unfolding drop_while keep_end
drop_while_kept p c [] e = rw e (rw e)
drop_while_kept p c (d ∷ ds) e = rw e

-- Cutting the end off leaves the front as the first cut left it.
drop_while-drop_end :
    (p : ℕ → Bool) (t : Text)
    → drop_while p (drop_end p (drop_while p t)) ≡ drop_end p (drop_while p t)
unfolding drop_while drop_end
drop_while-drop_end p [] = refl
drop_while-drop_end p (c ∷ cs) = elim (Bool-cases (p c)) [
  | inl e ↦ rw e (drop_while-drop_end p cs)
  | inr e ↦ rw e (drop_while_kept p c (drop_end p cs) e)
]

pub trim_idem : (t : Text) → trim (trim t) ≡ trim t
unfolding trim
trim_idem t = rw drop_while-drop_end (drop_end_idem is_space (drop_while is_space t))

or_else_nil : (a b : Text) → a ≡ [] → or_else a b ≡ b
or_else_nil a b h = rw h

or_else-folded : (a b : Text) → folded a ≡ a → a ≢ [] → or_else (folded a) b ≡ a
or_else-folded [] b h k = absurd (k refl)
or_else-folded (c ∷ cs) b h k = rw h

abbrev trimmed : Text → Text
trimmed name = trim (bare name)

trimmed-IsBare : (name : Text) → IsBare (trimmed name)
unfolding trim
trimmed-IsBare name = drop_end-IsBare is_space _ (drop_while-IsBare is_space _ (bare-IsBare name))

trimmed-IsSeparators : (name : Text) → folded name ≡ [] → IsSeparators (trimmed name)
unfolding trim
trimmed-IsSeparators name e =
    drop_end-IsSeparators is_space _
      (drop_while-IsSeparators is_space _ (IsSeparators-of_folded name e))

-- An entity id is its own id, whatever name it was made from: every second spelling of a spelling
-- leads to one row. A name of separators alone keeps its trimmed form.
pub canonical_entity_id_idem :
    (name : Text) → canonical_entity_id (canonical_entity_id name) ≡ canonical_entity_id name
unfolding canonical_entity_id
canonical_entity_id_idem name = go (folded name) refl
  where
    go :
        (f : Text)
        → folded name ≡ f
        → canonical_entity_id (or_else f (trim (bare name))) ≡ or_else f (trim (bare name))
    go [] e =
        let plain : IsBare (trimmed name) = trimmed-IsBare name in
        ap₂ or_else (folded_of_separators (trimmed name) plain (trimmed-IsSeparators name e)) refl
        ∙ ap trim (bare_of_IsBare (trimmed name) plain)
        ∙ trim_idem (bare name)
    go (c ∷ cs) e =
        or_else-folded (c ∷ cs) _ (subst (λ t. folded t ≡ t) e (folded_idem name)) (λ h. cc)
