-- ===== src/Facts/Ids/Spaced.antt =====
-- The shape of a folded name: every unit is plain, and no underscore follows another one.
use kb_graph.Base.{
  ℕ, Bool, true, false, ◌&&◌, [], ◌∷◌, ◌≡◌, ◌∙◌, sym, refl, arith, ◌==◌, if◌then◌else◌, filter,
  drop_while, drop_end, fold_runs, is_underscore, keep_end, lower_unit, to_lower, Text, Bool-cases,
  inl, inr,
}
use kb_graph.Facts.Ids.{separator, is_apostrophe, bare}

-- A unit that `bare` leaves as it is.
abbrev pub IsBareUnit : ℕ → Type 0
IsBareUnit c = (lower_unit c ≡ c) × (is_apostrophe c ≡ false)

abbrev pub IsBare : Text → Type 0
IsBare [] = Unit
IsBare (c ∷ cs) = IsBareUnit c × IsBare cs

-- A separator is an underscore.
abbrev pub IsPlain : ℕ → Type 0
IsPlain c = (separator c ≡ true) → ((c == b'_') ≡ true)

-- `r` says that an underscore stands in front.
abbrev pub IsSpaced : Bool → Text → Type 0
IsSpaced r [] = Unit
IsSpaced r (c ∷ cs) = IsPlain c × ((r && is_underscore c) ≡ false) × IsSpaced (is_underscore c) cs

lower_unit_idem : (c : ℕ) → lower_unit (lower_unit c) ≡ lower_unit c
unfolding lower_unit
lower_unit_idem c = ground arith

pub bare-IsBare : (t : Text) → IsBare (bare t)
unfolding bare to_lower filter
bare-IsBare [] = tt
bare-IsBare (c ∷ cs) = elim (Bool-cases (is_apostrophe (lower_unit c))) [
  | inl h ↦ rw h (bare-IsBare cs)
  | inr h ↦ rw h ((lower_unit_idem c, h), bare-IsBare cs)
]

pub bare_of_IsBare : (t : Text) → IsBare t → bare t ≡ t
unfolding bare to_lower filter
bare_of_IsBare [] h = refl
bare_of_IsBare (c ∷ cs) h = ground (arith, bare_of_IsBare cs)

pub underscore-separator : (c : ℕ) → is_underscore c ≡ true → separator c ≡ true
unfolding separator
underscore-separator c h = ground arith

pub not_underscore : (c : ℕ) → separator c ≡ false → is_underscore c ≡ false
not_underscore c h = ground (arith, underscore-separator c)

pub fold_runs-IsSpaced : (r : Bool) (t : Text) → IsSpaced r (fold_runs separator r t)
unfolding fold_runs
fold_runs-IsSpaced r [] = tt
fold_runs-IsSpaced r (c ∷ cs) = elim (Bool-cases (separator c)) [
  | inl h ↦ rw h (run r (fold_runs-IsSpaced true cs))
  | inr h ↦ rw h (
    (λ e. cc),
    ground (arith, not_underscore c h),
    rw (not_underscore c h) (fold_runs-IsSpaced false cs),
  )
]
  where
    run :
        (s : Bool)
        → IsSpaced true (fold_runs separator true cs)
        → IsSpaced s (if s then fold_runs separator true cs else 95 ∷ fold_runs separator true cs)
    run true k = k
    run false k = ((λ _. refl), refl, k)

separator-is_underscore : (c : ℕ) → IsPlain c → separator c ≡ is_underscore c
separator-is_underscore c h = elim (Bool-cases (separator c)) [
  | inl e ↦ e ∙ sym (h e)
  | inr e ↦ e ∙ sym (not_underscore c e)
]

-- What is spaced has no run left to fold.
pub fold_runs_of_IsSpaced : (r : Bool) (t : Text) → IsSpaced r t → fold_runs separator r t ≡ t
unfolding fold_runs
fold_runs_of_IsSpaced r [] h = refl
fold_runs_of_IsSpaced r (c ∷ cs) h =
    rw (separator-is_underscore c h.0, fold_runs_of_IsSpaced (is_underscore c) cs h.2)
      (ground arith)

pub IsSpaced-after : (r : Bool) (t : Text) → IsSpaced true t → IsSpaced r t
IsSpaced-after r [] h = tt
IsSpaced-after r (c ∷ cs) h = (h.0, ground arith, h.2)

pub drop_while-IsSpaced :
    (r : Bool) (t : Text) → IsSpaced r t → IsSpaced true (drop_while is_underscore t)
unfolding drop_while
drop_while-IsSpaced r [] h = tt
drop_while-IsSpaced r (c ∷ cs) h = elim (Bool-cases (is_underscore c)) [
  | inl e ↦ rw e (drop_while-IsSpaced true cs (rw e at h.2))
  | inr e ↦ rw e (h.0, e, h.2)
]

pub drop_while_of_IsSpaced : (t : Text) → IsSpaced true t → drop_while is_underscore t ≡ t
unfolding drop_while
drop_while_of_IsSpaced [] h = refl
drop_while_of_IsSpaced (c ∷ cs) h = rw h.1

pub drop_end-IsSpaced : (r : Bool) (t : Text) → IsSpaced r t → IsSpaced r (drop_end is_underscore t)
unfolding drop_end
drop_end-IsSpaced r [] h = tt
drop_end-IsSpaced r (c ∷ cs) h =
    kept (drop_end is_underscore cs) (drop_end-IsSpaced (is_underscore c) cs h.2)
  where
    kept : (t : Text) → IsSpaced (is_underscore c) t → IsSpaced r (keep_end is_underscore c t)
    kept [] k = elim (Bool-cases (is_underscore c)) [
      | inl e ↦ rw e tt
      | inr e ↦ rw e (h.0, h.1, tt)
    ]
    kept (d ∷ ds) k = (h.0, h.1, k)

pub drop_end_idem : (p : ℕ → Bool) (t : Text) → drop_end p (drop_end p t) ≡ drop_end p t
unfolding drop_end
drop_end_idem p [] = refl
drop_end_idem p (c ∷ cs) = kept (drop_end p cs) (drop_end_idem p cs)
  where
    kept : (t : Text) → drop_end p t ≡ t → drop_end p (keep_end p c t) ≡ keep_end p c t
    kept [] k = elim (Bool-cases (p c)) [ inl e ↦ rw e | inr e ↦ rw e (rw e) ]
    kept (d ∷ ds) k = rw k
