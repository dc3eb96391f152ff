-- ===== src/Facts/Query/Concerned.antt =====
-- src/facts.js: the facts that a query for an entity is about.
use kb_graph.Base.{
  suc, true, false, ◌&&◌, List, [], ◌∷◌, ◌++◌, Option, none, some, Text, codes, text_eq,
  eq_of_text_eq, text_eq_self, filter, length, drop, starts_with, ◌≡◌, refl, sym, ap, ◌∙◌, ◌⊎◌, inl,
  inr, ◌↔◌, In, In-filter, In-of_In-filter, arith, Bool-cases, subst,
}
use kb_graph.Facts.Dates.{text_lt}
use kb_graph.Facts.Graph.{Graph, Fact}
use kb_graph.Facts.Query.{
  number_qualifier, is_qualified_form, starts_by, ends_by, is_valid_at, Direction, column,
}

-- The facts that a query for the entity is about, in one direction.
abbrev pub concerned : Graph → Text → Option Text → Direction → List Fact
concerned g eid as_of direction =
    filter (λ f. is_valid_at as_of f && is_qualified_form (column direction f) eid) g.facts

-- A date is open, or not on the wrong side.
abbrev NotAfter : Option Text → Text → Type 0
NotAfter none t = Unit
NotAfter (some start) t = text_lt t start ≡ false

abbrev NotBefore : Option Text → Text → Type 0
NotBefore none t = Unit
NotBefore (some end) t = text_lt end t ≡ false

-- The fact has started by the time and has not ended before it; without a time every fact counts.
abbrev pub IsValidAt : Option Text → Fact → Type 0
IsValidAt none f = Unit
IsValidAt (some t) f = NotAfter f.valid_from t × NotBefore f.valid_to t

-- The id is the entity's, or extends it behind an underscore by what is no number.
abbrev pub IsForm : Text → Text → Type 0
IsForm id eid =
    (id ≡ eid) ⊎ ((q : Text) × (id ≡ (eid ++ codes "_") ++ q) × (number_qualifier q ≡ false))

starts_by_iff : (o : Option Text) (t : Text) → (starts_by o t ≡ true) ↔ NotAfter o t
unfolding starts_by
starts_by_iff none t = (λ h. tt, λ h. refl)
starts_by_iff (some start) t = ground arith

ends_by_iff : (o : Option Text) (t : Text) → (ends_by o t ≡ true) ↔ NotBefore o t
unfolding ends_by
ends_by_iff none t = (λ h. tt, λ h. refl)
ends_by_iff (some end) t = ground arith

is_valid_at_iff :
    (as_of : Option Text) (f : Fact) → (is_valid_at as_of f ≡ true) ↔ IsValidAt as_of f
unfolding is_valid_at
is_valid_at_iff none f = (λ h. tt, λ h. refl)
is_valid_at_iff (some t) f = ground (arith, starts_by_iff f.valid_from t, ends_by_iff f.valid_to t)

starts_with-split : (p t : Text) → starts_with p t ≡ true → (q : Text) × (t ≡ p ++ q)
unfolding starts_with
starts_with-split [] t h = (t, refl)
starts_with-split (c ∷ p) [] h = absurd (ground arith)
starts_with-split (c ∷ p) (d ∷ t) h =
    let (q, e) = starts_with-split p t (ground arith) in
    let same : c ≡ d = ground arith in (q, ap (λ x. x ∷ t) (sym same) ∙ ap (λ u. c ∷ u) e)

starts_with-append : (p q : Text) → starts_with p (p ++ q) ≡ true
unfolding starts_with
starts_with-append [] q = refl
starts_with-append (c ∷ p) q = ground (arith, starts_with-append p q)

drop_form : (eid q : Text) → drop (suc (length eid)) ((eid ++ codes "_") ++ q) ≡ q
drop_form [] q = refl
drop_form (c ∷ eid) q = drop_form eid q

is_qualified_form_iff : (id eid : Text) → (is_qualified_form id eid ≡ true) ↔ IsForm id eid
unfolding is_qualified_form
is_qualified_form_iff id eid = (forth, back)
  where
    forth : is_qualified_form id eid ≡ true → IsForm id eid
    forth h = elim (Bool-cases (text_eq id eid)) [
      | inl same ↦ inl (eq_of_text_eq id eid same)
      | inr other ↦
          let (q, e) = starts_with-split (eid ++ codes "_") id (ground arith) in
          let rest : drop (suc (length eid)) id ≡ q =
            ap (drop (suc (length eid))) e ∙ drop_form eid q in
          inr (q, e, ground (arith, ap number_qualifier rest))
    ]

    back : IsForm id eid → is_qualified_form id eid ≡ true
    back (inl same) =
        let e : text_eq id eid ≡ true = subst (λ x. text_eq id x ≡ true) same (text_eq_self id) in
        ground (arith, e)
    back (inr (q, e, n)) =
        let rest : drop (suc (length eid)) id ≡ q =
          ap (drop (suc (length eid))) e ∙ drop_form eid q in
        let start : starts_with (eid ++ codes "_") id ≡ true =
          rw e (starts_with-append (eid ++ codes "_") q) in
        ground (arith, start, ap number_qualifier rest, n)

-- The facts concerned are those of the graph that are valid at the time and whose column is a form
-- of the entity.
pub In-concerned :
    (g : Graph) (eid : Text) (as_of : Option Text) (direction : Direction) (f : Fact)
    → In f (concerned g eid as_of direction)
      ↔ (In f g.facts × IsValidAt as_of f × IsForm (column direction f) eid)
In-concerned g eid as_of direction f = ground (
  arith,
  In-filter (λ x. is_valid_at as_of x && is_qualified_form (column direction x) eid) f g.facts,
  In-of_In-filter (λ x. is_valid_at as_of x && is_qualified_form (column direction x) eid) f
      g.facts,
  is_valid_at_iff as_of f,
  is_qualified_form_iff (column direction f) eid,
)
