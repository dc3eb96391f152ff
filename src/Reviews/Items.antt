-- ===== src/Reviews/Items.antt =====
-- src/fact-reviews.js: normalizeReviewItems. A review covers the live facts exactly, and every
-- decision is checked by itself and against the others. `String.localeCompare` is a parameter.
use kb_graph.Base.{
  ℕ, suc, Bool, true, false, not, ◌&&◌, ◌||◌, List, [], ◌∷◌, ◌++◌, Option, none, some,
  if◌then◌else◌, Text, codes, text_eq, map, filter, length, ltb, trim, Dict, lookup, put_all, any,
}
use kb_graph.Facts.Graph.{Fact}

pub data Disposition : Type 0 where
  current superseded synonym rejected abstain : Disposition

-- A field of an item, as JSON has it.
pub data Field : Type 0 where
  absent : Field
  text : Text → Field
  other : Field

-- An item that is an object; `extra` are its keys beside the four.
pub record Item : Type 0 where
  pub fact_id : Field
  pub disposition : Field
  pub target_fact_id : Field
  pub reason : Field
  pub extra : List Text

pub record Decision : Type 0 where
  pub fact_id : Text
  pub disposition : Disposition
  pub target_fact_id : Option Text
  pub evidence_ref : Option Text
  pub reason : Option Text

pub data ReviewError : Type 0 where
  no_items too_many_items : ReviewError
  uncovered : List Text → List Text → List Text → ReviewError
  unknown_fields : ℕ → List Text → ReviewError
  bad_disposition : ℕ → ReviewError
  not_a_string too_long : ℕ → ReviewError
  target_mismatch targets_itself needs_reason no_provenance : ℕ → ReviewError
  target_not_current : Text → ReviewError

pub data Checked {ℓ} (A : Type ℓ) : Type ℓ where
  ok : A → Checked A
  refused : ReviewError → Checked A

unfoldable pub trimmed : Field → Text
trimmed (text t) = trim t
trimmed _ = []

unfoldable pub non_empty : Text → Option Text
non_empty [] = none
non_empty (c ∷ cs) = some (c ∷ cs)

unfoldable pub at_most : ℕ → ℕ → Text → Checked (Option Text)
at_most ix limit cleaned =
    if ltb limit (length cleaned) then refused (too_long ix) else ok (non_empty cleaned)

unfoldable pub clean_optional : ℕ → ℕ → Field → Checked (Option Text)
clean_optional ix limit absent = ok none
clean_optional ix limit (text t) = at_most ix limit (trim t)
clean_optional ix limit other = refused (not_a_string ix)

unfoldable pub clean_optional_id : ℕ → Field → Checked (Option Text)
clean_optional_id ix absent = ok none
clean_optional_id ix (text t) = ok (non_empty (trim t))
clean_optional_id ix other = refused (not_a_string ix)

unfoldable pub disposition_of : Text → Option Disposition
disposition_of t =
    if text_eq t (codes "current")
    then some current
    else if text_eq t (codes "superseded")
    then some superseded
    else if text_eq t (codes "synonym")
    then some synonym
    else if text_eq t (codes "rejected")
    then some rejected
    else if text_eq t (codes "abstain")
    then some abstain
    else none

abbrev pub is_targeted : Disposition → Bool
is_targeted superseded = true
is_targeted synonym = true
is_targeted _ = false

abbrev pub is_current : Disposition → Bool
is_current current = true
is_current _ = false

abbrev pub is_abstain : Disposition → Bool
is_abstain abstain = true
is_abstain _ = false

abbrev pub wants_reason : Disposition → Bool
wants_reason rejected = true
wants_reason abstain = true
wants_reason _ = false

abbrev pub is_given : Option Text → Bool
is_given none = false
is_given (some t) = true

abbrev pub is_text : Option Text → Text → Bool
is_text none t = false
is_text (some s) t = text_eq s t

-- The source of a fact, `none` if it is missing or blank.
unfoldable pub source_of : Option Fact → Option Text
source_of none = none
source_of (some f) = elim f.source [ none ↦ none | some s ↦ non_empty (trim s) ]

unfoldable pub decide :
    Option Text → ℕ → Text → Disposition → Option Text → Option Text → Checked Decision
decide source ix id disposition target reason =
    if (is_targeted disposition && not (is_given target))
      || (not (is_targeted disposition) && is_given target)
    then refused (target_mismatch ix)
    else if is_text target id
    then refused (targets_itself ix)
    else if wants_reason disposition && not (is_given reason)
    then refused (needs_reason ix)
    else if not (is_given source) && not (is_abstain disposition)
    then refused (no_provenance ix)
    else ok (record {
      fact_id = id;
      disposition = disposition;
      target_fact_id = target;
      evidence_ref = source;
      reason = reason;
    })

unfoldable pub with_reason :
    Option Text → ℕ → Text → Disposition → Option Text → Checked (Option Text) → Checked Decision
with_reason source ix id disposition target (refused e) = refused e
with_reason source ix id disposition target (ok reason) =
    decide source ix id disposition target reason

unfoldable pub with_target :
    Option Text → ℕ → Item → Disposition → Checked (Option Text) → Checked Decision
with_target source ix item disposition (refused e) = refused e
with_target source ix item disposition (ok target) =
    with_reason source ix (trimmed item.fact_id) disposition target
      (clean_optional ix 1000 item.reason)

unfoldable pub with_disposition : Option Text → ℕ → Item → Option Disposition → Checked Decision
with_disposition source ix item none = refused (bad_disposition ix)
with_disposition source ix item (some disposition) =
    with_target source ix item disposition (clean_optional_id ix item.target_fact_id)

unfoldable pub normalize_item : Option Text → ℕ → Item → List Text → Checked Decision
normalize_item source ix item [] =
    with_disposition source ix item (disposition_of (trimmed item.disposition))
normalize_item source ix item (key ∷ extra) = refused (unknown_fields ix (key ∷ extra))

unfoldable pub prepend : Checked Decision → Checked (List Decision) → Checked (List Decision)
prepend (refused e) rest = refused e
prepend (ok d) (refused e) = refused e
prepend (ok d) (ok ds) = ok (d ∷ ds)

unfoldable pub facts_by_id : List Fact → Dict Fact
facts_by_id facts = put_all (map (λ f. (f.id, f)) facts) []

unfoldable pub normalize_each : Dict Fact → ℕ → List Item → Checked (List Decision)
normalize_each facts ix [] = ok []
normalize_each facts ix (item ∷ items) =
    prepend (normalize_item (source_of (lookup (trimmed item.fact_id) facts)) ix item item.extra)
      (normalize_each facts (suc ix) items)

-- The ids that the items name twice, and those that no live fact has.
unfoldable pub duplicates : List Text → List Text → List Text
duplicates seen [] = []
duplicates seen (id ∷ ids) =
    let rest = duplicates (id ∷ seen) ids in
    if any (λ s. text_eq s id) seen then id ∷ rest else rest

unfoldable pub unknown_id : Text → Option Fact → List Text
unknown_id [] found = codes "(missing fact_id)" ∷ []
unknown_id (c ∷ cs) none = (c ∷ cs) ∷ []
unknown_id (c ∷ cs) (some f) = []

unfoldable pub unknowns : Dict Fact → List Text → List Text
unknowns facts [] = []
unknowns facts (id ∷ ids) = unknown_id id (lookup id facts) ++ unknowns facts ids

unfoldable pub missing : List Fact → List Text → List Text
missing facts ids = map (λ f. f.id) (filter (λ f. not (any (λ id. text_eq id f.id) ids)) facts)

unfoldable pub is_target_current : Dict Decision → Decision → Bool
is_target_current by_id d = elim d.target_fact_id [
  | none ↦ true
  | some t ↦ elim (lookup t by_id) [ none ↦ false | some e ↦ is_current e.disposition ]
]

unfoldable pub decisions_by_id : List Decision → Dict Decision
decisions_by_id ds = put_all (map (λ d. (d.fact_id, d)) ds) []

unfoldable pub check_targets : Dict Decision → List Decision → Option ReviewError
check_targets by_id [] = none
check_targets by_id (d ∷ ds) =
    if is_target_current by_id d
    then check_targets by_id ds
    else some (target_not_current d.fact_id)

module _ (locale_le : Text → Text → Bool) where
  unfoldable pub decision_le : Decision → Decision → Bool
  decision_le a b =
      if is_current a.disposition
      then (if is_current b.disposition then locale_le a.fact_id b.fact_id else true)
      else if is_current b.disposition
      then false
      else locale_le a.fact_id b.fact_id

  unfoldable pub insert_decision : Decision → List Decision → List Decision
  insert_decision d [] = d ∷ []
  insert_decision d (e ∷ es) = if decision_le d e then d ∷ e ∷ es else e ∷ insert_decision d es

  unfoldable pub sort_decisions : List Decision → List Decision
  sort_decisions [] = []
  sort_decisions (d ∷ ds) = insert_decision d (sort_decisions ds)

  unfoldable pub checked_targets : List Decision → Option ReviewError → Checked (List Decision)
  checked_targets ds (some e) = refused e
  checked_targets ds none = ok (sort_decisions ds)

  unfoldable pub with_decisions : Checked (List Decision) → Checked (List Decision)
  with_decisions (refused e) = refused e
  with_decisions (ok ds) = checked_targets ds (check_targets (decisions_by_id ds) ds)

  unfoldable pub covered :
      List Item → List Fact → List Text → List Text → List Text → Checked (List Decision)
  covered items facts [] [] [] = with_decisions (normalize_each (facts_by_id facts) 0 items)
  covered items facts unnamed unknown twice = refused (uncovered unnamed unknown twice)

  unfoldable pub normalize_review_items : List Item → List Fact → Checked (List Decision)
  normalize_review_items [] facts = refused no_items
  normalize_review_items (item ∷ items) facts =
      let all_items = item ∷ items in
      let ids = map (λ i. trimmed i.fact_id) all_items in
      if ltb 1000 (length all_items)
      then refused too_many_items
      else covered all_items facts (missing facts ids) (unknowns (facts_by_id facts) ids)
          (duplicates [] ids)
