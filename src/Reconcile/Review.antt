-- ===== src/Reconcile/Review.antt =====
-- src/reconciliation.js: an old note is reviewed on the evidence of two sources and a model's answer,
-- which is awaited while others may write.
pub mod Evidence
use kb_graph.Base.{
  ℕ, Bool, true, false, not, ◌&&◌, ◌||◌, List, [], ◌∷◌, ◌++◌, Option, none, some, if◌then◌else◌,
  Text, codes, text_eq, take,
}
use kb_graph.Documents.Rows.{Store}
use kb_graph.Documents.Writing.{or_null}
use kb_graph.Reconcile.Notes.{
  Candidate, Action, Decision, Outcome, abstained, same_text, document_snapshot,
  apply_supersession_decision,
}

-- What the search of a source found; the reason stands where it is not supported.
pub record Found : Type 0 where
  pub supported : Bool
  pub reason : Option Text

-- What the call of the model gives: it fails, its answer is not of the form, or it is a decision.
pub data Answer : Type 0 where
  failed : Text → Answer
  invalid : Answer
  decided : Action → Option Text → Answer

abbrev pub excerpt_chars : ℕ
excerpt_chars = 900

unfoldable pub first_reason : Option Text → Option Text → Text
first_reason (some (c ∷ cs)) other = c ∷ cs
first_reason none (some t) = t
first_reason none none = []
first_reason (some []) (some t) = t
first_reason (some []) none = []

-- `redact` is `redactSecrets`.
module _ (redact : Text → Text) where
  unfoldable pub safe_reason : Option Text → Option Text
  safe_reason none = none
  safe_reason (some t) = some (take excerpt_chars (redact t))

  -- `s` is the store when the decision was asked for, and `later` the one it is applied to.
  unfoldable pub apply_answer : Text → Bool → Candidate → Answer → Store → Store → Store × Outcome
  apply_answer now dry_run c (failed why) s later =
      (later, abstained (codes "model call failed: " ++ why))
  apply_answer now dry_run c invalid s later =
      (later, abstained (codes "invalid model supersession decision"))
  apply_answer now dry_run c (decided action reason) s later =
      apply_supersession_decision now dry_run c
        (record { action = action; reason = safe_reason reason }) (document_snapshot s c.note_id)
        (document_snapshot s c.suggested_replacement_id) later

  unfoldable pub reconcile_supersession :
      Text
      → Bool
      → Candidate
      → Option Text
      → Option Text
      → Found
      → Found
      → Answer
      → Store
      → Store
      → Store × Outcome
  reconcile_supersession now dry_run c retired_source current_source old change answer s later =
      if not old.supported || not change.supported
      then (later, abstained (first_reason old.reason change.reason))
      else if same_text retired_source current_source
      then (
        later,
        abstained (codes "old and replacement facts must come from distinct harvest sources"),
      )
      else apply_answer now dry_run c answer s later
