-- ===== src/Reconcile/Notes/Applied.antt =====
-- src/reconciliation.js: a note is superseded only as it was when the decision was made.
use kb_graph.Base.{ℕ, Bool, true, false, ◌==◌, Option, some, Text, ◌≡◌, ◌≢◌, refl, ap, arith}
use kb_graph.Documents.Rows.{Store, get_document, is_null}
use kb_graph.Documents.Writing.{
  Superseded, unknown_document, with_itself, replacement_not_found, superseded, supersede_document,
  supersede_by, mark_superseded,
}
use kb_graph.Reconcile.Notes.{
  Snapshot, document_snapshot, same_doc_snapshot, Candidate, Action, supersede, abstain, Decision,
  Outcome, applied, wants, reason_or, write_result, apply_supersession_decision,
}

-- What was written where a decision was applied.
pub record IsApplied (now : Text) (dry_run : Bool) (c : Candidate) (decision : Decision)
    (before_note before_replacement : Option Snapshot) (s t : Store) : Type 0 where
  pub is_wanted : decision.action ≡ supersede
  pub is_written_run : dry_run ≡ false
  pub is_note : same_doc_snapshot before_note (document_snapshot s c.note_id) ≡ true
  pub is_replacement :
      same_doc_snapshot before_replacement (document_snapshot s c.suggested_replacement_id) ≡ true
  pub is_other : (c.suggested_replacement_id == c.note_id) ≡ false
  pub is_there : is_null (get_document c.suggested_replacement_id s) ≡ false
  pub is_marked :
      t
      ≡ mark_superseded now c.note_id
          (some c.suggested_replacement_id)
          (some (reason_or decision.reason c.reason))
          s

supersede_document-superseded :
    (now : Text) (id r : ℕ) (reason : Option Text) (s t : Store)
    → supersede_document now id (some r) reason false s ≡ superseded t
    → ((r == id) ≡ false)
      × (is_null (get_document r s) ≡ false)
      × (t ≡ mark_superseded now id (some r) reason s)
unfolding supersede_document supersede_by
supersede_document-superseded now id r reason s t h = (ground arith, ground arith, ground arith)

wants-supersede : (a : Action) → wants a ≡ true → a ≡ supersede
unfolding wants
wants-supersede supersede h = refl
wants-supersede abstain h = cc

module _ (now : Text) (dry_run : Bool) (c : Candidate) (decision : Decision)
    (before_note before_replacement : Option Snapshot) (s : Store) where
  written-IsApplied :
      (t : Store) (r : Superseded)
      → supersede_document now c.note_id
          (some c.suggested_replacement_id)
          (some (reason_or decision.reason c.reason))
          false
          s
        ≡ r
      → write_result s r ≡ (t, applied)
      → r ≡ superseded t
  unfolding write_result
  written-IsApplied t unknown_document e h = cc
  written-IsApplied t (with_itself id) e h = cc
  written-IsApplied t (replacement_not_found id) e h = cc
  written-IsApplied t (superseded u) e h = let same : u ≡ t = ground arith in ap superseded same

  -- A decision is applied only where the action is to supersede, the run may write, and the note and its
  -- replacement are as they were when the decision was made; the note is then marked with a
  -- replacement that is there and is another document.
  pub apply_supersession_decision-IsApplied :
      (t : Store)
      → apply_supersession_decision now dry_run c decision before_note before_replacement s
        ≡ (t, applied)
      → IsApplied now dry_run c decision before_note before_replacement s t
  unfolding apply_supersession_decision
  apply_supersession_decision-IsApplied t h =
      let r =
        supersede_document now c.note_id (some c.suggested_replacement_id)
          (some (reason_or decision.reason c.reason)) false s in
      let written : write_result s r ≡ (t, applied) = ground arith in
      let (other, there, marked) =
        supersede_document-superseded now c.note_id c.suggested_replacement_id _ s t
          (written-IsApplied t r refl written) in
      record {
        is_wanted = wants-supersede decision.action (ground arith);
        is_written_run = ground arith;
        is_note = ground arith;
        is_replacement = ground arith;
        is_other = other;
        is_there = there;
        is_marked = marked;
      }

  result-kept :
      (r : Superseded) (t : Store) (o : Outcome) → write_result s r ≡ (t, o) → o ≢ applied → t ≡ s
  unfolding write_result
  result-kept unknown_document t o h n = ground arith
  result-kept (with_itself id) t o h n = ground arith
  result-kept (replacement_not_found id) t o h n = ground arith
  result-kept (superseded u) t o h n = ground arith

  -- A decision that is not applied, whatever the reason, leaves the store as it was.
  pub apply_supersession_decision-kept :
      (t : Store) (o : Outcome)
      → apply_supersession_decision now dry_run c decision before_note before_replacement s ≡ (t, o)
      → o ≢ applied
      → t ≡ s
  unfolding apply_supersession_decision
  apply_supersession_decision-kept t o h n = ground (
    arith,
    result-kept
        (supersede_document now c.note_id (some c.suggested_replacement_id)
          (some (reason_or decision.reason c.reason)) false s)
        t o,
  )
