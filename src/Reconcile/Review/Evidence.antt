-- ===== src/Reconcile/Review/Evidence.antt =====
-- src/reconciliation.js: what a note that was superseded by a review rests on.
use kb_graph.Base.{Bool, true, false, Option, Text, ◌≡◌, refl, arith}
use kb_graph.Documents.Rows.{Store}
use kb_graph.Reconcile.Notes.{Candidate, Action, applied, same_text, document_snapshot}
use kb_graph.Reconcile.Notes.Applied.{IsApplied, apply_supersession_decision-IsApplied}
use kb_graph.Reconcile.Review.{
  Found, Answer, failed, invalid, decided, safe_reason, apply_answer, reconcile_supersession,
}

module _ (redact : Text → Text) (now : Text) (dry_run : Bool) (c : Candidate)
    (retired_source current_source : Option Text) (old change : Found) (answer : Answer)
    (s later t : Store) where
  -- The evidence of both sources, which are two, and the model's answer to supersede, applied to the
  -- rows as they were when it was asked.
  pub record IsReviewed : Type 0 where
    pub action : Action
    pub reason : Option Text
    pub old_is_supported : old.supported ≡ true
    pub change_is_supported : change.supported ≡ true
    pub sources_differ : same_text retired_source current_source ≡ false
    pub is_answer : answer ≡ decided action reason
    pub is_applied :
        IsApplied now dry_run c
          (record { action = action; reason = safe_reason redact reason })
          (document_snapshot s c.note_id)
          (document_snapshot s c.suggested_replacement_id)
          later
          t

  answered :
      (a : Answer)
      → answer ≡ a
      → apply_answer redact now dry_run c a s later ≡ (t, applied)
      → old.supported ≡ true
      → change.supported ≡ true
      → same_text retired_source current_source ≡ false
      → IsReviewed
  unfolding apply_answer
  answered (failed why) e h p q d = cc
  answered invalid e h p q d = cc
  answered (decided action reason) e h p q d = record {
    action = action;
    reason = reason;
    old_is_supported = p;
    change_is_supported = q;
    sources_differ = d;
    is_answer = e;
    is_applied =
        apply_supersession_decision-IsApplied now dry_run c
          (record { action = action; reason = safe_reason redact reason })
          (document_snapshot s c.note_id) (document_snapshot s c.suggested_replacement_id) later t
          h;
  }

  -- A review supersedes a note only on evidence of the old value and of the change, from two different
  -- sources, and on an answer to supersede; it writes only in a run that may, and only if the note and
  -- its replacement, which is there and another document, are in the store at that time as they were
  -- when the answer was asked for, whatever was written in between.
  pub reconcile_supersession-IsReviewed :
      reconcile_supersession redact now dry_run c retired_source current_source old change answer s
          later
        ≡ (t, applied)
      → IsReviewed
  unfolding reconcile_supersession
  reconcile_supersession-IsReviewed h =
      answered answer refl (ground arith) (ground arith) (ground arith) (ground arith)
