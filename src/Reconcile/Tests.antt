-- ===== src/Reconcile/Tests.antt =====
-- src/reconciliation.js: runs on concrete rows.
use kb_graph.Base.{
  ℕ, true, false, List, [], ◌∷◌, none, some, Text, codes, ◌≡◌, refl, In, inl, inr, arith, text_dec,
}
use kb_graph.Tiers.{inferred}
use kb_graph.Documents.Rows.{Document, Store, empty_store}
use kb_graph.Documents.Writing.{mark_superseded}
use kb_graph.Reconcile.Notes.{
  Candidate, Decision, supersede, document_snapshot, apply_supersession_decision,
}
use kb_graph.Reconcile.Review.{Found, decided, reconcile_supersession}
use kb_graph.Reconcile.Review.Evidence.{IsReviewed, reconcile_supersession-IsReviewed}
use kb_graph.Facts.Dates.{text_lt}
use kb_graph.Reconcile.Rounds.{selected, cursor_at}
use kb_graph.Reconcile.Rounds.Reached.{selected-reaches}

abbrev old_note : Document
old_note = record {
  id = 1;
  title = codes "a";
  content = codes "b";
  source = none;
  doc_type = codes "note";
  tags = [];
  file_path = none;
  file_size = 0;
  updated_at = codes "2026-01-01";
  tier = inferred;
  tier_ref = none;
  tier_at = none;
  superseded_at = none;
  superseded_by = none;
  superseded_reason = none;
  detached_at = none;
  detached_reason = none;
}

abbrev two_notes : Store
two_notes = record empty_store {
  documents = old_note ∷ record old_note { id = 2 } ∷ [];
  last_id = 2;
}

abbrev candidate : Candidate
candidate = record { note_id = 1; suggested_replacement_id = 2; reason = codes "newer" }

abbrev itself : Text → Text
itself k = k

abbrev supported : Found
supported = record { supported = true; reason = none }

reconcile_supersession-IsReviewed_example :
    IsReviewed itself
      (codes "now")
      false
      candidate
      (some (codes "harvest:a"))
      (some (codes "harvest:b"))
      supported
      supported
      (decided supersede none)
      two_notes
      two_notes
      (mark_superseded (codes "now") 1 (some 2) (some (codes "newer")) two_notes)
unfolding reconcile_supersession apply_supersession_decision kb_graph.Reconcile.Notes.is_by
    document_snapshot kb_graph.Reconcile.Notes.snapshot_row kb_graph.Documents.Rows.get_document
    kb_graph.Base.find kb_graph.Documents.Rows.has_id kb_graph.Reconcile.Notes.same_id
    kb_graph.Reconcile.Notes.same_doc_snapshot kb_graph.Reconcile.Notes.same_row text_dec
    kb_graph.Reconcile.Notes.same_text kb_graph.Reconcile.Notes.hash_of
    kb_graph.Reconcile.Notes.wants kb_graph.Reconcile.Notes.write_result
    kb_graph.Documents.Writing.supersede_document kb_graph.Documents.Rows.is_null
    kb_graph.Documents.Writing.supersede_by kb_graph.Documents.Rows.set_document
    kb_graph.Documents.Rows.update_where kb_graph.Documents.Writing.clear_superseded
    kb_graph.Documents.Writing.is_file_of mark_superseded kb_graph.Reconcile.Notes.reason_or
    kb_graph.Base.ℕ_discrete kb_graph.Reconcile.Review.apply_answer
    kb_graph.Reconcile.Review.safe_reason
reconcile_supersession-IsReviewed_example =
    reconcile_supersession-IsReviewed itself (codes "now") false candidate
      (some (codes "harvest:a")) (some (codes "harvest:b")) supported supported
      (decided supersede none) two_notes two_notes
      (mark_superseded (codes "now") 1 (some 2) (some (codes "newer")) two_notes) refl

abbrev two_keys : List Text
two_keys = codes "0:a" ∷ codes "1:b" ∷ []

selected-reaches_example :
    (n : ℕ) × In
      (codes "0:a")
      (selected itself 1 (cursor_at itself 1 (some (codes "0:a")) two_keys n) two_keys)
unfolding text_lt
selected-reaches_example =
    selected-reaches itself 1 two_keys (codes "0:a") (codes "0:a") (omega arith)
      ((refl, tt), (tt, tt)) (omega arith, (omega arith, tt)) (inl refl) (inl refl)
