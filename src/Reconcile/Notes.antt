-- ===== src/Reconcile/Notes.antt =====
-- src/reconciliation.js: a decision to supersede a note is applied to the rows it was made on.
pub mod Applied
use kb_graph.Base.{
  ℕ, Bool, true, false, not, ◌&&◌, ◌||◌, ◌==◌, List, [], ◌∷◌, Option, none, some, if◌then◌else◌,
  Text, codes, text_eq, find,
}
use kb_graph.Documents.Rows.{Document, VaultFile, Store, get_document}
use kb_graph.Documents.Writing.{
  is_file_of, Superseded, unknown_document, with_itself, replacement_not_found, superseded,
  supersede_document,
}

pub record Snapshot : Type 0 where
  pub id : ℕ
  pub title : Text
  pub content : Text
  pub detached_at : Option Text
  pub superseded_at : Option Text
  pub superseded_by : Option ℕ
  pub superseded_reason : Option Text
  pub content_hash : Option Text

unfoldable pub hash_of : Option VaultFile → Option Text
hash_of none = none
hash_of (some f) = some f.content_hash

unfoldable pub snapshot_row : Store → Option Document → Option Snapshot
snapshot_row s none = none
snapshot_row s (some d) = some (record {
  id = d.id;
  title = d.title;
  content = d.content;
  detached_at = d.detached_at;
  superseded_at = d.superseded_at;
  superseded_by = d.superseded_by;
  superseded_reason = d.superseded_reason;
  content_hash = hash_of (find (is_file_of d.id) s.vault_files);
})

unfoldable pub document_snapshot : Store → ℕ → Option Snapshot
document_snapshot s id = snapshot_row s (get_document id s)

unfoldable pub same_text : Option Text → Option Text → Bool
same_text none none = true
same_text none (some b) = false
same_text (some a) none = false
same_text (some a) (some b) = text_eq a b

unfoldable pub same_id : Option ℕ → Option ℕ → Bool
same_id none none = true
same_id none (some b) = false
same_id (some a) none = false
same_id (some a) (some b) = a == b

-- The reason is not compared.
unfoldable pub same_row : Snapshot → Snapshot → Bool
same_row a b =
    (a.id == b.id)
    && (text_eq a.title b.title
        && (text_eq a.content b.content
            && (same_text a.content_hash b.content_hash
                && (same_text a.detached_at b.detached_at
                    && (same_text a.superseded_at b.superseded_at
                        && same_id a.superseded_by b.superseded_by)))))

unfoldable pub same_doc_snapshot : Option Snapshot → Option Snapshot → Bool
same_doc_snapshot none actual = false
same_doc_snapshot (some a) none = false
same_doc_snapshot (some a) (some b) = same_row a b

pub record Candidate : Type 0 where
  pub note_id : ℕ
  pub suggested_replacement_id : ℕ
  pub reason : Text

pub data Action : Type 0 where
  supersede abstain : Action

pub record Decision : Type 0 where
  pub action : Action
  pub reason : Option Text

-- `error` is what an exception of the write leaves: the transaction is rolled back.
pub data Outcome : Type 0 where
  already_applied : Outcome
  stale : Outcome
  abstained : Text → Outcome
  would_apply : Outcome
  applied : Outcome
  error : Outcome

unfoldable pub wants : Action → Bool
wants supersede = true
wants abstain = false

-- `reason || fallback`
unfoldable pub reason_or : Option Text → Text → Text
reason_or none fallback = fallback
reason_or (some []) fallback = fallback
reason_or (some (c ∷ cs)) fallback = c ∷ cs

unfoldable pub is_by : Option Snapshot → ℕ → Bool
is_by none id = false
is_by (some a) id = same_id a.superseded_by (some id)

unfoldable pub write_result : Store → Superseded → Store × Outcome
write_result s unknown_document = (s, error)
write_result s (with_itself id) = (s, error)
write_result s (replacement_not_found r) = (s, error)
write_result s (superseded t) = (t, applied)

-- `stale_before` and `replacement_before` are what the decision was made on.
unfoldable pub apply_supersession_decision :
    Text → Bool → Candidate → Decision → Option Snapshot → Option Snapshot → Store → Store × Outcome
apply_supersession_decision now dry_run c decision stale_before replacement_before s =
    if is_by (document_snapshot s c.note_id) c.suggested_replacement_id
    then (s, already_applied)
    else if not (same_doc_snapshot stale_before (document_snapshot s c.note_id))
        || not
            (same_doc_snapshot replacement_before (document_snapshot s c.suggested_replacement_id))
    then (s, stale)
    else if not (wants decision.action)
    then (s, abstained (reason_or decision.reason (codes "model abstained")))
    else if dry_run
    then (s, would_apply)
    else write_result s (
        supersede_document now c.note_id (some c.suggested_replacement_id)
          (some (reason_or decision.reason c.reason)) false s)
