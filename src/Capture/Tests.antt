-- ===== src/Capture/Tests.antt =====
-- src/session-capture.js on a small queue: the theorems at inputs that meet their hypotheses.
use kb_graph.Base.{
  ℕ, ◌+◌, ◌≤◌, true, false, List, [], ◌∷◌, none, some, Text, codes, ◌≡◌, refl, ◌↔◌, In, any, lookup,
  put, remove, filter, text_dec, find,
}
use kb_graph.Capture.Request.{Request, session_end}
use kb_graph.Capture.Queue.{Store, enqueue_request, already_processed, read_json}
use kb_graph.Capture.Upsert.{enqueue_request_twice}
use kb_graph.Capture.Process.{
  claim_queue_item, exists, settle, discarded, failed, due_queue_files, Attempt, missing, throws,
}
use kb_graph.Capture.Backoff.{settle_failed_free}
use kb_graph.Capture.Due.{IsDueSorted, due_queue_files_lem}
use kb_graph.Capture.Leases.{Event, hook, claim, finish, recover, run}
use kb_graph.Capture.Leases.Readable.{IsReadable, reads}
use kb_graph.Capture.Leases.Pending.{is_pending, is_final, ends, run_pending}
use kb_graph.Capture.Leases.Held.{releases, claim_exclusive}
use kb_graph.Capture.Status.{
  resolve_capture_transcript, resolve_by_path, resolve_by_session, path_of, is_transcript_of,
  has_suffix,
}

capture : Unit {0}
unfolding lookup put remove any exists is_pending is_final ends releases claim_queue_item text_dec
    read_json already_processed filter
capture = tt

abbrev small_request : Request
small_request = record {
  agent = codes "claude";
  reason = session_end;
  session_id = some (codes "s1");
  transcript_path = none;
  cwd = none;
  observed_mtime = some 7;
  observed_at = 10;
  due_at = 10;
  attempts = 0;
  last_error = none;
  key = codes "k";
}

abbrev small_store : Store
small_store = record { queue = (codes "k", some small_request) ∷ []; working = []; receipts = [] }

abbrev empty_store : Store
empty_store = record { queue = []; working = []; receipts = [] }

abbrev claimed_store : Store
claimed_store = record {
  queue = [];
  working =
      (
        codes "k",
        record {
          content = some (
            small_request,
            some (record { owner = codes "a"; started_at = 20; expires_at = 600020 }),
          );
          mtime = some 20;
        },
      )
      ∷ [];
  receipts = [];
}

abbrev small_steps : List Event
small_steps =
    hook small_request ∷ finish (codes "k") (codes "b") small_request 40 discarded ∷ recover 50 ∷ []

claim_exclusive_example :
    claim_queue_item (codes "k") small_request (codes "b") 60 (run small_steps claimed_store) ≡ none
unfolding capture
claim_exclusive_example =
    claim_exclusive (codes "k") small_request (codes "a") 20 small_store claimed_store small_steps
      small_request (codes "b") 60 refl refl

all-IsReadable : IsReadable small_store
unfolding capture reads
all-IsReadable = λ k. refl

abbrev kept_steps : List Event
kept_steps =
    claim (codes "k") small_request (codes "a") 20
    ∷ finish (codes "k") (codes "a") small_request 30 (failed (codes "no"))
    ∷ recover 700000
    ∷ []

run_pending_example :
    IsReadable (run kept_steps small_store)
    × (is_pending (codes "k") (run kept_steps small_store) ≡ true)
unfolding capture
run_pending_example = run_pending (codes "k") kept_steps small_store refl all-IsReadable refl

enqueue_request_twice_example :
    enqueue_request (enqueue_request small_store small_request).0 small_request
    ≡ enqueue_request small_store small_request
enqueue_request_twice_example = enqueue_request_twice small_store small_request refl

settle_failed_free_example :
    (due : ℕ) × (lookup
        (codes "k")
        (settle (codes "k") (codes "a") small_request 30 (failed (codes "no")) claimed_store).queue
      ≡ some (
          some (record small_request {
            attempts = small_request.attempts + 1;
            due_at = due;
            last_error = some (codes "no");
          })))
    × (30 + 300000 ≤ due)
    × (due ≤ 30 + 21600000)
unfolding capture
settle_failed_free_example =
    settle_failed_free (codes "k") (codes "a") small_request 30 (codes "no") claimed_store refl

due_queue_files_lem_example :
    IsDueSorted (due_queue_files 10 small_store)
    × (In (codes "k", small_request) (due_queue_files 10 small_store)
        ↔ (In (codes "k", some small_request) small_store.queue × (small_request.due_at ≤ 10)))
due_queue_files_lem_example = due_queue_files_lem 10 small_store (codes "k") small_request

abbrev failing : Text → Attempt
failing = λ k. record { owner = codes "a"; resolved = missing; harvest = throws (codes "no") }

resolve_capture_transcript_runs :
    (resolve_capture_transcript
        (λ path. false)
        ((codes "x.jsonl", codes "/a/x.jsonl")
          ∷ (codes "rollout-s1.jsonl", codes "/b/rollout-s1.jsonl")
          ∷ [])
        small_request
      ≡ some (codes "/b/rollout-s1.jsonl"))
    × (resolve_capture_transcript
          (λ path. false)
          ((codes "s11.jsonl", codes "/a/s11.jsonl") ∷ [])
          small_request
        ≡ none)
unfolding capture resolve_capture_transcript resolve_by_path resolve_by_session path_of
    is_transcript_of has_suffix find
resolve_capture_transcript_runs = (refl, refl)
