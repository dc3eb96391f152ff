-- ===== src/Capture/Status.antt =====
-- src/session-capture.js: where a request's transcript is looked for, and the status of the queue.
use kb_graph.Base.{
  ℕ, ◌+◌, ◌-◌, ◌≤◌, max, Bool, ◌||◌, List, [], ◌∷◌, ◌++◌, Option, none, some, if◌then◌else◌, Text,
  codes, text_eq, leb, ltb, filter, find, map, length, length-filter-le, In, In-filter, Dict, arith,
  inl, inr, subst,
}
use kb_graph.Capture.Request.{Request}
use kb_graph.Capture.Queue.{Store}
use kb_graph.Capture.Process.{queue_files}

-- The `.jsonl` files below the roots, in the order of the walk: the name of each and its path.
abbrev pub Walk : Type 0
Walk = List (Text × Text)

unfoldable pub has_suffix : Text → Text → Bool
has_suffix suffix [] = text_eq suffix []
has_suffix suffix (c ∷ cs) = text_eq suffix (c ∷ cs) || has_suffix suffix cs

-- `<session>.jsonl`, or `<anything>-<session>.jsonl`
unfoldable pub is_transcript_of : Text → Text × Text → Bool
is_transcript_of session (name, path) =
    text_eq name (session ++ codes ".jsonl")
    || has_suffix (codes "-" ++ (session ++ codes ".jsonl")) name

unfoldable pub path_of : Option (Text × Text) → Option Text
path_of none = none
path_of (some (name, path)) = some path

unfoldable pub resolve_by_session : Walk → Option Text → Option Text
resolve_by_session files none = none
resolve_by_session files (some []) = none
resolve_by_session files (some (c ∷ cs)) = path_of (find (is_transcript_of (c ∷ cs)) files)

unfoldable pub resolve_by_path : (Text → Bool) → Walk → Option Text → Option Text → Option Text
resolve_by_path is_there files session none = resolve_by_session files session
resolve_by_path is_there files session (some []) = resolve_by_session files session
resolve_by_path is_there files session (some (c ∷ cs)) =
    if is_there (c ∷ cs) then some (c ∷ cs) else resolve_by_session files session

unfoldable pub resolve_capture_transcript : (Text → Bool) → Walk → Request → Option Text
resolve_capture_transcript is_there files request =
    if text_eq request.agent (codes "cursor")
    then none
    else resolve_by_path is_there files request.session_id request.transcript_path

unfoldable pub requests_of : Dict Request → List Request
requests_of items = map (λ item. item.1) items

abbrev pub is_overdue : ℕ → Request → Bool
is_overdue now request = leb request.due_at now

-- `Math.max(...due.map(request => now - request.dueAt))`; 0 if none is due
unfoldable pub oldest_overdue : ℕ → List Request → ℕ
oldest_overdue now [] = 0
oldest_overdue now (request ∷ requests) = max (now - request.due_at) (oldest_overdue now requests)

pub record Status : Type 0 where
  pub queued : ℕ
  pub due : ℕ
  pub failed : ℕ
  pub oldest_overdue_ms : ℕ

unfoldable pub session_capture_queue_status : ℕ → Store → Status
session_capture_queue_status now s =
    let requests = requests_of (queue_files s.queue) in
    let due = filter (is_overdue now) requests in
    record {
      queued = length requests;
      due = length due;
      failed = length (filter (λ (request : Request). ltb 0 request.attempts) requests);
      oldest_overdue_ms = oldest_overdue now due;
    }

oldest_overdue-In :
    (now : ℕ) (r : Request) (requests : List Request)
    → In r requests
    → r.due_at ≤ now
    → now ≤ r.due_at + oldest_overdue now requests
unfolding oldest_overdue
oldest_overdue-In now r [] m h = elim m [ ]
oldest_overdue-In now r (q ∷ requests) (inl e) h =
    subst (λ (x : Request). now ≤ r.due_at + max (now - x.due_at) (oldest_overdue now requests)) e
      (omega arith)
oldest_overdue-In now r (q ∷ requests) (inr m) h =
    omega (arith, oldest_overdue-In now r requests m h)

-- The status counts no more due or failed requests than queued ones, and no due request waits longer
-- than it says.
pub session_capture_queue_status_lem :
    (now : ℕ) (s : Store) (r : Request)
    → In r (requests_of (queue_files s.queue))
    → r.due_at ≤ now
    → (let status = session_capture_queue_status now s in
        (status.due ≤ status.queued)
        × (status.failed ≤ status.queued)
        × (now ≤ r.due_at + status.oldest_overdue_ms))
unfolding session_capture_queue_status
session_capture_queue_status_lem now s r m h =
    let requests = requests_of (queue_files s.queue) in
    (
      length-filter-le (is_overdue now) requests,
      length-filter-le (λ (request : Request). ltb 0 request.attempts) requests,
      oldest_overdue-In now r (filter (is_overdue now) requests)
          (In-filter (is_overdue now) r requests m (ground arith)) h,
    )
