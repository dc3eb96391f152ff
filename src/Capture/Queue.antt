-- ===== src/Capture/Queue.antt =====
-- src/session-capture.js: the queue, the leases and the receipts, a file each, under the capture's
-- key. What a file holds is `none` where it cannot be read.
use kb_graph.Base.{
  ℕ, zero, suc, ◌*◌, Bool, true, false, Option, none, some, if◌then◌else◌, Text, codes, text_eq,
  Dict, lookup, put, leb, max, min,
}
use kb_graph.Capture.Request.{
  Reason, activity, precompact, session_end, reason_rank, Request, World, HookInput, Created,
  created, declined, create_capture_request, either,
}

pub record Lease : Type 0 where
  pub owner : Text
  pub started_at : ℕ
  pub expires_at : ℕ

-- A lease file: its request, the lease unless it is a legacy file, and the file's time, if it has one.
pub record Working : Type 0 where
  pub content : Option (Request × Option Lease)
  pub mtime : Option ℕ

pub record Store : Type 0 where
  pub queue : Dict (Option Request)
  pub working : Dict Working
  pub receipts : Dict (Option ℕ)

abbrev pub lease_ms : ℕ
lease_ms = 10 * 60 * 1000

-- `readJson(path)`
unfoldable pub read_json {ℓ} : {A : Type ℓ} → Text → Dict (Option A) → Option A
read_json k m = elim (lookup k m) [ none ↦ none | some content ↦ content ]

abbrev pub later_mtime : Option ℕ → Option ℕ → Option ℕ
later_mtime none none = none
later_mtime none (some b) = some b
later_mtime (some a) none = some a
later_mtime (some a) (some b) = some (max a b)

-- `value || null` on a time
abbrev pub nonzero : Option ℕ → Option ℕ
nonzero none = none
nonzero (some zero) = none
nonzero (some (suc n)) = some (suc n)

abbrev pub or_time : ℕ → ℕ → ℕ
or_time zero b = b
or_time (suc a) b = suc a

abbrev pub is_activity : Reason → Bool
is_activity activity = true
is_activity precompact = false
is_activity session_end = false

abbrev pub stronger : Reason → Reason → Reason
stronger new prior = if leb (reason_rank prior) (reason_rank new) then new else prior

-- The request that replaces the prior one of its key.
unfoldable pub merge_prior : Request → Request → Request
merge_prior request prior =
    let reason = stronger request.reason prior.reason in
    record request {
      reason = reason;
      due_at =
          if is_activity reason
          then max prior.due_at request.due_at
          else min (or_time prior.due_at request.due_at) request.due_at;
      attempts = prior.attempts;
      transcript_path = either request.transcript_path prior.transcript_path;
      session_id = either request.session_id prior.session_id;
      observed_mtime = nonzero (later_mtime prior.observed_mtime request.observed_mtime);
    }

unfoldable pub merge_queued : Request → Option Request → Request
merge_queued request none = request
merge_queued request (some prior) = merge_prior request prior

-- `receipt?.processedMtime >= mtime`
unfoldable pub is_processed : Option ℕ → ℕ → Bool
is_processed none mtime = false
is_processed (some done) mtime = leb mtime done

unfoldable pub already_processed : Store → Request → Bool
already_processed s request = elim request.observed_mtime [
  | none ↦ false
  | some mtime ↦ is_processed (read_json request.key s.receipts) mtime
]

pub data Enqueued : Type 0 where
  queued : Text → ℕ → Enqueued
  refused : Text → Enqueued

unfoldable pub put_request : Store → Request → Store
put_request s request = record s { queue = put request.key (some request) s.queue }

unfoldable pub enqueue_request : Store → Request → Store × Enqueued
enqueue_request s request =
    if already_processed s request
    then (s, refused (codes "already_processed"))
    else let merged = merge_queued request (read_json request.key s.queue) in
      (put_request s merged, queued merged.key merged.due_at)

unfoldable pub enqueue_created : Store → Created → Store × Enqueued
enqueue_created s (declined why) = (s, refused why)
enqueue_created s (created request) = enqueue_request s request

-- The markers that turn capture for Cursor on and off.
unfoldable pub cursor_decline : Bool → Bool → Option Text
cursor_decline disabled enabled =
    if disabled
    then some (codes "cursor_capture_disabled")
    else if enabled
    then none
    else some (codes "cursor_capture_not_enabled")

abbrev pub cursor_gate : Text → Option Text → Option Text
cursor_gate agent decline = if text_eq agent (codes "cursor") then decline else none

-- `host` is the refusal of `validateHookHost`, `cursor` that of the markers.
unfoldable pub enqueue_session_capture :
    World → Store → HookInput → Text → Text → ℕ → Option Text → Option Text → Store × Enqueued
enqueue_session_capture w s input agent reason now (some why) cursor = (s, refused why)
enqueue_session_capture w s input agent reason now none cursor = elim (cursor_gate agent cursor) [
  | some why ↦ (s, refused why)
  | none ↦ enqueue_created s (create_capture_request w input agent reason now)
]
