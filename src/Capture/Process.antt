-- ===== src/Capture/Process.antt =====
-- src/session-capture.js: the daemon's side of the queue: the recovery of expired leases, the claim,
-- and what becomes of a claimed request. Between a claim and its end the hooks may write the queue.
use kb_graph.Base.{
  ℕ, zero, suc, ◌+◌, ◌-◌, ◌*◌, ◌^◌, Bool, true, false, not, ◌&&◌, List, [], ◌∷◌, Option, none, some,
  if◌then◌else◌, Text, codes, text_eq, Dict, lookup, put, remove, leb, min, filter, take, map,
}
use kb_graph.Capture.Request.{Request}
use kb_graph.Capture.Queue.{Lease, Working, Store, lease_ms, read_json, is_processed}

abbrev pub retry_ms : ℕ
retry_ms = 5 * 60 * 1000

abbrev pub max_retry_ms : ℕ
max_retry_ms = 6 * 60 * 60 * 1000

-- `existsSync(path)`
abbrev pub is_file {ℓ} : {A : Type ℓ} → Option A → Bool
is_file none = false
is_file (some a) = true

unfoldable pub exists {ℓ} : {A : Type ℓ} → Text → Dict A → Bool
exists k m = is_file (lookup k m)

-- `if (!existsSync(queuePath)) atomicJson(queuePath, request)`
unfoldable pub put_absent : Text → Request → Store → Store
put_absent k request s =
    if exists k s.queue then s else record s { queue = put k (some request) s.queue }

unfoldable pub remove_lease : Text → Store → Store
remove_lease k s = record s { working = remove k s.working }

-- When a lease file expires; `none` is never.
unfoldable pub expires_at : Working → Option ℕ
expires_at file = elim file.content [
  | some (request, some lease) ↦ some lease.expires_at
  | _ ↦ elim file.mtime [ none ↦ none | some t ↦ some (t + lease_ms) ]
]

unfoldable pub is_expired : ℕ → Working → Bool
is_expired now file = elim (expires_at file) [ none ↦ false | some t ↦ leb t now ]

-- An expired lease that cannot be read goes; the request of any other goes back to the queue, where
-- a fresher one wins.
unfoldable pub recover_expired : Text → Option (Request × Option Lease) → Store → Store
recover_expired k none s = remove_lease k s
recover_expired k (some (request, lease)) s = remove_lease k (put_absent k request s)

-- A lease file that is gone when its turn comes is passed over.
unfoldable pub recover_file : ℕ → Text → Store → Store
recover_file now k s = elim (lookup k s.working) [
  | none ↦ s
  | some file ↦ if is_expired now file then recover_expired k file.content s else s
]

unfoldable pub recover_files : ℕ → List Text → Store → Store
recover_files now [] s = s
recover_files now (k ∷ ks) s = recover_files now ks (recover_file now k s)

unfoldable pub recover_expired_leases : ℕ → Store → Store
recover_expired_leases now s = recover_files now (map (λ entry. entry.0) s.working) s

-- `sort((a, b) => a.request.dueAt - b.request.dueAt)`
unfoldable pub insert_due : Text × Request → Dict Request → Dict Request
insert_due item [] = item ∷ []
insert_due item (other ∷ items) =
    if leb item.1.due_at other.1.due_at then item ∷ other ∷ items else other ∷ insert_due item items

-- The readable files of the queue, the earliest due first.
unfoldable pub queue_files : Dict (Option Request) → Dict Request
queue_files [] = []
queue_files ((k, none) ∷ m) = queue_files m
queue_files ((k, some request) ∷ m) = insert_due (k, request) (queue_files m)

abbrev pub is_due : ℕ → Text × Request → Bool
is_due now item = leb item.1.due_at now

-- The files that are due; the recovery that `dueQueueFiles` begins with is made by its only caller,
-- `process_session_capture_queue`.
unfoldable pub due_queue_files : ℕ → Store → Dict Request
due_queue_files now s = filter (is_due now) (queue_files s.queue)

abbrev pub lease_of : Text → ℕ → Lease
lease_of owner now = record { owner = owner; started_at = now; expires_at = now + lease_ms }

-- The exclusive write of the lease file, then the removal of the queue's: `none` if another process
-- holds the lease.
unfoldable pub claim_queue_item : Text → Request → Text → ℕ → Store → Option Store
claim_queue_item k request owner now s =
    if exists k s.working
    then none
    else some (record s {
      queue = remove k s.queue;
      working =
          put k (record { content = some (request, some (lease_of owner now)); mtime = some now })
            s.working;
    })

unfoldable pub is_owned : Text → Option Working → Bool
is_owned owner none = false
is_owned owner (some file) = elim file.content [
  | some (request, some lease) ↦ text_eq lease.owner owner
  | _ ↦ false
]

unfoldable pub remove_owned_lease : Text → Text → Store → Store
remove_owned_lease k owner s = if is_owned owner (lookup k s.working) then remove_lease k s else s

unfoldable pub retry_delay : ℕ → ℕ
retry_delay attempts = min max_retry_ms (retry_ms * 2 ^ min (attempts - 1) 10)

-- What the daemon learns about a claimed request before it harvests.
pub data Resolved : Type 0 where
  -- a path that is no transcript of its session, and whether a retry may help
  unresolved : Text → Bool → Resolved
  missing : Resolved
  -- the path, whether it is a transcript of a main session, and its file's time, if it has one
  found : Text → Bool → Option ℕ → Resolved

-- What the harvest reports.
pub data Harvest : Type 0 where
  throws : Text → Harvest
  summary : ℕ → Bool → Harvest

-- How a claimed request ends.
pub data End : Type 0 where
  discarded : End
  skipped : End
  incomplete : End
  processed : ℕ → End
  failed : Text → End

unfoldable pub harvested : ℕ → Harvest → End
harvested mtime (throws why) = failed why
harvested mtime (summary zero true) = processed mtime
harvested mtime (summary zero false) = incomplete
harvested mtime (summary (suc n) complete) = failed (codes "harvest reported errors")

-- The body of the loop, up to the writes; `receipt` is what was read before the harvest.
unfoldable pub end_of : Option ℕ → Resolved → Harvest → End
end_of receipt (unresolved why retryable) h = if retryable then failed why else discarded
end_of receipt missing h = failed (codes "transcript not found yet")
end_of receipt (found path false mtime) h = discarded
end_of receipt (found path true none) h = failed (codes "stat failed")
end_of receipt (found path true (some mtime)) h =
    if is_processed receipt mtime then skipped else harvested mtime h

abbrev pub retry_of : Request → ℕ → Text → Request
retry_of request now why = record request {
  attempts = request.attempts + 1;
  due_at = now + retry_delay (request.attempts + 1);
  last_error = some why;
}

abbrev pub incomplete_of : Request → ℕ → Request
incomplete_of request now = record request {
  due_at = now + retry_ms;
  last_error = some (codes "harvest coverage incomplete");
}

abbrev pub put_receipt : Request → ℕ → Store → Store
put_receipt request mtime s = record s { receipts = put request.key (some mtime) s.receipts }

-- The writes that end a claim.
unfoldable pub settle : Text → Text → Request → ℕ → End → Store → Store
settle k owner request now discarded s = remove_owned_lease k owner s
settle k owner request now skipped s = remove_owned_lease k owner s
settle k owner request now incomplete s =
    remove_owned_lease k owner (put_absent k (incomplete_of request now) s)
settle k owner request now (processed mtime) s =
    remove_owned_lease k owner (put_receipt request mtime s)
settle k owner request now (failed why) s =
    remove_owned_lease k owner (put_absent k (retry_of request now why) s)

pub record Tally : Type 0 where
  pub processed : ℕ
  pub failed : ℕ
  pub skipped : ℕ

unfoldable pub count_end : End → Tally → Tally
count_end discarded t = record t { skipped = t.skipped + 1 }
count_end skipped t = record t { skipped = t.skipped + 1 }
count_end incomplete t = t
count_end (processed mtime) t = record t { processed = t.processed + 1 }
count_end (failed why) t = record t { failed = t.failed + 1 }

-- What the environment answers for a request: who claims it, and how its transcript fares.
pub record Attempt : Type 0 where
  pub owner : Text
  pub resolved : Resolved
  pub harvest : Harvest

unfoldable pub process_claimed :
    (Text → Attempt) → ℕ → Text × Request → Option Store → Store × Tally → Store × Tally
process_claimed answer now (k, request) none (s, t) = (s, t)
process_claimed answer now (k, request) (some s') (s, t) =
    let attempt = answer k in
    let end = end_of (read_json request.key s'.receipts) attempt.resolved attempt.harvest in
    (settle k attempt.owner request now end s', count_end end t)

unfoldable pub process_items : (Text → Attempt) → ℕ → Dict Request → Store × Tally → Store × Tally
process_items answer now [] st = st
process_items answer now ((k, request) ∷ items) (s, t) = process_items answer now items (
    process_claimed answer now (k, request) (claim_queue_item k request (answer k).owner now s)
      (s, t))

-- One pass of the daemon, while no hook interferes; `paused` says that the markers turn Cursor off.
unfoldable pub process_session_capture_queue :
    (Text → Attempt) → ℕ → ℕ → Bool → Store → Store × Tally
process_session_capture_queue answer now limit paused s =
    let s' = recover_expired_leases now s in
    process_items answer now
      (take limit (
        filter (λ item. not (text_eq item.1.agent (codes "cursor") && paused))
          (due_queue_files now s')))
      (s', record { processed = 0; failed = 0; skipped = 0 })
