-- ===== src/Capture/Due.antt =====
-- src/session-capture.js: the requests that are due, in order, and how many of them a pass takes.
use kb_graph.Base.{
  ℕ, zero, suc, ◌+◌, ◌≤◌, Option, none, some, Text, ◌≡◌, arith, Dict, Bool, true, not, ◌&&◌,
  text_eq, codes, List, [], ◌∷◌, In, All, In-filter, In-of_In-filter, All-filter, filter, take,
  length, ◌⊎◌, ◌↔◌, All-map,
}
use kb_graph.Capture.Request.{Request}
use kb_graph.Capture.Queue.{Store, read_json}
use kb_graph.Capture.Process.{
  insert_due, queue_files, due_queue_files, is_due, Tally, count_end, process_claimed,
  process_items, process_session_capture_queue, Attempt, End, discarded, skipped, incomplete,
  processed, failed, end_of, claim_queue_item, recover_expired_leases,
}

abbrev pub DueBefore : Text × Request → Text × Request → Type 0
DueBefore a b = a.1.due_at ≤ b.1.due_at

abbrev pub IsDueSorted : Dict Request → Type 0
IsDueSorted [] = Unit
IsDueSorted (item ∷ items) = All (DueBefore item) items × IsDueSorted items

All-insert_due :
    (low item : Text × Request) (items : Dict Request)
    → DueBefore low item
    → All (DueBefore low) items
    → All (DueBefore low) (insert_due item items)
unfolding insert_due
All-insert_due low item [] h k = (h, tt)
All-insert_due low item (x ∷ xs) h k = ground (arith, All-insert_due low item xs)

DueBefore-all :
    (low item : Text × Request) (items : Dict Request)
    → DueBefore low item
    → All (DueBefore item) items
    → All (DueBefore low) items
DueBefore-all low item items h k =
    All-map (DueBefore item) (DueBefore low) items (λ x p. omega arith) k

insert_due-IsDueSorted :
    (item : Text × Request) (items : Dict Request)
    → IsDueSorted items
    → IsDueSorted (insert_due item items)
unfolding insert_due
insert_due-IsDueSorted item [] h = (tt, tt)
insert_due-IsDueSorted item (x ∷ xs) h =
    ground
      (arith, insert_due-IsDueSorted item xs, All-insert_due x item xs, DueBefore-all item x xs)

queue_files-IsDueSorted : (m : Dict (Option Request)) → IsDueSorted (queue_files m)
unfolding queue_files
queue_files-IsDueSorted [] = tt
queue_files-IsDueSorted ((k, none) ∷ m) = queue_files-IsDueSorted m
queue_files-IsDueSorted ((k, some r) ∷ m) =
    insert_due-IsDueSorted (k, r) (queue_files m) (queue_files-IsDueSorted m)

filter-IsDueSorted :
    (p : Text × Request → Bool) (items : Dict Request)
    → IsDueSorted items
    → IsDueSorted (filter p items)
unfolding filter
filter-IsDueSorted p [] h = tt
filter-IsDueSorted p (x ∷ xs) h =
    ground (arith, filter-IsDueSorted p xs, All-filter (DueBefore x) p xs)

In-insert_due :
    (a item : Text × Request) (items : Dict Request)
    → In a (insert_due item items) ↔ ((a ≡ item) ⊎ In a items)
unfolding insert_due
In-insert_due a item [] = ground arith
In-insert_due a item (x ∷ xs) = ground (arith, In-insert_due a item xs)

In-queue_files :
    (k : Text) (r : Request) (m : Dict (Option Request))
    → In (k, r) (queue_files m) ↔ In (k, some r) m
unfolding queue_files
In-queue_files k r [] = ground arith
In-queue_files k r ((j, none) ∷ m) = ground (arith, In-queue_files k r m)
In-queue_files k r ((j, some q) ∷ m) =
    ground (arith, In-insert_due (k, r) (j, q) (queue_files m), In-queue_files k r m)

is_due_iff : (now : ℕ) (k : Text) (r : Request) → (is_due now (k, r) ≡ true) ↔ (r.due_at ≤ now)
is_due_iff now k r = ground arith

-- The due requests come earliest first, and they are exactly the readable requests of the queue that
-- are due now or before.
pub due_queue_files_lem :
    (now : ℕ) (s : Store) (k : Text) (r : Request)
    → IsDueSorted (due_queue_files now s)
      × (In (k, r) (due_queue_files now s) ↔ (In (k, some r) s.queue × (r.due_at ≤ now)))
unfolding due_queue_files
due_queue_files_lem now s k r = (
  filter-IsDueSorted (is_due now) (queue_files s.queue) (queue_files-IsDueSorted s.queue),
  ground (
    arith,
    In-queue_files k r s.queue,
    is_due_iff now k r,
    In-filter (is_due now) (k, r) (queue_files s.queue),
    In-of_In-filter (is_due now) (k, r) (queue_files s.queue),
  ),
)

abbrev total : Tally → ℕ
total t = t.processed + t.failed + t.skipped

total-count_end : (end : End) (t : Tally) → total (count_end end t) ≤ suc (total t)
unfolding count_end
total-count_end discarded t = omega arith
total-count_end skipped t = omega arith
total-count_end incomplete t = omega arith
total-count_end (processed mtime) t = omega arith
total-count_end (failed why) t = omega arith

total-process_claimed :
    (answer : Text → Attempt) (now : ℕ) (item : Text × Request) (o : Option Store)
    (st : Store × Tally)
    → total (process_claimed answer now item o st).1 ≤ suc (total st.1)
unfolding process_claimed
total-process_claimed answer now item none st = omega arith
total-process_claimed answer now (k, r) (some s') st =
    total-count_end (end_of (read_json r.key s'.receipts) (answer k).resolved (answer k).harvest)
      st.1

total-process_items :
    (answer : Text → Attempt) (now : ℕ) (items : Dict Request) (st : Store × Tally)
    → total (process_items answer now items st).1 ≤ length items + total st.1
unfolding process_items
total-process_items answer now [] st = omega arith
total-process_items answer now (item ∷ items) (s, t) =
    let step =
      process_claimed answer now item (claim_queue_item item.0 item.1 (answer item.0).owner now s)
        (s, t) in
    omega (
      arith,
      total-process_items answer now items step,
      total-process_claimed answer now item
          (claim_queue_item item.0 item.1 (answer item.0).owner now s) (s, t),
    )

length-take {ℓ} : {A : Type ℓ} (n : ℕ) (xs : List A) → length (take n xs) ≤ n
length-take zero xs = omega arith
length-take (suc n) [] = omega arith
length-take (suc n) (x ∷ xs) = omega (arith, length-take n xs)

-- One pass of the daemon counts at most `limit` requests as processed, failed or skipped.
pub process_session_capture_queue_limit :
    (answer : Text → Attempt) (now limit : ℕ) (paused : Bool) (s : Store)
    → (let t = (process_session_capture_queue answer now limit paused s).1 in
        t.processed + t.failed + t.skipped ≤ limit)
unfolding process_session_capture_queue
process_session_capture_queue_limit answer now limit paused s =
    let s' = recover_expired_leases now s in
    let chosen =
      filter (λ item. not (text_eq item.1.agent (codes "cursor") && paused))
        (due_queue_files now s') in
    omega (
      arith,
      total-process_items answer now (take limit chosen)
          (s', record { processed = 0; failed = 0; skipped = 0 }),
      length-take limit chosen,
    )
