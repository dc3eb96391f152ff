-- ===== src/Capture/Backoff.antt =====
-- src/session-capture.js: the wait before a retry, and what a failed request leaves in the queue.
use kb_graph.Base.{
  ℕ, zero, suc, ◌+◌, ◌-◌, ◌^◌, ◌≤◌, ◌<◌, min, Option, none, some, Text, ◌≡◌, refl, arith, lookup,
  lookup-put_self, ap, ◌∙◌, codes,
}
use kb_graph.Capture.Request.{Request}
use kb_graph.Capture.Queue.{
  Store, enqueue_request, already_processed, is_processed, read_json, refused,
}
use kb_graph.Capture.Process.{
  retry_delay, put_absent, exists, settle, failed, processed, retry_of, remove_owned_lease,
  put_receipt, remove_lease,
}

two_pow_pos : (n : ℕ) → 0 < 2 ^ n
two_pow_pos zero = omega arith
two_pow_pos (suc n) = omega (arith, two_pow_pos n)

two_pow_mono : (a b : ℕ) → a ≤ b → 2 ^ a ≤ 2 ^ b
two_pow_mono a zero h = rw (zero_of a h) (omega arith)
  where
    zero_of : (n : ℕ) → n ≤ 0 → n ≡ 0
    zero_of n k = omega arith
two_pow_mono zero (suc b) h = omega (arith, two_pow_pos (suc b))
two_pow_mono (suc a) (suc b) h = omega (arith, two_pow_mono a b (omega arith))

-- The wait before a retry is at least five minutes and at most six hours, and it never shrinks as
-- the attempts grow.
pub retry_delay_bounds :
    (a b : ℕ)
    → a ≤ b
    → (300000 ≤ retry_delay a) × (retry_delay a ≤ retry_delay b) × (retry_delay b ≤ 21600000)
unfolding retry_delay
retry_delay_bounds a b h =
    let pos = two_pow_pos (min (a - 1) 10) in
    let mono = two_pow_mono (min (a - 1) 10) (min (b - 1) 10) (omega arith) in
    (omega arith, omega arith, omega arith)

remove_owned_lease-queue :
    (k owner : Text) (s : Store) → (remove_owned_lease k owner s).queue ≡ s.queue
unfolding remove_owned_lease remove_lease
remove_owned_lease-queue k owner s = ground arith

remove_owned_lease-receipts :
    (k owner : Text) (s : Store) → (remove_owned_lease k owner s).receipts ≡ s.receipts
unfolding remove_owned_lease remove_lease
remove_owned_lease-receipts k owner s = ground arith

put_absent_free :
    (k : Text) (r : Request) (s : Store)
    → lookup k s.queue ≡ none
    → lookup k (put_absent k r s).queue ≡ some (some r)
unfolding put_absent exists
put_absent_free k r s h = ground (arith, lookup-put_self k (some r) s.queue)

put_absent_taken :
    (k : Text) (r : Request) (s : Store) (content : Option Request)
    → lookup k s.queue ≡ some content
    → (put_absent k r s).queue ≡ s.queue
unfolding put_absent exists
put_absent_taken k r s content h = ground arith

-- A request that fails goes back to the queue as it was, with its session, transcript and all else,
-- but for one attempt more, the error, and a due time between five minutes and six hours from now,
-- if no hook has asked for the same session meanwhile.
pub settle_failed_free :
    (k owner : Text) (r : Request) (now : ℕ) (why : Text) (s : Store)
    → lookup k s.queue ≡ none
    → (due : ℕ) × (lookup k (settle k owner r now (failed why) s).queue
        ≡ some (some (record r { attempts = r.attempts + 1; due_at = due; last_error = some why })))
      × (now + 300000 ≤ due)
      × (due ≤ now + 21600000)
unfolding settle
settle_failed_free k owner r now why s h =
    let bounds = retry_delay_bounds (r.attempts + 1) (r.attempts + 1) (omega arith) in
    (
      now + retry_delay (r.attempts + 1),
      ap (lookup k) (remove_owned_lease-queue k owner (put_absent k (retry_of r now why) s))
          ∙ put_absent_free k (retry_of r now why) s h,
      omega arith,
      omega arith,
    )

-- A request that fails while a hook has put a fresher one in the queue leaves the queue as the hook
-- left it.
pub settle_failed_taken :
    (k owner : Text) (r : Request) (now : ℕ) (why : Text) (s : Store) (content : Option Request)
    → lookup k s.queue ≡ some content
    → (settle k owner r now (failed why) s).queue ≡ s.queue
unfolding settle
settle_failed_taken k owner r now why s content h =
    remove_owned_lease-queue k owner (put_absent k (retry_of r now why) s)
    ∙ put_absent_taken k (retry_of r now why) s content h

read_receipt :
    (k owner : Text) (r : Request) (now mtime : ℕ) (s : Store)
    → read_json r.key (settle k owner r now (processed mtime) s).receipts ≡ some mtime
unfolding settle read_json
read_receipt k owner r now mtime s =
    ap (read_json r.key) (remove_owned_lease-receipts k owner (put_receipt r mtime s))
    ∙ rw (read_json, lookup-put_self r.key (some mtime) s.receipts) refl

-- After a capture was processed, a hook that asks for the same session again, with a transcript no
-- newer than the processed one, is refused and changes nothing.
pub enqueue_request-settle :
    (k owner : Text) (r q : Request) (now mtime seen : ℕ) (s : Store)
    → q.key ≡ r.key
    → q.observed_mtime ≡ some seen
    → seen ≤ mtime
    → enqueue_request (settle k owner r now (processed mtime) s) q
      ≡ (settle k owner r now (processed mtime) s, refused (codes "already_processed"))
unfolding enqueue_request already_processed is_processed
enqueue_request-settle k owner r q now mtime seen s same h le =
    rw (h, same, read_receipt k owner r now mtime s) (ground arith)
