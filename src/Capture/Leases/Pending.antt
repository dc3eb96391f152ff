-- ===== src/Capture/Leases/Pending.antt =====
-- src/session-capture.js: no order of steps loses a key that waits.
use kb_graph.Base.{
  ℕ, Bool, true, false, ◌&&◌, ◌||◌, List, [], ◌∷◌, Option, none, some, Text, text_eq, ◌≡◌, refl,
  arith, lookup, lookup-put, lookup-remove, Bool-cases, inl, inr, subst, any, map,
}
use kb_graph.Capture.Request.{Request}
use kb_graph.Capture.Queue.{
  Store, Working, Lease, enqueue_request, merge_queued, put_request, read_json,
}
use kb_graph.Capture.Process.{
  End, discarded, skipped, incomplete, processed, failed, claim_queue_item, settle,
  recover_expired_leases, recover_files, recover_file, recover_expired, is_file, exists, is_expired,
  put_absent, remove_lease, remove_owned_lease, put_receipt, lease_of, incomplete_of, retry_of,
}
use kb_graph.Capture.Leases.{Event, hook, claim, finish, recover, apply, run, claimed_or}
use kb_graph.Capture.Leases.Readable.{
  is_readable, reads, IsReadable, claim-IsReadable, hook-IsReadable, recover_file-IsReadable,
  settle-IsReadable,
}

-- The key has a file in the queue, which need not be readable, or a lease file holds it.
unfoldable pub is_pending : Text → Store → Bool
is_pending j s = exists j s.queue || exists j s.working

-- A step that ends the work on the key for good.
unfoldable pub is_final : End → Bool
is_final discarded = true
is_final skipped = true
is_final incomplete = false
is_final (processed mtime) = true
is_final (failed why) = false

unfoldable pub ends : Text → Event → Bool
ends j (hook request) = false
ends j (claim k request owner now) = false
ends j (finish k owner request now end) = text_eq k j && is_final end
ends j (recover now) = false

-- The key waits still where the queue and the leases of a store changed at another key only, or
-- where a step put it back.
put_absent-exists : (k : Text) (r : Request) (s : Store) → exists k (put_absent k r s).queue ≡ true
unfolding put_absent exists
put_absent-exists k r s = ground (arith, lookup-put k k (some r) s.queue)

put_absent_keeps :
    (j k : Text) (r : Request) (s : Store)
    → exists j s.queue ≡ true
    → exists j (put_absent k r s).queue ≡ true
unfolding put_absent exists
put_absent_keeps j k r s h = ground (arith, lookup-put k j (some r) s.queue)

put_back_pending :
    (j k : Text) (r : Request) (s : Store)
    → is_pending j s ≡ true
    → is_pending j (remove_lease k (put_absent k r s)) ≡ true
unfolding is_pending remove_lease exists put_absent
put_back_pending j k r s h =
    ground (arith, lookup-put k j (some r) s.queue, lookup-remove k j s.working)

put_absent_pending :
    (j k : Text) (r : Request) (s : Store)
    → is_pending j s ≡ true
    → is_pending j (put_absent k r s) ≡ true
unfolding is_pending exists put_absent
put_absent_pending j k r s h = ground (arith, lookup-put k j (some r) s.queue)

put_back_owned :
    (j k owner : Text) (r : Request) (s : Store)
    → is_pending j s ≡ true
    → is_pending j (remove_owned_lease k owner (put_absent k r s)) ≡ true
unfolding remove_owned_lease
put_back_owned j k owner r s h =
    ground (arith, put_back_pending j k r s h, put_absent_pending j k r s h)

remove_owned_pending :
    (j k owner : Text) (s : Store)
    → text_eq k j ≡ false
    → is_pending j s ≡ true
    → is_pending j (remove_owned_lease k owner s) ≡ true
unfolding is_pending remove_owned_lease remove_lease exists
remove_owned_pending j k owner s ne h = ground (arith, lookup-remove k j s.working)

put_request_pending :
    (j : Text) (q : Request) (s : Store)
    → is_pending j s ≡ true
    → is_pending j (put_request s q) ≡ true
unfolding is_pending exists put_request
put_request_pending j q s h = ground (arith, lookup-put q.key j (some q) s.queue)

hook_pending :
    (j : Text) (r : Request) (s : Store)
    → is_pending j s ≡ true
    → is_pending j (enqueue_request s r).0 ≡ true
unfolding enqueue_request
hook_pending j r s h =
    ground (arith, put_request_pending j (merge_queued r (read_json r.key s.queue)) s h)

claim_pending :
    (j k : Text) (r : Request) (owner : Text) (now : ℕ) (s : Store)
    → is_pending j s ≡ true
    → is_pending j (claimed_or s (claim_queue_item k r owner now s)) ≡ true
unfolding is_pending claimed_or claim_queue_item exists
claim_pending j k r owner now s h = ground (
  arith,
  lookup-remove k j s.queue,
  lookup-put k j (record { content = some (r, some (lease_of owner now)); mtime = some now })
      s.working,
)

recover_expired_pending :
    (j k : Text) (content : Option (Request × Option Lease)) (s : Store)
    → is_file content ≡ true
    → is_pending j s ≡ true
    → is_pending j (recover_expired k content s) ≡ true
unfolding recover_expired
recover_expired_pending j k none s r h = absurd (ground arith)
recover_expired_pending j k (some (request, lease)) s r h = put_back_pending j k request s h

content_of :
    (k : Text) (s : Store) (file : Working)
    → IsReadable s
    → lookup k s.working ≡ some file
    → is_file file.content ≡ true
unfolding reads is_readable
content_of k s file r e = subst (λ o. reads o ≡ true) e (r k)

recover_file_pending :
    (now : ℕ) (j k : Text) (s : Store)
    → IsReadable s
    → is_pending j s ≡ true
    → is_pending j (recover_file now k s) ≡ true
unfolding recover_file
recover_file_pending now j k s r h = go (lookup k s.working) refl
  where
    go : (o : Option Working) → lookup k s.working ≡ o → is_pending j (recover_file now k s) ≡ true
    go none e = rw (recover_file, e) h
    go (some file) e = elim (Bool-cases (is_expired now file)) [
      | inl x ↦
          rw (recover_file, e, x)
            (recover_expired_pending j k file.content s (content_of k s file r e) h)
      | inr x ↦ rw (recover_file, e, x) h
    ]

IsWaiting : Text → Store → Type 0
IsWaiting j s = IsReadable s × (is_pending j s ≡ true)

recover_files-IsWaiting :
    (now : ℕ) (j : Text) (ks : List Text) (s : Store)
    → IsWaiting j s
    → IsWaiting j (recover_files now ks s)
unfolding recover_files IsWaiting
recover_files-IsWaiting now j [] s h = h
recover_files-IsWaiting now j (k ∷ ks) s h =
    recover_files-IsWaiting now j ks (recover_file now k s)
      (recover_file-IsReadable now k s h.0, recover_file_pending now j k s h.0 h.1)

put_receipt_pending :
    (j : Text) (r : Request) (mtime : ℕ) (s : Store)
    → is_pending j s ≡ true
    → is_pending j (put_receipt r mtime s) ≡ true
unfolding is_pending
put_receipt_pending j r mtime s h = h

settle_pending :
    (j k owner : Text) (r : Request) (now : ℕ) (end : End) (s : Store)
    → (text_eq k j && is_final end) ≡ false
    → is_pending j s ≡ true
    → is_pending j (settle k owner r now end s) ≡ true
unfolding settle is_final
settle_pending j k owner r now discarded s ne h = remove_owned_pending j k owner s (ground arith) h
settle_pending j k owner r now skipped s ne h = remove_owned_pending j k owner s (ground arith) h
settle_pending j k owner r now incomplete s ne h =
    put_back_owned j k owner (incomplete_of r now) s h
settle_pending j k owner r now (processed mtime) s ne h =
    remove_owned_pending j k owner (put_receipt r mtime s) (ground arith)
      (put_receipt_pending j r mtime s h)
settle_pending j k owner r now (failed why) s ne h =
    put_back_owned j k owner (retry_of r now why) s h

apply-IsWaiting :
    (j : Text) (e : Event) (s : Store) → ends j e ≡ false → IsWaiting j s → IsWaiting j (apply e s)
unfolding apply ends IsWaiting recover_expired_leases
apply-IsWaiting j (hook r) s ne h = (hook-IsReadable r s h.0, hook_pending j r s h.1)
apply-IsWaiting j (claim k r owner now) s ne h =
    (claim-IsReadable k r owner now s h.0, claim_pending j k r owner now s h.1)
apply-IsWaiting j (finish k owner r now end) s ne h =
    (settle-IsReadable k owner r now end s h.0, settle_pending j k owner r now end s ne h.1)
apply-IsWaiting j (recover now) s ne h =
    recover_files-IsWaiting now j (map (λ entry. entry.0) s.working) s h

-- A key that waits, in the queue or under a lease, still waits after any steps of hooks, claims,
-- ends and recoveries in any order, if every lease file can be read at the start and no step ends
-- the work on that key for good; and every lease file can still be read.
pub run_pending :
    (j : Text) (es : List Event) (s : Store)
    → any (ends j) es ≡ false
    → IsReadable s
    → is_pending j s ≡ true
    → IsReadable (run es s) × (is_pending j (run es s) ≡ true)
unfolding run any IsWaiting
run_pending j [] s ne r h = (r, h)
run_pending j (e ∷ es) s ne r h =
    let next = apply-IsWaiting j e s (ground arith) (r, h) in
    run_pending j es (apply e s) (ground arith) next.0 next.1
