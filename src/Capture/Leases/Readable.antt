-- ===== src/Capture/Leases/Readable.antt =====
-- src/session-capture.js: a lease file that is written can be read.
use kb_graph.Base.{
  ℕ, Bool, true, Option, none, some, Text, ◌≡◌, refl, arith, lookup, lookup-put, lookup-remove,
  Bool-cases, inl, inr,
}
use kb_graph.Capture.Request.{Request}
use kb_graph.Capture.Queue.{Store, Working, Lease, enqueue_request, put_request}
use kb_graph.Capture.Process.{
  End, discarded, skipped, incomplete, processed, failed, claim_queue_item, settle, recover_file,
  recover_expired, is_file, is_expired, put_absent, remove_lease, remove_owned_lease, put_receipt,
  lease_of, incomplete_of, retry_of,
}
use kb_graph.Capture.Leases.{claimed_or}

-- A lease file that says what it leases.
unfoldable pub is_readable : Working → Bool
is_readable file = is_file file.content

unfoldable pub reads : Option Working → Bool
reads none = true
reads (some file) = is_readable file

-- Every lease file that is there can be read.
abbrev pub IsReadable : Store → Type 0
IsReadable s = (k : Text) → reads (lookup k s.working) ≡ true

pub hook-IsReadable : (r : Request) (s : Store) → IsReadable s → IsReadable (enqueue_request s r).0
unfolding enqueue_request put_request
hook-IsReadable r s h k = ground (arith, h k)

pub claim-IsReadable :
    (k : Text) (r : Request) (owner : Text) (now : ℕ) (s : Store)
    → IsReadable s
    → IsReadable (claimed_or s (claim_queue_item k r owner now s))
unfolding claimed_or claim_queue_item reads is_readable
claim-IsReadable k r owner now s h j = ground (
  arith,
  h j,
  lookup-put k j (record { content = some (r, some (lease_of owner now)); mtime = some now })
      s.working,
)

pub put_absent-working :
    (k : Text) (r : Request) (s : Store) → (put_absent k r s).working ≡ s.working
unfolding put_absent
put_absent-working k r s = ground arith

pub remove_lease-IsReadable : (k : Text) (s : Store) → IsReadable s → IsReadable (remove_lease k s)
unfolding remove_lease reads
remove_lease-IsReadable k s h j = ground (arith, h j, lookup-remove k j s.working)

pub remove_owned_lease-IsReadable :
    (k owner : Text) (s : Store) → IsReadable s → IsReadable (remove_owned_lease k owner s)
unfolding remove_owned_lease
remove_owned_lease-IsReadable k owner s h j = ground (arith, h j, remove_lease-IsReadable k s h j)

pub put_absent-IsReadable :
    (k : Text) (r : Request) (s : Store) → IsReadable s → IsReadable (put_absent k r s)
put_absent-IsReadable k r s h j = rw (put_absent-working k r s) (h j)

pub settle-IsReadable :
    (k owner : Text) (r : Request) (now : ℕ) (end : End) (s : Store)
    → IsReadable s
    → IsReadable (settle k owner r now end s)
unfolding settle
settle-IsReadable k owner r now discarded s h = remove_owned_lease-IsReadable k owner s h
settle-IsReadable k owner r now skipped s h = remove_owned_lease-IsReadable k owner s h
settle-IsReadable k owner r now incomplete s h =
    remove_owned_lease-IsReadable k owner (put_absent k (incomplete_of r now) s)
      (put_absent-IsReadable k (incomplete_of r now) s h)
settle-IsReadable k owner r now (processed mtime) s h =
    remove_owned_lease-IsReadable k owner (put_receipt r mtime s) h
settle-IsReadable k owner r now (failed why) s h =
    remove_owned_lease-IsReadable k owner (put_absent k (retry_of r now why) s)
      (put_absent-IsReadable k (retry_of r now why) s h)

pub recover_expired-IsReadable :
    (k : Text) (content : Option (Request × Option Lease)) (s : Store)
    → IsReadable s
    → IsReadable (recover_expired k content s)
unfolding recover_expired
recover_expired-IsReadable k none s h = remove_lease-IsReadable k s h
recover_expired-IsReadable k (some (r, lease)) s h =
    remove_lease-IsReadable k (put_absent k r s) (put_absent-IsReadable k r s h)

pub recover_file-IsReadable :
    (now : ℕ) (k : Text) (s : Store) → IsReadable s → IsReadable (recover_file now k s)
unfolding recover_file
recover_file-IsReadable now k s h = go (lookup k s.working) refl
  where
    go : (o : Option Working) → lookup k s.working ≡ o → IsReadable (recover_file now k s)
    go none e = λ j. rw (recover_file, e) (h j)
    go (some file) e = elim (Bool-cases (is_expired now file)) [
      | inl x ↦ λ j. rw (recover_file, e, x) (recover_expired-IsReadable k file.content s h j)
      | inr x ↦ λ j. rw (recover_file, e, x) (h j)
    ]
