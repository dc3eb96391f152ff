-- ===== src/Capture/Leases.antt =====
-- src/session-capture.js: what hooks and daemons do to the files of the queue, in any order. Each
-- step is one read and write of one key's files; a recovery is a pass over all of them.
pub mod Readable
pub mod Pending
pub mod Held
use kb_graph.Base.{
  ℕ, Bool, true, false, ◌&&◌, List, [], ◌∷◌, Option, none, some, Text, text_eq, Dict, lookup,
}
use kb_graph.Capture.Request.{Request}
use kb_graph.Capture.Queue.{Store, Working, enqueue_request}
use kb_graph.Capture.Process.{
  End, discarded, skipped, incomplete, processed, failed, claim_queue_item, settle,
  recover_expired_leases, is_file, exists, expires_at, is_expired, is_owned,
}

pub data Event : Type 0 where
  hook : Request → Event
  claim : Text → Request → Text → ℕ → Event
  finish : Text → Text → Request → ℕ → End → Event
  recover : ℕ → Event

unfoldable pub claimed_or : Store → Option Store → Store
claimed_or s none = s
claimed_or s (some s') = s'

unfoldable pub apply : Event → Store → Store
apply (hook request) s = (enqueue_request s request).0
apply (claim k request owner now) s = claimed_or s (claim_queue_item k request owner now s)
apply (finish k owner request now end) s = settle k owner request now end s
apply (recover now) s = recover_expired_leases now s

unfoldable pub run : List Event → Store → Store
run [] s = s
run (e ∷ es) s = run es (apply e s)
