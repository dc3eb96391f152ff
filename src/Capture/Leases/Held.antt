-- ===== src/Capture/Leases/Held.antt =====
-- src/session-capture.js: a lease holds its key against every other claim until its owner ends it or
-- it expires.
use kb_graph.Base.{
  ℕ, ◌+◌, Bool, false, ◌&&◌, List, [], ◌∷◌, Option, none, some, Text, text_eq, ◌≡◌, refl, arith,
  lookup, lookup-put, lookup-remove, lookup-put_self, eq_of_text_eq, Bool-cases, inl, inr, subst,
  any, map, leb, sym, ◌∙◌, ap,
}
use kb_graph.Capture.Request.{Request}
use kb_graph.Capture.Queue.{Store, Working, Lease, lease_ms, enqueue_request, put_request}
use kb_graph.Capture.Process.{
  End, discarded, skipped, incomplete, processed, failed, claim_queue_item, settle,
  recover_expired_leases, recover_files, recover_file, recover_expired, exists, is_expired,
  expires_at, is_owned, put_absent, remove_lease, remove_owned_lease, put_receipt, lease_of,
  incomplete_of, retry_of,
}
use kb_graph.Capture.Leases.{Event, hook, claim, finish, recover, apply, run, claimed_or}
use kb_graph.Capture.Leases.Readable.{put_absent-working}

-- The lease file that a claim writes.
abbrev file_of : Request → Text → ℕ → Working
file_of r owner now = record { content = some (r, some (lease_of owner now)); mtime = some now }

-- A step that ends the owner's lease on the key: the owner's own end, or a recovery from `until` on.
unfoldable pub releases : Text → Text → ℕ → Event → Bool
releases j owner until (hook request) = false
releases j owner until (claim k request other now) = false
releases j owner until (finish k other request now end) = text_eq k j && text_eq owner other
releases j owner until (recover now) = leb until now

module _ (j : Text) (r : Request) (owner : Text) (since : ℕ) where
  IsHeld : Store → Type 0
  IsHeld s = lookup j s.working ≡ some (file_of r owner since)

  hook-IsHeld : (q : Request) (s : Store) → IsHeld s → IsHeld (enqueue_request s q).0
  unfolding IsHeld enqueue_request put_request
  hook-IsHeld q s h = ground (arith, h)

  claimed_or-IsHeld :
      (k : Text) (q : Request) (other : Text) (now : ℕ) (s : Store)
      → IsHeld s
      → IsHeld (claimed_or s (claim_queue_item k q other now s))
  unfolding IsHeld claimed_or claim_queue_item exists
  claimed_or-IsHeld k q other now s h =
      ground (arith, h, lookup-put k j (file_of q other now) s.working)

  remove_lease-IsHeld :
      (k : Text) (s : Store) → text_eq k j ≡ false → IsHeld s → IsHeld (remove_lease k s)
  unfolding IsHeld remove_lease
  remove_lease-IsHeld k s ne h = ground (arith, h, lookup-remove k j s.working)

  put_absent-IsHeld : (k : Text) (q : Request) (s : Store) → IsHeld s → IsHeld (put_absent k q s)
  unfolding IsHeld
  put_absent-IsHeld k q s h = ap (lookup j) (put_absent-working k q s) ∙ h

  remove_owned-IsHeld :
      (k other : Text) (s : Store)
      → (text_eq k j && text_eq owner other) ≡ false
      → IsHeld s
      → IsHeld (remove_owned_lease k other s)
  unfolding IsHeld remove_owned_lease is_owned remove_lease
  remove_owned-IsHeld k other s ne h = ground (arith, h, lookup-remove k j s.working)

  settle-IsHeld :
      (k other : Text) (q : Request) (now : ℕ) (end : End) (s : Store)
      → (text_eq k j && text_eq owner other) ≡ false
      → IsHeld s
      → IsHeld (settle k other q now end s)
  unfolding settle IsHeld
  settle-IsHeld k other q now discarded s ne h = remove_owned-IsHeld k other s ne h
  settle-IsHeld k other q now skipped s ne h = remove_owned-IsHeld k other s ne h
  settle-IsHeld k other q now incomplete s ne h =
      remove_owned-IsHeld k other (put_absent k (incomplete_of q now) s) ne
        (put_absent-IsHeld k (incomplete_of q now) s h)
  settle-IsHeld k other q now (processed mtime) s ne h =
      remove_owned-IsHeld k other (put_receipt q mtime s) ne h
  settle-IsHeld k other q now (failed why) s ne h =
      remove_owned-IsHeld k other (put_absent k (retry_of q now why) s) ne
        (put_absent-IsHeld k (retry_of q now why) s h)

  recover_expired-IsHeld :
      (k : Text) (content : Option (Request × Option Lease)) (s : Store)
      → text_eq k j ≡ false
      → IsHeld s
      → IsHeld (recover_expired k content s)
  unfolding recover_expired
  recover_expired-IsHeld k none s ne h = remove_lease-IsHeld k s ne h
  recover_expired-IsHeld k (some (q, lease)) s ne h =
      remove_lease-IsHeld k (put_absent k q s) ne (put_absent-IsHeld k q s h)

  unexpired :
      (now : ℕ)
      → leb (since + lease_ms) now ≡ false
      → is_expired now (file_of r owner since) ≡ false
  unfolding is_expired expires_at
  unexpired now h = h

  recover_own :
      (now : ℕ) (s : Store)
      → leb (since + lease_ms) now ≡ false
      → IsHeld s
      → recover_file now j s ≡ s
  unfolding IsHeld recover_file
  recover_own now s e h = rw (recover_file, h, unexpired now e) refl

  recover_other :
      (now : ℕ) (k : Text) (s : Store)
      → text_eq k j ≡ false
      → IsHeld s
      → IsHeld (recover_file now k s)
  unfolding recover_file IsHeld
  recover_other now k s ne h = go (lookup k s.working) refl
    where
      go : (o : Option Working) → lookup k s.working ≡ o → IsHeld (recover_file now k s)
      go none e = rw (recover_file, e) h
      go (some file) e = elim (Bool-cases (is_expired now file)) [
        | inl x ↦ rw (recover_file, e, x) (recover_expired-IsHeld k file.content s ne h)
        | inr x ↦ rw (recover_file, e, x) h
      ]

  recover_file-IsHeld :
      (now : ℕ) (k : Text) (s : Store)
      → leb (since + lease_ms) now ≡ false
      → IsHeld s
      → IsHeld (recover_file now k s)
  recover_file-IsHeld now k s e h = elim (Bool-cases (text_eq k j)) [
    | inl x ↦
        subst (λ i. IsHeld (recover_file now i s)) (sym (eq_of_text_eq k j x))
          (subst IsHeld (sym (recover_own now s e h)) h)
    | inr x ↦ recover_other now k s x h
  ]

  recover_files-IsHeld :
      (now : ℕ) (ks : List Text) (s : Store)
      → leb (since + lease_ms) now ≡ false
      → IsHeld s
      → IsHeld (recover_files now ks s)
  unfolding recover_files
  recover_files-IsHeld now [] s e h = h
  recover_files-IsHeld now (k ∷ ks) s e h =
      recover_files-IsHeld now ks (recover_file now k s) e (recover_file-IsHeld now k s e h)

  apply-IsHeld :
      (e : Event) (s : Store)
      → releases j owner (since + lease_ms) e ≡ false
      → IsHeld s
      → IsHeld (apply e s)
  unfolding apply releases recover_expired_leases
  apply-IsHeld (hook q) s ne h = hook-IsHeld q s h
  apply-IsHeld (claim k q other now) s ne h = claimed_or-IsHeld k q other now s h
  apply-IsHeld (finish k other q now end) s ne h = settle-IsHeld k other q now end s ne h
  apply-IsHeld (recover now) s ne h =
      recover_files-IsHeld now (map (λ entry. entry.0) s.working) s ne h

  run-IsHeld :
      (es : List Event) (s : Store)
      → any (releases j owner (since + lease_ms)) es ≡ false
      → IsHeld s
      → IsHeld (run es s)
  unfolding run any
  run-IsHeld [] s ne h = h
  run-IsHeld (e ∷ es) s ne h =
      run-IsHeld es (apply e s) (ground arith) (apply-IsHeld e s (ground arith) h)

  claim-IsHeld : (s s' : Store) → claim_queue_item j r owner since s ≡ some s' → IsHeld s'
  unfolding IsHeld claim_queue_item
  claim-IsHeld s s' h = ground (arith, lookup-put_self j (file_of r owner since) s.working)

  held_refuses :
      (q : Request) (other : Text) (now : ℕ) (s : Store)
      → IsHeld s
      → claim_queue_item j q other now s ≡ none
  unfolding IsHeld claim_queue_item exists
  held_refuses q other now s h = rw h refl

-- Once a claim of a key has succeeded, every later claim of it fails, by whomever and whatever steps
-- lie between, as long as none of them is the owner's own end of the key's work or a recovery at or
-- after the time at which the lease expires.
pub claim_exclusive :
    (j : Text) (r : Request) (owner : Text) (since : ℕ) (s s' : Store) (es : List Event)
    (q : Request) (other : Text) (now : ℕ)
    → claim_queue_item j r owner since s ≡ some s'
    → any (releases j owner (since + lease_ms)) es ≡ false
    → claim_queue_item j q other now (run es s') ≡ none
claim_exclusive j r owner since s s' es q other now h ne =
    held_refuses j r owner since q other now (run es s')
      (run-IsHeld j r owner since es s' ne (claim-IsHeld j r owner since s s' h))
