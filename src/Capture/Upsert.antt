-- ===== src/Capture/Upsert.antt =====
-- src/session-capture.js: the queue's upsert.
use kb_graph.Base.{
  ℕ, zero, suc, ◌≤◌, ◌<◌, Bool, true, false, [], ◌∷◌, Option, none, some, if◌then◌else◌, Text, ◌≡◌,
  refl, ap, ◌∙◌, arith, lookup-put_self, max, min, Bool-cases, inl, inr, subst, put-put,
}
use kb_graph.Capture.Request.{Reason, reason_rank, Request, either}
use kb_graph.Capture.Queue.{
  Store, merge_prior, merge_queued, stronger, is_activity, or_time, nonzero, later_mtime, read_json,
  already_processed, enqueue_request, put_request, Enqueued, queued,
}

-- What a merge of a request into a queued one promises: the lifecycle reason is never weaker than
-- either; an urgent request is due no later than the new one asks, and no later than the queued
-- one was; plain activity puts the time off to the later of both; and the retries are not forgotten.
pub record IsMerged (request prior merged : Request) : Type 0 where
  pub rank_new : reason_rank request.reason ≤ reason_rank merged.reason
  pub rank_prior : reason_rank prior.reason ≤ reason_rank merged.reason
  pub urgent : is_activity merged.reason ≡ false → merged.due_at ≤ request.due_at
  pub urgent_prior :
      is_activity merged.reason ≡ false → 0 < prior.due_at → merged.due_at ≤ prior.due_at
  pub quiet :
      is_activity merged.reason ≡ true
      → (request.due_at ≤ merged.due_at) × (prior.due_at ≤ merged.due_at)
  pub attempts : merged.attempts ≡ prior.attempts
  pub key : merged.key ≡ request.key

or_time_pos : (a b : ℕ) → 0 < a → or_time a b ≡ a
or_time_pos zero b h = absurd (omega arith)
or_time_pos (suc a) b h = refl

-- A request that is merged into the queued one of its key keeps what `IsMerged` says: neither is
-- weakened, an urgent one is never put off, plain activity is, and the retries are counted on.
pub merge_prior-IsMerged :
    (request prior : Request) → IsMerged request prior (merge_prior request prior)
unfolding merge_prior reason_rank
merge_prior-IsMerged request prior = record {
  rank_new = ground arith;
  rank_prior = ground arith;
  urgent = λ h. rw h (omega arith);
  urgent_prior = λ h p. rw (h, or_time_pos prior.due_at request.due_at p) (omega arith);
  quiet = λ h. rw h (omega arith, omega arith);
  attempts = refl;
  key = refl;
}

stronger_idem : (a b : Reason) → stronger a (stronger a b) ≡ stronger a b
unfolding reason_rank
stronger_idem a b = ground arith

either_idem : (a b : Option Text) → either a (either a b) ≡ either a b
unfolding either
either_idem none b = refl
either_idem (some []) b = refl
either_idem (some (c ∷ cs)) b = refl

time_path : (a b : ℕ) → a ≡ b → nonzero (some a) ≡ nonzero (some b)
time_path a b p = ap (λ n. nonzero (some n)) p

over_zero : (r : ℕ) → r ≡ 0 → nonzero (some r) ≡ none
over_zero zero h = refl
over_zero (suc r) h = absurd (omega arith)

later_idem :
    (p r : Option ℕ)
    → nonzero (later_mtime (nonzero (later_mtime p r)) r) ≡ nonzero (later_mtime p r)
later_idem none none = refl
later_idem none (some zero) = refl
later_idem none (some (suc r)) = time_path (max (suc r) (suc r)) (suc r) (omega arith)
later_idem (some zero) none = refl
later_idem (some (suc p)) none = refl
later_idem (some p) (some r) = over (max p r) (omega arith)
  where
    over : (m : ℕ) → r ≤ m → nonzero (later_mtime (nonzero (some m)) (some r)) ≡ nonzero (some m)
    over zero h = over_zero r (omega arith)
    over (suc m) h = time_path (max (suc m) r) (suc m) (omega arith)

abbrev due_of : Bool → ℕ → ℕ → ℕ
due_of quiet p r = if quiet then max p r else min (or_time p r) r

due_pos : (m r : ℕ) → 0 < m → m ≤ r → min (or_time m r) r ≡ m
due_pos zero r h k = absurd (omega arith)
due_pos (suc m) r h k = omega arith

due_zero : (m : ℕ) → m ≡ 0 → min (or_time m 0) 0 ≡ m
due_zero zero h = refl
due_zero (suc m) h = absurd (omega arith)

due_idem : (quiet : Bool) (p r : ℕ) → due_of quiet (due_of quiet p r) r ≡ due_of quiet p r
due_idem true p r = omega arith
due_idem false p zero = due_zero (min (or_time p 0) 0) (omega arith)
due_idem false zero (suc r) = due_pos (min (suc r) (suc r)) (suc r) (omega arith) (omega arith)
due_idem false (suc p) (suc r) = due_pos (min (suc p) (suc r)) (suc r) (omega arith) (omega arith)

either_self : (a : Option Text) → either a a ≡ a
unfolding either
either_self none = refl
either_self (some []) = refl
either_self (some (c ∷ cs)) = refl

due_self : (quiet : Bool) (r : ℕ) → due_of quiet r r ≡ r
due_self true r = omega arith
due_self false zero = refl
due_self false (suc r) = omega arith

stronger_self : (a : Reason) → stronger a a ≡ a
stronger_self a = ground arith

later_self : (r : Option ℕ) → later_mtime r r ≡ r
later_self none = refl
later_self (some r) = ap (λ n. some n) (omega arith)

merge_self : (r : Request) → nonzero r.observed_mtime ≡ r.observed_mtime → merge_prior r r ≡ r
unfolding merge_prior
merge_self r h =
    rw
      (
        stronger_self r.reason,
        due_self (is_activity r.reason) r.due_at,
        either_self r.transcript_path,
        either_self r.session_id,
        later_self r.observed_mtime,
        h,
      )
      refl

merge_idem : (r p : Request) → merge_prior r (merge_prior r p) ≡ merge_prior r p
unfolding merge_prior
merge_idem r p =
    rw
      (
        stronger_idem r.reason p.reason,
        due_idem (is_activity (stronger r.reason p.reason)) p.due_at r.due_at,
        either_idem r.transcript_path p.transcript_path,
        either_idem r.session_id p.session_id,
        later_idem p.observed_mtime r.observed_mtime,
      )
      refl

merge_queued_idem :
    (r : Request) (q : Option Request)
    → nonzero r.observed_mtime ≡ r.observed_mtime
    → merge_prior r (merge_queued r q) ≡ merge_queued r q
unfolding merge_queued
merge_queued_idem r none h = merge_self r h
merge_queued_idem r (some p) h = merge_idem r p

merge_queued-key : (r : Request) (q : Option Request) → (merge_queued r q).key ≡ r.key
unfolding merge_queued merge_prior
merge_queued-key r none = refl
merge_queued-key r (some p) = refl

read_put_self : (q : Request) (s : Store) → read_json q.key (put_request s q).queue ≡ some q
unfolding read_json put_request
read_put_self q s = rw (read_json, lookup-put_self q.key (some q) s.queue) refl

read_put :
    (k : Text) (q : Request) (s : Store) → q.key ≡ k → read_json k (put_request s q).queue ≡ some q
read_put k q s h = subst (λ j. read_json j (put_request s q).queue ≡ some q) h (read_put_self q s)

put_request-put : (q : Request) (s : Store) → put_request (put_request s q) q ≡ put_request s q
unfolding put_request
put_request-put q s = rw (put-put q.key (some q) (some q) s.queue) refl

abbrev stored : Store → Request → Store × Enqueued
stored s q = (put_request s q, queued q.key q.due_at)

enqueue_done :
    (s : Store) (r : Request) → already_processed s r ≡ true → (enqueue_request s r).0 ≡ s
unfolding enqueue_request
enqueue_done s r h = rw h refl

enqueue_new :
    (s : Store) (r : Request)
    → already_processed s r ≡ false
    → enqueue_request s r ≡ stored s (merge_queued r (read_json r.key s.queue))
unfolding enqueue_request
enqueue_new s r h = rw h refl

already_processed-put :
    (s : Store) (q r : Request) → already_processed (put_request s q) r ≡ already_processed s r
unfolding already_processed put_request
already_processed-put s q r = refl

enqueue_stored :
    (s : Store) (r q : Request)
    → already_processed s r ≡ false
    → q.key ≡ r.key
    → merge_prior r q ≡ q
    → enqueue_request (put_request s q) r ≡ stored s q
unfolding merge_queued
enqueue_stored s r q h k e =
    enqueue_new (put_request s q) r (already_processed-put s q r ∙ h)
    ∙ rw (read_put r.key q s k, e, put_request-put q s) refl

-- Asking for the same capture twice is asking once: a second `enqueue_request` of the same request
-- leaves the store of the first and gives its answer, if the request's modification time is not 0.
pub enqueue_request_twice :
    (s : Store) (r : Request)
    → nonzero r.observed_mtime ≡ r.observed_mtime
    → enqueue_request (enqueue_request s r).0 r ≡ enqueue_request s r
enqueue_request_twice s r h = elim (Bool-cases (already_processed s r)) [
  | inl e ↦ ap (λ x. enqueue_request x r) (enqueue_done s r e)
  | inr e ↦ rw (enqueue_new s r e) (
      enqueue_stored s r (merge_queued r (read_json r.key s.queue)) e
        (merge_queued-key r (read_json r.key s.queue))
        (merge_queued_idem r (read_json r.key s.queue) h))
]
