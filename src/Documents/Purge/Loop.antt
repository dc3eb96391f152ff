-- ===== src/Documents/Purge/Loop.antt =====
-- src/cli/vault-cli.js: the loop of batches ends, purges every eligible document and no other.
use kb_graph.Base.{
  ℕ, suc, zero, ◌+◌, ◌≤◌, ◌<◌, Bool, true, false, not, ◌||◌, ltb, List, [], ◌∷◌, some,
  if◌then◌else◌, Text, filter, any, length, ◌≡◌, refl, ap, subst, ◌∙◌, inl, inr, arith, In, All,
  Empty, Bool-cases, All-map, In-filter, at_of_All,
}
use kb_graph.Documents.Rows.{Document, Store}
use kb_graph.Documents.Purge.{
  last_of, is_between, is_expired, detached_purge_batch_size, is_in_batch, batch_refused, aborted,
  purged, Purging, out_of_fuel, failed, finished, purge_rows, purge_detached_document_batch,
  purge_counted, purge_next, purge_loop, has_conflict, tombstones_of, is_positive, max_id,
  detached_document_purge_scope, detached_document_batch,
}
use kb_graph.Documents.Purge.Batches.{
  batch_ids, batch_ids-bounds, batch_ids-before, batch_ids-nonempty,
  detached_document_batch-batch_ids, last_of-All,
}

-- The documents whose grace is not over.
unfoldable pub live_of : Text → Store → List Document
live_of before s = filter (λ d. not (is_expired before d)) s.documents

-- The eligible documents are behind the cursor and within the bound.
abbrev IsAhead : Text → ℕ → ℕ → List Document → Type 0
IsAhead before after max ds =
    All (λ d. is_expired before d ≡ true → (after < d.id) × (d.id ≤ max)) ds

-- What is left of a store: no fuel ran out, what is live is kept, and where all batches were done
-- the rest is gone and counted.
abbrev pub IsPurged : Text → ℕ → Store → Purging → Type 0
IsPurged before n s out_of_fuel = Empty
IsPurged before n s (failed t) = live_of before t ≡ live_of before s
IsPurged before n s (finished t m) =
    (t.documents ≡ live_of before s) × (m + length t.documents ≡ n + length s.documents)

all_live :
    (before : Text) (ds : List Document)
    → All (λ d. is_expired before d ≡ false) ds
    → ds ≡ filter (λ d. not (is_expired before d)) ds
unfolding filter
all_live before [] h = refl
all_live before (d ∷ ds) (e, h) = rw (e) (ap (λ xs. d ∷ xs) (all_live before ds h))

live_kept :
    (now before : Text) (ids : List ℕ) (ds : List Document)
    → filter (λ d. not (is_expired before d)) (filter (λ d. not (is_in_batch before ids d)) ds)
      ≡ filter (λ d. not (is_expired before d)) ds
unfolding filter is_in_batch
live_kept now before ids [] = refl
live_kept now before ids (d ∷ ds) = ground (arith, live_kept now before ids ds)

pub count_lem :
    (p : Document → Bool) (ds : List Document)
    → length (filter p ds) + length (filter (λ d. not (p d)) ds) ≡ length ds
unfolding filter
count_lem p [] = refl
count_lem p (d ∷ ds) = ground (arith, count_lem p ds)

-- An eligible document that is not in the batch is behind its last id.
behind_last :
    (before : Text) (after max i : ℕ) (is : List ℕ) (ds : List Document) (d : Document)
    → batch_ids before after max ds ≡ i ∷ is
    → In d ds
    → is_expired before d ≡ true
    → (after < d.id) × (d.id ≤ max)
    → is_in_batch before (i ∷ is) d ≡ false
    → last_of i is < d.id
unfolding is_in_batch is_between
behind_last before after max i is ds d e m x b q =
    let h : All (λ j. j < d.id) (i ∷ is) =
      subst (λ js. All (λ j. j < d.id) js) e
        (batch_ids-before before after max ds d m (ground arith) (rw (e) (ground arith))) in
    last_of-All (λ j. j < d.id) i is h.0 h.1

-- After a batch the rest of the eligible documents is behind its last id.
IsAhead-after :
    (before : Text) (after max i : ℕ) (is : List ℕ) (ds : List Document)
    → batch_ids before after max ds ≡ i ∷ is
    → IsAhead before after max ds
    → (es : List Document) → ((d : Document) → In d es → In d ds)
    → IsAhead before (last_of i is) max (filter (λ d. not (is_in_batch before (i ∷ is) d)) es)
unfolding filter
IsAhead-after before after max i is ds e h [] f = tt
IsAhead-after before after max i is ds e h (d ∷ es) f =
    kept (is_in_batch before (i ∷ is) d) refl
      (IsAhead-after before after max i is ds e h es (λ a m. f a (inr m)))
  where
    kept :
        (b : Bool)
        → is_in_batch before (i ∷ is) d ≡ b
        → IsAhead before (last_of i is) max (filter (λ a. not (is_in_batch before (i ∷ is) a)) es)
        → IsAhead before (last_of i is) max (
            if not b
            then d ∷ filter (λ a. not (is_in_batch before (i ∷ is) a)) es
            else filter (λ a. not (is_in_batch before (i ∷ is) a)) es)
    kept true q k = k
    kept false q k =
        let bounds : is_expired before d ≡ true → (after < d.id) × (d.id ≤ max) =
          at_of_All (λ a. is_expired before a ≡ true → (after < a.id) × (a.id ≤ max)) d ds h
            (f d (inl refl)) in
        (
          (λ x. (
            behind_last before after max i is ds d e (f d (inl refl)) x (bounds x) q,
            (bounds x).1,
          )),
          k,
        )

all_of_In :
    (P : Document → Type 0) (ds : List Document) → ((d : Document) → In d ds → P d) → All P ds
all_of_In P [] f = tt
all_of_In P (d ∷ ds) f = (f d (inl refl), all_of_In P ds (λ e m. f e (inr m)))

none_left :
    (before : Text) (after max : ℕ) (ds : List Document)
    → IsAhead before after max ds
    → batch_ids before after max ds ≡ []
    → All (λ d. is_expired before d ≡ false) ds
unfolding is_between
none_left before after max ds h e =
    all_of_In (λ d. is_expired before d ≡ false) ds
      (λ d m. elim (Bool-cases (is_expired before d)) [
        | inl x ↦
            let b =
              at_of_All (λ a. is_expired before a ≡ true → (after < a.id) × (a.id ≤ max)) d ds h m
                x in
            absurd (batch_ids-nonempty before after max ds d m (ground arith) e)
        | inr x ↦ x
      ])

past_bound :
    (before : Text) (after max : ℕ) (ds : List Document)
    → IsAhead before after max ds
    → max ≤ after
    → All (λ d. is_expired before d ≡ false) ds
past_bound before after max ds h le =
    All-map _ (λ d. is_expired before d ≡ false) ds (λ d k. ground (arith, k)) h

-- A purge of a later store is a purge of the one before the batch.
IsPurged-back :
    (before : Text) (n m : ℕ) (s t : Store) (r : Purging)
    → live_of before t ≡ live_of before s
    → m + length t.documents ≡ length s.documents
    → IsPurged before (n + m) t r
    → IsPurged before n s r
IsPurged-back before n m s t out_of_fuel e c h = h
IsPurged-back before n m s t (failed u) e c h = h ∙ e
IsPurged-back before n m s t (finished u k) e c (p, q) = (p ∙ e, omega (arith, q, c))

-- The store after a batch.
rows_live :
    (now before : Text) (ids : List ℕ) (s : Store)
    → live_of before (purge_rows now before ids s) ≡ live_of before s
unfolding live_of purge_rows
rows_live now before ids s = live_kept now before ids s.documents

rows_count :
    (now before : Text) (ids : List ℕ) (s : Store)
    → length (filter (is_in_batch before ids) s.documents)
        + length (purge_rows now before ids s).documents
      ≡ length s.documents
unfolding purge_rows
rows_count now before ids s = count_lem (is_in_batch before ids) s.documents

batch-IsPurged :
    (now before : Text) (n i : ℕ) (is : List ℕ) (s : Store) (continue : ℕ → Store → Purging)
    → ((m : ℕ)
        → IsPurged before m
            (purge_rows now before (i ∷ is) s)
            (continue m (purge_rows now before (i ∷ is) s)))
    → IsPurged before n s
        (purge_counted continue n s (purge_detached_document_batch now before (i ∷ is) s))
unfolding purge_counted purge_detached_document_batch
batch-IsPurged now before n i is s continue h =
    go (ltb detached_purge_batch_size (length (i ∷ is)) || any (λ j. not (is_positive j)) (i ∷ is))
      (has_conflict s.tombstones
        (tombstones_of now s (filter (is_in_batch before (i ∷ is)) s.documents)))
  where
    go :
        (a b : Bool)
        → IsPurged before n s (
            purge_counted continue n s (
              if a
              then batch_refused
              else if b
              then aborted
              else purged
                  (purge_rows now before (i ∷ is) s)
                  (length (filter (is_in_batch before (i ∷ is)) s.documents))))
    go true b = refl
    go false true = refl
    go false false =
        IsPurged-back before n _ s (purge_rows now before (i ∷ is) s) _
          (rows_live now before (i ∷ is) s) (rows_count now before (i ∷ is) s)
          (h (n + length (filter (is_in_batch before (i ∷ is)) s.documents)))

-- Nothing eligible is left.
finished-IsPurged :
    (before : Text) (n : ℕ) (s : Store)
    → All (λ d. is_expired before d ≡ false) s.documents
    → IsPurged before n s (finished s n)
unfolding live_of
finished-IsPurged before n s h = (all_live before s.documents h, refl)

-- One turn of the loop, when its next turns purge what they are given.
turn-IsPurged :
    (now before : Text) (max after n : ℕ) (s : Store) (continue : ℕ → ℕ → Store → Purging)
    → IsAhead before after max s.documents
    → ((i m : ℕ) (t : Store)
        → after < i
        → i ≤ max
        → IsAhead before i max t.documents
        → IsPurged before m t (continue i m t))
    → (ids : List ℕ) → batch_ids before after max s.documents ≡ ids
    → IsPurged before n s (purge_next continue now before n (some ids) s)
unfolding purge_next purge_rows
turn-IsPurged now before max after n s continue h k [] e =
    finished-IsPurged before n s (none_left before after max s.documents h e)
turn-IsPurged now before max after n s continue h k (i ∷ is) e =
    let bounds : All (λ j. (after < j) × (j ≤ max)) (i ∷ is) =
      subst (All (λ j. (after < j) × (j ≤ max))) e
        (batch_ids-bounds before after max s.documents) in
    let last = last_of-All (λ j. (after < j) × (j ≤ max)) i is bounds.0 bounds.1 in
    batch-IsPurged now before n i is s (continue (last_of i is)) (λ m.
      k (last_of i is) m (purge_rows now before (i ∷ is) s) last.0 last.1
        (IsAhead-after before after max i is s.documents e h s.documents (λ d x. x)))

purge_loop-keeps :
    (fuel : ℕ) (now before : Text) (max after n : ℕ) (s : Store)
    → IsAhead before after max s.documents
    → after ≤ max
    → max < fuel + after
    → IsPurged before n s (purge_loop fuel now before max after n s)
unfolding purge_loop
purge_loop-keeps zero now before max after n s h a f = absurd (omega (arith, a, f))
purge_loop-keeps (suc fuel) now before max after n s h a f =
    go (ltb after max) refl
      (λ i m t l u g. purge_loop-keeps fuel now before max i m t g u (omega (arith, l, f)))
  where
    go :
        (b : Bool)
        → ltb after max ≡ b
        → ((i m : ℕ) (t : Store)
            → after < i
            → i ≤ max
            → IsAhead before i max t.documents
            → IsPurged before m t (purge_loop fuel now before max i m t))
        → IsPurged before n s (
            if b
            then purge_next
                (purge_loop fuel now before max)
                now
                before
                n
                (detached_document_batch before after max detached_purge_batch_size s)
                s
            else finished s n)
    go true e k = rw (detached_document_batch-batch_ids before after max s) (
        turn-IsPurged now before max after n s (purge_loop fuel now before max) h k
          (batch_ids before after max s.documents) refl)
    go false e k =
        finished-IsPurged before n s (past_bound before after max s.documents h (ground arith))

max_id-bound : (d : Document) (ds : List Document) → In d ds → d.id ≤ max_id ds
unfolding max_id
max_id-bound d [] m = elim m [ ]
max_id-bound d (e ∷ es) (inl q) = rw (ap (λ (x : Document). x.id) q) (ground arith)
max_id-bound d (e ∷ es) (inr m) = ground (arith, max_id-bound d es m)

scope-IsAhead :
    (before : Text) (ds : List Document)
    → All (λ d. 0 < d.id) ds
    → IsAhead before 0 (max_id (filter (is_expired before) ds)) ds
scope-IsAhead before ds h = all_of_In _ ds (λ d m x. (
  at_of_All (λ e. 0 < e.id) d ds h m,
  max_id-bound d (filter (is_expired before) ds) (In-filter (is_expired before) d ds m x),
))

-- On a store whose ids are positive, as SQLite gives them, the batches from the first id to the
-- largest eligible one come to an end with fuel for each id. What is not eligible is kept, in its
-- order; unless a batch fails, which stops the loop, what is left is exactly that, and the count is
-- that of the documents that are gone.
pub purge_loop-IsPurged :
    (now before : Text) (s : Store)
    → All (λ d. 0 < d.id) s.documents
    → IsPurged before 0 s (
        purge_loop
          (suc (detached_document_purge_scope before s).1)
          now
          before
          (detached_document_purge_scope before s).1
          0
          0
          s)
unfolding detached_document_purge_scope
purge_loop-IsPurged now before s h =
    purge_loop-keeps _ now before _ 0 0 s (scope-IsAhead before s.documents h) (omega arith)
      (omega arith)
