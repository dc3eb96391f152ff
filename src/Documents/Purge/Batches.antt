-- ===== src/Documents/Purge/Batches.antt =====
-- src/db.js: a batch is the smallest eligible ids.
use kb_graph.Base.{
  ℕ, suc, zero, ◌≤◌, ◌<◌, Bool, true, false, leb, ◌==◌, List, [], ◌∷◌, some, if◌then◌else◌, Text,
  filter, any, map, take, ◌≡◌, ◌≢◌, refl, ap, ◌⊎◌, inl, inr, arith, In, All, All-map, In-filter,
  at_of_All, leb→le,
}
use kb_graph.Documents.Rows.{Document, Store}
use kb_graph.Documents.Purge.{
  insert_id, sort_ids, last_of, is_between, id_of, detached_document_batch,
  detached_purge_batch_size,
}

-- In order, none before the one in front.
abbrev IsOrdered : List ℕ → Type 0
IsOrdered [] = Unit
IsOrdered (i ∷ is) = All (λ j. i ≤ j) is × IsOrdered is

All-insert_id : (P : ℕ → Type 0) (i : ℕ) (is : List ℕ) → P i → All P is → All P (insert_id i is)
unfolding insert_id
All-insert_id P i [] p h = (p, tt)
All-insert_id P i (j ∷ js) p (q, h) = placed (leb i j) (All-insert_id P i js p h)
  where
    placed :
        (b : Bool) → All P (insert_id i js) → All P (if b then i ∷ j ∷ js else j ∷ insert_id i js)
    placed true k = (p, (q, h))
    placed false k = (q, k)

IsOrdered-insert_id : (i : ℕ) (is : List ℕ) → IsOrdered is → IsOrdered (insert_id i is)
unfolding insert_id
IsOrdered-insert_id i [] h = (tt, tt)
IsOrdered-insert_id i (j ∷ js) (q, h) = placed (leb i j) refl (IsOrdered-insert_id i js h)
  where
    placed :
        (b : Bool)
        → leb i j ≡ b
        → IsOrdered (insert_id i js)
        → IsOrdered (if b then i ∷ j ∷ js else j ∷ insert_id i js)
    placed true e k =
        let le = leb→le i j e in
        ((le, All-map (λ m. j ≤ m) (λ m. i ≤ m) js (λ m l. omega (arith, le, l)) q), (q, h))
    placed false e k = (All-insert_id (λ m. j ≤ m) i js (ground arith) q, k)

IsOrdered-sort_ids : (is : List ℕ) → IsOrdered (sort_ids is)
unfolding sort_ids
IsOrdered-sort_ids [] = tt
IsOrdered-sort_ids (i ∷ is) = IsOrdered-insert_id i (sort_ids is) (IsOrdered-sort_ids is)

In-insert_id : (k i : ℕ) (is : List ℕ) → (k ≡ i) ⊎ In k is → In k (insert_id i is)
unfolding insert_id
In-insert_id k i [] h = h
In-insert_id k i (j ∷ js) h = ground (arith, In-insert_id k i js)

In-sort_ids : (k : ℕ) (is : List ℕ) → In k is → In k (sort_ids is)
unfolding sort_ids
In-sort_ids k [] h = h
In-sort_ids k (i ∷ is) (inl e) = In-insert_id k i (sort_ids is) (inl e)
In-sort_ids k (i ∷ is) (inr m) = In-insert_id k i (sort_ids is) (inr (In-sort_ids k is m))

All-sort_ids : (P : ℕ → Type 0) (is : List ℕ) → All P is → All P (sort_ids is)
unfolding sort_ids
All-sort_ids P [] h = tt
All-sort_ids P (i ∷ is) (p, h) = All-insert_id P i (sort_ids is) p (All-sort_ids P is h)

-- A member of an ordered list that is not among the first comes after each of them.
All-take :
    (n k : ℕ) (is : List ℕ)
    → IsOrdered is
    → In k is
    → any (λ i. i == k) (take n is) ≡ false
    → All (λ i. i < k) (take n is)
unfolding any
All-take zero k is o m h = tt
All-take (suc n) k [] o m h = tt
All-take (suc n) k (i ∷ is) (q, o) (inl e) h = ground arith
All-take (suc n) k (i ∷ is) (q, o) (inr m) h =
    (ground (arith, at_of_All (λ j. i ≤ j) k is q m), All-take n k is o m (ground arith))

All-take_of : (P : ℕ → Type 0) (n : ℕ) (is : List ℕ) → All P is → All P (take n is)
All-take_of P zero is h = tt
All-take_of P (suc n) [] h = tt
All-take_of P (suc n) (i ∷ is) (p, h) = (p, All-take_of P n is h)

pub last_of-All : (P : ℕ → Type 0) (i : ℕ) (is : List ℕ) → P i → All P is → P (last_of i is)
unfolding last_of
last_of-All P i [] p h = p
last_of-All P i (j ∷ js) p (q, h) = last_of-All P j js q h

In-map : (d : Document) (ds : List Document) → In d ds → In d.id (map id_of ds)
unfolding id_of
In-map d [] m = m
In-map d (e ∷ es) (inl q) = inl (ap (λ (x : Document). x.id) q)
In-map d (e ∷ es) (inr m) = inr (In-map d es m)

All-ids :
    (P : ℕ → Type 0) (p : Document → Bool) (ds : List Document)
    → ((d : Document) → p d ≡ true → P d.id)
    → All P (map id_of (filter p ds))
unfolding id_of filter
All-ids P p [] f = tt
All-ids P p (d ∷ ds) f = kept (p d) refl (All-ids P p ds f)
  where
    kept :
        (b : Bool)
        → p d ≡ b
        → All P (map id_of (filter p ds))
        → All P (map id_of (if b then d ∷ filter p ds else filter p ds))
    kept true e h = (f d e, h)
    kept false e h = h

-- The ids of the next batch.
unfoldable pub batch_ids : Text → ℕ → ℕ → List Document → List ℕ
batch_ids before after max ds =
    take detached_purge_batch_size (sort_ids (map id_of (filter (is_between before after max) ds)))

pub detached_document_batch-batch_ids :
    (before : Text) (after max : ℕ) (s : Store)
    → detached_document_batch before after max detached_purge_batch_size s
      ≡ some (batch_ids before after max s.documents)
unfolding detached_document_batch batch_ids
detached_document_batch-batch_ids before after max s = refl

-- Every id of a batch is behind the cursor and within the bound.
pub batch_ids-bounds :
    (before : Text) (after max : ℕ) (ds : List Document)
    → All (λ i. (after < i) × (i ≤ max)) (batch_ids before after max ds)
unfolding batch_ids is_between
batch_ids-bounds before after max ds =
    All-take_of (λ i. (after < i) × (i ≤ max)) detached_purge_batch_size _
      (All-sort_ids (λ i. (after < i) × (i ≤ max)) _
        (All-ids (λ i. (after < i) × (i ≤ max)) (is_between before after max) ds
          (between_bounds before after max)))
  where
    between_bounds :
        (b : Text) (a m : ℕ) (d : Document) → is_between b a m d ≡ true → (a < d.id) × (d.id ≤ m)
    between_bounds b a m d h = ground arith

-- An eligible document that is not in the batch comes after each of its ids.
pub batch_ids-before :
    (before : Text) (after max : ℕ) (ds : List Document) (d : Document)
    → In d ds
    → is_between before after max d ≡ true
    → any (λ i. i == d.id) (batch_ids before after max ds) ≡ false
    → All (λ i. i < d.id) (batch_ids before after max ds)
unfolding batch_ids is_between
batch_ids-before before after max ds d m b h =
    All-take detached_purge_batch_size d.id _ (IsOrdered-sort_ids _)
      (In-sort_ids d.id _ (In-map d _ (In-filter (is_between before after max) d ds m b))) h

In-take-suc : (n k : ℕ) (is : List ℕ) → In k is → take (suc n) is ≡ [] → ⊥
In-take-suc n k [] m e = elim m [ ]
In-take-suc n k (i ∷ is) m e = cc

-- A batch is not empty while a document is eligible.
pub batch_ids-nonempty :
    (before : Text) (after max : ℕ) (ds : List Document) (d : Document)
    → In d ds
    → is_between before after max d ≡ true
    → batch_ids before after max ds ≢ []
unfolding batch_ids
batch_ids-nonempty before after max ds d m b e =
    In-take-suc 99 d.id _
      (In-sort_ids d.id _ (In-map d _ (In-filter (is_between before after max) d ds m b))) e
