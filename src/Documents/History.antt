-- ===== src/Documents/History.antt =====
-- src/db.js: the stores that a sequence of writes leads to from an empty one.
use kb_graph.Base.{
  ℕ, Bool, List, [], ◌∷◌, Option, Text, ◌≡◌, subst, not, filter, All-filter, if◌then◌else◌, true,
  false, ◌||◌, ltb, length, any,
}
use kb_graph.Tiers.Repos.{Host}
use kb_graph.Documents.Rows.{Note, Store, empty_store}
use kb_graph.Documents.Writing.{
  Fields, insert_document, update_document, update_document_full, superseded, supersede_document,
  promoted, promote_document_tier, backfill_tiers,
}
use kb_graph.Documents.Writing.Backfill.{backfill_tiers_lem}
use kb_graph.Documents.Writing.Grounded.{
  IsSound, IsSoundStore, insert_document-IsSound, update_document-IsSound,
  update_document_full-IsSound,
}
use kb_graph.Documents.Writing.Superseding.{supersede_document-IsSound}
use kb_graph.Documents.Writing.Promotion.{promote_document_tier-IsSound}
use kb_graph.Documents.Vault.{
  delete_document, upsert_vault_file, detach_vault_file, move_vault_file,
}
use kb_graph.Documents.Vault.Detaching.{
  delete_document-IsSound, upsert_vault_file-IsSound, detach_vault_file-IsSound,
  move_vault_file-IsSound,
}
use kb_graph.Documents.Purge.{
  Purged, batch_refused, aborted, purged, purge_rows, purge_detached_document_batch, is_in_batch,
  detached_purge_batch_size, is_positive, has_conflict, tombstones_of,
}

-- A write of the store, with the time at which it happens.
pub data Write (host : Host) (roots : List Text) (now : Text) (s : Store) : Store → Type 0 where
  inserts : (f : Fields) → Write host roots now s (insert_document now f s)
  updates :
      (id : ℕ) (title : Text) (tags : Option Text)
      → Write host roots now s (update_document now id title tags s)
  rewrites :
      (id : ℕ) (f : Fields) (preserve : Bool)
      → Write host roots now s (update_document_full now id f preserve s)
  supersedes :
      (id : ℕ) (by : Option ℕ) (reason : Option Text) (unset : Bool) (t : Store)
      → supersede_document now id by reason unset s ≡ superseded t
      → Write host roots now s t
  promotes :
      (id : ℕ) (tier confirmed_by : Option Text) (t : Store)
      → promote_document_tier host roots now id tier confirmed_by s ≡ promoted t
      → Write host roots now s t
  backfills : (apply : Bool) → Write host roots now s (backfill_tiers now apply s).0
  deletes : (id : ℕ) → Write host roots now s (delete_document now id s).0
  upserts :
      (path hash : Text) (id : Option ℕ) (note : Note)
      → Write host roots now s (upsert_vault_file now path hash id note s)
  detaches : (path : Text) → Write host roots now s (detach_vault_file now path s).0
  moves :
      (source target hash : Text)
      → Write host roots now s (move_vault_file now source target hash s).0
  purges :
      (before : Text) (ids : List ℕ) (t : Store) (n : ℕ)
      → purge_detached_document_batch now before ids s ≡ purged t n
      → Write host roots now s t

-- The stores that writes lead to from the empty one.
pub data Reachable (host : Host) (roots : List Text) : Store → Type 0 where
  start : Reachable host roots empty_store
  written :
      (now : Text) (s t : Store)
      → Reachable host roots s
      → Write host roots now s t
      → Reachable host roots t

abbrev Leaves : (Store → Type 0) → Purged → Type 0
Leaves P batch_refused = Unit
Leaves P aborted = Unit
Leaves P (purged t n) = P t

purge_rows-IsSound :
    (now before : Text) (ids : List ℕ) (s : Store)
    → IsSoundStore s
    → IsSoundStore (purge_rows now before ids s)
unfolding purge_rows
purge_rows-IsSound now before ids s h =
    All-filter (IsSound s.last_id) (λ d. not (is_in_batch before ids d)) s.documents h

purge_batch-Leaves :
    (now before : Text) (ids : List ℕ) (s : Store)
    → IsSoundStore s
    → Leaves IsSoundStore (purge_detached_document_batch now before ids s)
unfolding purge_detached_document_batch
purge_batch-Leaves now before [] s h = h
purge_batch-Leaves now before (i ∷ is) s h =
    go (ltb detached_purge_batch_size (length (i ∷ is)) || any (λ j. not (is_positive j)) (i ∷ is))
      (has_conflict s.tombstones
        (tombstones_of now s (filter (is_in_batch before (i ∷ is)) s.documents)))
  where
    go :
        (a b : Bool)
        → Leaves IsSoundStore (
            if a
            then batch_refused
            else if b
            then aborted
            else purged
                (purge_rows now before (i ∷ is) s)
                (length (filter (is_in_batch before (i ∷ is)) s.documents)))
    go true b = tt
    go false true = tt
    go false false = purge_rows-IsSound now before (i ∷ is) s h

write-IsSound :
    (host : Host) (roots : List Text) (now : Text) (s t : Store)
    → Write host roots now s t
    → IsSoundStore s
    → IsSoundStore t
write-IsSound host roots now s _ (inserts f) h = insert_document-IsSound now f s h
write-IsSound host roots now s _ (updates id title tags) h =
    update_document-IsSound now id title tags s h
write-IsSound host roots now s _ (rewrites id f preserve) h =
    update_document_full-IsSound now id f preserve s h
write-IsSound host roots now s _ (supersedes id by reason unset t e) h =
    supersede_document-IsSound now id by reason unset s t e h
write-IsSound host roots now s _ (promotes id tier confirmed_by t e) h =
    promote_document_tier-IsSound host roots now id tier confirmed_by s t e h
write-IsSound host roots now s _ (backfills apply) h = rw (backfill_tiers_lem now apply s) h
write-IsSound host roots now s _ (deletes id) h = delete_document-IsSound now id s h
write-IsSound host roots now s _ (upserts path hash id note) h =
    upsert_vault_file-IsSound now path hash id note s h
write-IsSound host roots now s _ (detaches path) h = detach_vault_file-IsSound now path s h
write-IsSound host roots now s _ (moves source target hash) h =
    move_vault_file-IsSound now source target hash s h
write-IsSound host roots now s _ (purges before ids t n e) h =
    subst (Leaves IsSoundStore) e (purge_batch-Leaves now before ids s h)

-- In every store that a sequence of writes leads to, a document that is verified shows a reference by
-- its stored form, no document is superseded by itself, and every id is positive and at most the one
-- that was given last.
pub Reachable-IsSound :
    (host : Host) (roots : List Text) (s : Store) → Reachable host roots s → IsSoundStore s
Reachable-IsSound host roots _ start = tt
Reachable-IsSound host roots _ (written now s t r w) =
    write-IsSound host roots now s t w (Reachable-IsSound host roots s r)
