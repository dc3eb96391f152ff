-- ===== src/Documents/Purge.antt =====
-- src/db.js and src/cli/vault-cli.js: detached documents are purged in batches once their grace is
-- over, each leaving a tombstone.
pub mod Batches
pub mod Loop
pub mod Command
use kb_graph.Base.{
  ℕ, suc, zero, ◌+◌, ◌-◌, Bool, true, false, not, ◌&&◌, ◌||◌, ltb, leb, ◌==◌, List, [], ◌∷◌, ◌++◌,
  Option, none, some, if◌then◌else◌, Text, find, filter, any, map, take, length,
}
use kb_graph.Facts.Dates.{text_lt}
use kb_graph.Documents.Rows.{Document, VaultFile, Tombstone, Store, coalesce}
use kb_graph.Documents.Writing.{is_file_of}
use kb_graph.Documents.Vault.{seen_hash}

abbrev pub detached_purge_batch_size : ℕ
detached_purge_batch_size = 100

-- `detached_at IS NOT NULL AND detached_at <= ?`
unfoldable pub is_expired : Text → Document → Bool
is_expired before d = elim d.detached_at [ none ↦ false | some t ↦ not (text_lt before t) ]

unfoldable pub max_id : List Document → ℕ
max_id [] = 0
max_id (d ∷ ds) = let rest = max_id ds in if ltb rest d.id then d.id else rest

-- How many documents are eligible, and the largest of their ids.
unfoldable pub detached_document_purge_scope : Text → Store → ℕ × ℕ
detached_document_purge_scope before s =
    let rows = filter (is_expired before) s.documents in (length rows, max_id rows)

unfoldable pub insert_id : ℕ → List ℕ → List ℕ
insert_id i [] = i ∷ []
insert_id i (j ∷ js) = let rest = insert_id i js in if leb i j then i ∷ j ∷ js else j ∷ rest

unfoldable pub sort_ids : List ℕ → List ℕ
sort_ids [] = []
sort_ids (i ∷ is) = insert_id i (sort_ids is)

unfoldable pub is_between : Text → ℕ → ℕ → Document → Bool
is_between before after_id max d = is_expired before d && (ltb after_id d.id && leb d.id max)

unfoldable pub id_of : Document → ℕ
id_of d = d.id

-- The next eligible ids in order; bounds that are not allowed are refused.
unfoldable pub detached_document_batch : Text → ℕ → ℕ → ℕ → Store → Option (List ℕ)
detached_document_batch before after_id max limit s =
    if (limit == 0) || ltb detached_purge_batch_size limit
    then none
    else some
        (take limit (sort_ids (map id_of (filter (is_between before after_id max) s.documents))))

unfoldable pub is_in_batch : Text → List ℕ → Document → Bool
is_in_batch before ids d = any (λ i. i == d.id) ids && is_expired before d

unfoldable pub tombstone_of : Text → Document → VaultFile → Tombstone
tombstone_of now d f = record {
  document_id = d.id;
  vault_path = some f.vault_path;
  content_hash = some (seen_hash f);
  detached_at = d.detached_at;
  deleted_at = now;
}

unfoldable pub bare_tombstone : Text → Document → Tombstone
bare_tombstone now d = record {
  document_id = d.id;
  vault_path = none;
  content_hash = none;
  detached_at = d.detached_at;
  deleted_at = now;
}

-- `LEFT JOIN vault_files`
unfoldable pub joined_tombstones : Text → Document → List VaultFile → List Tombstone
joined_tombstones now d [] = bare_tombstone now d ∷ []
joined_tombstones now d (f ∷ fs) = map (tombstone_of now d) (f ∷ fs)

unfoldable pub tombstones_of : Text → Store → List Document → List Tombstone
tombstones_of now s [] = []
tombstones_of now s (d ∷ ds) =
    joined_tombstones now d (filter (is_file_of d.id) s.vault_files) ++ tombstones_of now s ds

-- `document_id` is the primary key of the tombstones.
unfoldable pub has_conflict : List Tombstone → List Tombstone → Bool
has_conflict there [] = false
has_conflict there (t ∷ ts) =
    any (λ (u : Tombstone). u.document_id == t.document_id) there
    || has_conflict (there ++ (t ∷ [])) ts

unfoldable pub is_file_of_any : List Document → VaultFile → Bool
is_file_of_any ds f = any (λ (d : Document). is_file_of d.id f) ds

unfoldable pub purge_rows : Text → Text → List ℕ → Store → Store
purge_rows now before ids s =
    let rows = filter (is_in_batch before ids) s.documents in
    record s {
      documents = filter (λ d. not (is_in_batch before ids d)) s.documents;
      vault_files = filter (λ f. not (is_file_of_any rows f)) s.vault_files;
      tombstones = s.tombstones ++ tombstones_of now s rows;
      embeddings = filter (λ e. not (any (λ (d : Document). d.id == e) rows)) s.embeddings;
    }

pub data Purged : Type 0 where
  batch_refused : Purged
  aborted : Purged
  purged : Store → ℕ → Purged

unfoldable pub is_positive : ℕ → Bool
is_positive i = ltb 0 i

-- One transaction, which a conflict of tombstones rolls back.
unfoldable pub purge_detached_document_batch : Text → Text → List ℕ → Store → Purged
purge_detached_document_batch now before [] s = purged s 0
purge_detached_document_batch now before (i ∷ is) s =
    let rows = filter (is_in_batch before (i ∷ is)) s.documents in
    if ltb detached_purge_batch_size (length (i ∷ is)) || any (λ j. not (is_positive j)) (i ∷ is)
    then batch_refused
    else if has_conflict s.tombstones (tombstones_of now s rows)
    then aborted
    else purged (purge_rows now before (i ∷ is) s) (length rows)

unfoldable pub last_of : ℕ → List ℕ → ℕ
last_of i [] = i
last_of i (j ∷ js) = last_of j js

pub data Purging : Type 0 where
  out_of_fuel : Purging
  failed : Store → Purging
  finished : Store → ℕ → Purging

unfoldable pub purge_counted : (ℕ → Store → Purging) → ℕ → Store → Purged → Purging
purge_counted continue n s batch_refused = failed s
purge_counted continue n s aborted = failed s
purge_counted continue n s (purged t m) = continue (n + m) t

unfoldable pub purge_next :
    (ℕ → ℕ → Store → Purging) → Text → Text → ℕ → Option (List ℕ) → Store → Purging
purge_next continue now before n none s = failed s
purge_next continue now before n (some []) s = finished s n
purge_next continue now before n (some (i ∷ is)) s =
    purge_counted (continue (last_of i is)) n s
      (purge_detached_document_batch now before (i ∷ is) s)

-- The loop of `vaultPurgeDetached`; `n` counts the documents that are gone so far. Nothing else writes
-- between its batches.
unfoldable pub purge_loop : ℕ → Text → Text → ℕ → ℕ → ℕ → Store → Purging
purge_loop zero now before max after_id n s = out_of_fuel
purge_loop (suc fuel) now before max after_id n s =
    if ltb after_id max
    then purge_next (purge_loop fuel now before max) now before n
        (detached_document_batch before after_id max detached_purge_batch_size s) s
    else finished s n
