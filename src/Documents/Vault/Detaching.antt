-- ===== src/Documents/Vault/Detaching.antt =====
-- src/db.js: vault files leave what documents say as it is.
use kb_graph.Base.{ℕ, Bool, true, false, Option, none, some, Text, find}
use kb_graph.Documents.Rows.{
  DetachReason, vault_missing, explicit_delete, Document, Note, VaultFile, Store, update_where,
  get_document,
}
use kb_graph.Documents.Writing.{is_file_of}
use kb_graph.Documents.Writing.Grounded.{IsSoundStore, set_document-IsSound}
use kb_graph.Documents.Vault.{
  detach_document_record, delete_document, reattach_document, reattach, upsert_vault_file,
  detach_of, detach_vault_file, move_source, move_vault_file, has_path, is_source, detach_file,
  moved_to,
}

pub detach_document_record-IsSound :
    (now : Text) (id : ℕ) (reason : DetachReason) (s : Store)
    → IsSoundStore s
    → IsSoundStore (detach_document_record now id reason s)
unfolding detach_document_record
detach_document_record-IsSound now id reason s h =
    set_document-IsSound id _ s
      (λ d e q. record {
        is_shown = q.is_shown;
        not_itself = q.not_itself;
        is_positive = q.is_positive;
        is_issued = q.is_issued;
      })
      h

reattach_document-IsSound :
    (id : ℕ) (s : Store) → IsSoundStore s → IsSoundStore (reattach_document id s)
unfolding reattach_document
reattach_document-IsSound id s h =
    set_document-IsSound id _ s
      (λ d e q. record {
        is_shown = q.is_shown;
        not_itself = q.not_itself;
        is_positive = q.is_positive;
        is_issued = q.is_issued;
      })
      h

pub delete_document-IsSound :
    (now : Text) (id : ℕ) (s : Store) → IsSoundStore s → IsSoundStore (delete_document now id s).0
unfolding delete_document
delete_document-IsSound now id s h = go (get_document id s)
  where
    go :
        (o : Option Document)
        → IsSoundStore
            (elim o as (λ x. Store × Option (Option Text)) [
              | none ↦ (s, none)
              | some d ↦ (
                record (detach_document_record now id explicit_delete s) {
                  vault_files = update_where (is_file_of id) (detach_file now) s.vault_files;
                },
                some d.file_path,
              )
            ]).0
    go none = h
    go (some d) = detach_document_record-IsSound now id explicit_delete s h

pub upsert_vault_file-IsSound :
    (now path hash : Text) (o : Option ℕ) (note : Note) (s : Store)
    → IsSoundStore s
    → IsSoundStore (upsert_vault_file now path hash o note s)
unfolding upsert_vault_file reattach
upsert_vault_file-IsSound now path hash none note s h = h
upsert_vault_file-IsSound now path hash (some id) note s h = reattach_document-IsSound id _ h

detach_of-IsSound :
    (now : Text) (o : Option ℕ) (s : Store) → IsSoundStore s → IsSoundStore (detach_of now o s)
unfolding detach_of
detach_of-IsSound now none s h = h
detach_of-IsSound now (some id) s h = detach_document_record-IsSound now id vault_missing s h

pub detach_vault_file-IsSound :
    (now path : Text) (s : Store) → IsSoundStore s → IsSoundStore (detach_vault_file now path s).0
unfolding detach_vault_file
detach_vault_file-IsSound now path s h = go (find (has_path path) s.vault_files)
  where
    go :
        (o : Option VaultFile)
        → IsSoundStore
            (elim o as (λ x. Store × Bool) [
              | none ↦ (s, false)
              | some f ↦ (
                detach_of now f.document_id (record s {
                  vault_files = update_where (has_path path) (detach_file now) s.vault_files;
                }),
                true,
              )
            ]).0
    go none = h
    go (some f) = detach_of-IsSound now f.document_id _ h

move_source-IsSound :
    (now source target hash : Text) (o : Option VaultFile) (s : Store)
    → IsSoundStore s
    → IsSoundStore (move_source now source target hash o s).0
unfolding move_source
move_source-IsSound now source target hash none s h = h
move_source-IsSound now source target hash (some f) s h = go f.document_id
  where
    go :
        (o : Option ℕ)
        → IsSoundStore
            (elim o as (λ x. Store × Option ℕ) [
              | none ↦ (s, none)
              | some id ↦ (
                reattach_document id (record s {
                  vault_files =
                      update_where (is_source source hash) (moved_to now target hash) s.vault_files;
                }),
                some id,
              )
            ]).0
    go none = h
    go (some id) = reattach_document-IsSound id _ h

pub move_vault_file-IsSound :
    (now source target hash : Text) (s : Store)
    → IsSoundStore s
    → IsSoundStore (move_vault_file now source target hash s).0
unfolding move_vault_file
move_vault_file-IsSound now source target hash s h = go (find (has_path target) s.vault_files)
  where
    go :
        (o : Option VaultFile)
        → IsSoundStore
            (elim o as (λ x. Store × Option ℕ) [
              | none ↦
                  move_source now source target hash (find (is_source source hash) s.vault_files) s
              | some f ↦ (s, f.document_id)
            ]).0
    go none =
        move_source-IsSound now source target hash (find (is_source source hash) s.vault_files) s h
    go (some f) = h
