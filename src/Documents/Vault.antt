-- ===== src/Documents/Vault.antt =====
-- src/db.js: vault files come, move and go, and detach the documents they stand for.
pub mod Detaching
use kb_graph.Base.{
  ℕ, suc, Bool, true, false, not, ◌&&◌, ◌||◌, ◌==◌, List, [], ◌∷◌, ◌++◌, Option, none, some,
  if◌then◌else◌, Text, codes, text_eq, find, filter, any,
}
use kb_graph.Documents.Rows.{
  DetachReason, vault_missing, explicit_delete, Document, Note, VaultFile, Store, update_where,
  has_id, get_document, set_document, coalesce, is_null,
}
use kb_graph.Documents.Writing.{is_file_of, or_null}

-- What stands in the place of the content hash of a file that is gone.
abbrev pub detached_content_hash_sentinel : Text
detached_content_hash_sentinel = codes "detached"

-- The first time and the first reason are kept; the embedding goes.
unfoldable pub detach_document_record : Text → ℕ → DetachReason → Store → Store
detach_document_record now id reason s =
    record (set_document id
      (λ d. record d {
        detached_at = some (coalesce d.detached_at now);
        detached_reason = some (coalesce d.detached_reason reason);
      })
      s) { embeddings = filter (λ e. not (e == id)) s.embeddings }

unfoldable pub detach_file : Text → VaultFile → VaultFile
detach_file now f = record f {
  detached_content_hash = some (coalesce f.detached_content_hash f.content_hash);
  content_hash = detached_content_hash_sentinel;
  missing_at = some (coalesce f.missing_at now);
}

-- The document is detached and its files are marked missing; the path of its file is returned.
unfoldable pub delete_document : Text → ℕ → Store → Store × Option (Option Text)
delete_document now id s = elim (get_document id s) [
  | none ↦ (s, none)
  | some d ↦ (
    record (detach_document_record now id explicit_delete s) {
      vault_files = update_where (is_file_of id) (detach_file now) s.vault_files;
    },
    some d.file_path,
  )
]

unfoldable pub has_path : Text → VaultFile → Bool
has_path path f = text_eq f.vault_path path

unfoldable pub reattach_document : ℕ → Store → Store
reattach_document id s =
    set_document id (λ d. record d { detached_at = none; detached_reason = none }) s

unfoldable pub reattach : Option ℕ → Store → Store
reattach none s = s
reattach (some id) s = reattach_document id s

-- A path that is there is rewritten in place.
unfoldable pub put_file : VaultFile → List VaultFile → List VaultFile
put_file f files =
    if any (has_path f.vault_path) files
    then update_where (has_path f.vault_path) (λ g. f) files
    else files ++ (f ∷ [])

unfoldable pub upsert_vault_file : Text → Text → Text → Option ℕ → Note → Store → Store
upsert_vault_file now path hash document_id note s =
    let f : VaultFile = record {
      vault_path = path;
      content_hash = hash;
      document_id = document_id;
      note = record note { summary = or_null note.summary };
      missing_at = none;
      detached_content_hash = none;
      indexed_at = now;
    } in
    reattach document_id (record s { vault_files = put_file f s.vault_files })

unfoldable pub detach_of : Text → Option ℕ → Store → Store
detach_of now none s = s
detach_of now (some id) s = detach_document_record now id vault_missing s

unfoldable pub detach_vault_file : Text → Text → Store → Store × Bool
detach_vault_file now path s = elim (find (has_path path) s.vault_files) [
  | none ↦ (s, false)
  | some f ↦ (
    detach_of now f.document_id
        (record s { vault_files = update_where (has_path path) (detach_file now) s.vault_files }),
    true,
  )
]

-- The hash a file had when it was last seen.
unfoldable pub seen_hash : VaultFile → Text
seen_hash f = coalesce f.detached_content_hash f.content_hash

unfoldable pub is_source : Text → Text → VaultFile → Bool
is_source path hash f = has_path path f && text_eq (seen_hash f) hash

unfoldable pub moved_to : Text → Text → Text → VaultFile → VaultFile
moved_to now path hash f = record f {
  vault_path = path;
  content_hash = hash;
  detached_content_hash = none;
  missing_at = none;
  indexed_at = now;
}

unfoldable pub move_source : Text → Text → Text → Text → Option VaultFile → Store → Store × Option ℕ
move_source now source target hash none s = (s, none)
move_source now source target hash (some f) s = elim f.document_id [
  | none ↦ (s, none)
  | some id ↦ (
    reattach_document id (record s {
      vault_files = update_where (is_source source hash) (moved_to now target hash) s.vault_files;
    }),
    some id,
  )
]

-- A file that moved keeps its document; a path that is taken wins.
unfoldable pub move_vault_file : Text → Text → Text → Text → Store → Store × Option ℕ
move_vault_file now source target hash s = elim (find (has_path target) s.vault_files) [
  | none ↦ move_source now source target hash (find (is_source source hash) s.vault_files) s
  | some f ↦ (s, f.document_id)
]
