-- ===== src/Documents/Rows.antt =====
-- src/db.js: the rows of the tables, and the store that holds them.
use kb_graph.Base.{
  ℕ, Bool, true, false, List, [], ◌∷◌, Option, none, some, if◌then◌else◌, Text, find, ◌==◌,
}
use kb_graph.Tiers.{Tier}

pub data DetachReason : Type 0 where
  vault_missing explicit_delete : DetachReason

pub record Document : Type 0 where
  pub id : ℕ
  pub title : Text
  pub content : Text
  pub source : Option Text
  pub doc_type : Text
  pub tags : Text
  pub file_path : Option Text
  pub file_size : ℕ
  pub updated_at : Text
  pub tier : Tier
  pub tier_ref : Option Text
  pub tier_at : Option Text
  pub superseded_at : Option Text
  pub superseded_by : Option ℕ
  pub superseded_reason : Option Text
  pub detached_at : Option Text
  pub detached_reason : Option DetachReason

-- What a vault file says of its note.
pub record Note : Type 0 where
  pub title : Option Text
  pub note_type : Option Text
  pub tags : Text
  pub project : Option Text
  pub status : Option Text
  pub source : Option Text
  pub confidence : Option Text
  pub summary : Option Text
  pub key_topics : Option Text

pub record VaultFile : Type 0 where
  pub vault_path : Text
  pub content_hash : Text
  pub document_id : Option ℕ
  pub note : Note
  pub missing_at : Option Text
  pub detached_content_hash : Option Text
  pub indexed_at : Text

pub record Tombstone : Type 0 where
  pub document_id : ℕ
  pub vault_path : Option Text
  pub content_hash : Option Text
  pub detached_at : Option Text
  pub deleted_at : Text

-- `embeddings` are the documents that have one; `last_id` is the id last given, which is never
-- given again.
pub record Store : Type 0 where
  pub documents : List Document
  pub vault_files : List VaultFile
  pub tombstones : List Tombstone
  pub embeddings : List ℕ
  pub last_id : ℕ

abbrev pub empty_store : Store
empty_store = record {
  documents = [];
  vault_files = [];
  tombstones = [];
  embeddings = [];
  last_id = 0;
}

-- `UPDATE … WHERE`
unfoldable pub update_where {ℓ} : {A : Type ℓ} → (A → Bool) → (A → A) → List A → List A
update_where p f [] = []
update_where p f (x ∷ xs) = (if p x then f x else x) ∷ update_where p f xs

unfoldable pub has_id : ℕ → Document → Bool
has_id id d = d.id == id

unfoldable pub get_document : ℕ → Store → Option Document
get_document id s = find (has_id id) s.documents

unfoldable pub set_document : ℕ → (Document → Document) → Store → Store
set_document id f s = record s { documents = update_where (has_id id) f s.documents }

-- `COALESCE(a, b)`
unfoldable pub coalesce {ℓ} : {A : Type ℓ} → Option A → A → A
coalesce none b = b
coalesce (some a) b = a

unfoldable pub is_null {ℓ} : {A : Type ℓ} → Option A → Bool
is_null none = true
is_null (some a) = false
