-- ===== src/Documents/Writing.antt =====
-- src/db.js: documents are inserted, rewritten, superseded, promoted and regraded.
pub mod Grounded
pub mod Superseding
pub mod Promotion
pub mod Backfill
use kb_graph.Base.{
  ℕ, suc, Bool, true, false, not, ◌&&◌, ◌||◌, ltb, leb, ◌==◌, List, [], ◌∷◌, ◌++◌, Option, none,
  some, if◌then◌else◌, Text, codes, filter, length, map,
}
use kb_graph.Tiers.{Tier, text_of, tier_rank, is_same}
use kb_graph.Tiers.Sources.{tier_for_source}
use kb_graph.Tiers.References.{normalize_ref}
use kb_graph.Tiers.Repos.{Host}
use kb_graph.Tiers.Claims.{
  Standing, resolve_tier, Asserted, accepted, refused, TierError, assert_tier,
}
use kb_graph.Documents.Tags.{normalize_tag_string}
use kb_graph.Documents.Rows.{
  Document, VaultFile, Store, update_where, has_id, get_document, set_document, coalesce, is_null,
}

-- What a caller gives for a document.
pub record Fields : Type 0 where
  pub title : Text
  pub content : Text
  pub source : Option Text
  pub doc_type : Text
  pub tags : Option Text
  pub file_path : Option Text
  pub file_size : ℕ
  pub tier : Option Text
  pub tier_ref : Option Text

-- `value || null`
unfoldable pub or_null : Option Text → Option Text
or_null none = none
or_null (some []) = none
or_null (some (c ∷ cs)) = some (c ∷ cs)

unfoldable pub new_document : Text → ℕ → Fields → Document
new_document now id f =
    let graded = resolve_tier f.tier f.tier_ref in
    record {
      id = id;
      title = f.title;
      content = f.content;
      source = or_null f.source;
      doc_type = f.doc_type;
      tags = normalize_tag_string f.tags;
      file_path = or_null f.file_path;
      file_size = f.file_size;
      updated_at = now;
      tier = graded.tier;
      tier_ref = graded.ref;
      tier_at = some now;
      superseded_at = none;
      superseded_by = none;
      superseded_reason = none;
      detached_at = none;
      detached_reason = none;
    }

unfoldable pub insert_document : Text → Fields → Store → Store
insert_document now f s = record s {
  documents = s.documents ++ (new_document now (suc s.last_id) f ∷ []);
  last_id = suc s.last_id;
}

unfoldable pub update_document : Text → ℕ → Text → Option Text → Store → Store
update_document now id title tags s =
    set_document id
      (λ d. record d { title = title; tags = normalize_tag_string tags; updated_at = now }) s

unfoldable pub rewritten : Text → Fields → Document → Document
rewritten now f d = record d {
  title = f.title;
  content = f.content;
  tags = normalize_tag_string f.tags;
  doc_type = f.doc_type;
  source = f.source;
  file_path = f.file_path;
  file_size = f.file_size;
  updated_at = now;
}

-- `tier_at` moves only when the tier does.
unfoldable pub regraded : Text → Standing → Document → Document
regraded now graded d = record d {
  tier_at = if is_same d.tier graded.tier then d.tier_at else some now;
  tier = graded.tier;
  tier_ref = graded.ref;
}

unfoldable pub update_document_full : Text → ℕ → Fields → Bool → Store → Store
update_document_full now id f preserve_tier s =
    if preserve_tier
    then set_document id (rewritten now f) s
    else set_document id (λ d. regraded now (resolve_tier f.tier f.tier_ref) (rewritten now f d)) s

pub data Superseded : Type 0 where
  unknown_document : Superseded
  with_itself : ℕ → Superseded
  replacement_not_found : ℕ → Superseded
  superseded : Store → Superseded

unfoldable pub mark_superseded : Text → ℕ → Option ℕ → Option Text → Store → Store
mark_superseded now id replacement reason s =
    set_document id
      (λ d. record d {
        superseded_at = some now;
        superseded_by = replacement;
        superseded_reason = reason;
      })
      s

unfoldable pub clear_superseded : ℕ → Store → Store
clear_superseded id s =
    set_document id
      (λ d. record d { superseded_at = none; superseded_by = none; superseded_reason = none }) s

unfoldable pub supersede_by : Text → ℕ → Option ℕ → Option Text → Store → Superseded
supersede_by now id none reason s = superseded (mark_superseded now id none reason s)
supersede_by now id (some r) reason s =
    if r == id
    then with_itself id
    else if is_null (get_document r s)
    then replacement_not_found r
    else superseded (mark_superseded now id (some r) reason s)

-- Nothing is written where the document is unknown or the replacement is refused.
unfoldable pub supersede_document : Text → ℕ → Option ℕ → Option Text → Bool → Store → Superseded
supersede_document now id replacement reason unset s =
    if is_null (get_document id s)
    then unknown_document
    else if unset
    then superseded (clear_superseded id s)
    else supersede_by now id replacement reason s

pub data Promoted : Type 0 where
  no_document : Promoted
  no_evidence : Promoted
  not_granted : TierError → Promoted
  not_raised : Tier → Promoted
  promoted : Store → Promoted

unfoldable pub promote_graded : Text → ℕ → Document → Asserted → Store → Promoted
promote_graded now id d (refused e) s = not_granted e
promote_graded now id d (accepted graded) s =
    if leb (tier_rank (some (text_of graded.tier))) (tier_rank (some (text_of d.tier)))
    then not_raised d.tier
    else promoted (
        set_document id
          (λ r. record r { tier = graded.tier; tier_ref = graded.ref; tier_at = some now }) s)

unfoldable pub promote_with :
    Host → List Text → Text → ℕ → Option Text → Option Text → Document → Store → Promoted
promote_with host roots now id tier none d s = no_evidence
promote_with host roots now id tier (some evidence) d s =
    promote_graded now id d (assert_tier host tier (some evidence) none roots) s

unfoldable pub promote_found :
    Host → List Text → Text → ℕ → Option Text → Option Text → Option Document → Store → Promoted
promote_found host roots now id tier confirmed_by none s = no_document
promote_found host roots now id tier confirmed_by (some d) s =
    if is_null d.detached_at
    then promote_with host roots now id tier (normalize_ref confirmed_by) d s
    else no_document

-- A tier only rises, on evidence that a writer may assert it with.
unfoldable pub promote_document_tier :
    Host → List Text → Text → ℕ → Option Text → Option Text → Store → Promoted
promote_document_tier host roots now id tier confirmed_by s =
    promote_found host roots now id tier confirmed_by (get_document id s) s

unfoldable pub is_file_of : ℕ → VaultFile → Bool
is_file_of id f = elim f.document_id [ none ↦ false | some i ↦ i == id ]

unfoldable pub sources_of : Document → List VaultFile → List (Option Text)
sources_of d [] = d.source ∷ []
sources_of d (f ∷ fs) = map (λ (g : VaultFile). g.note.source) (f ∷ fs)

-- The sources of a note, which for a vault note are those of its files.
unfoldable pub provenances : Store → Document → List (Option Text)
provenances s d = sources_of d (filter (is_file_of d.id) s.vault_files)

unfoldable pub raises : Document → List (Option Text) → List (Tier × ℕ)
raises d [] = []
raises d (source ∷ sources) =
    let rest = raises d sources in
    let target = tier_for_source source in
    if ltb (tier_rank (some (text_of d.tier))) (tier_rank (some (text_of target)))
    then (target, d.id) ∷ rest
    else rest

-- The rows whose source proves more than the tier they have.
unfoldable pub updates_of : Store → List Document → List (Tier × ℕ)
updates_of s [] = []
updates_of s (d ∷ ds) =
    let rest = updates_of s ds in
    if is_null d.detached_at then raises d (provenances s d) ++ rest else rest

unfoldable pub apply_updates : Text → List (Tier × ℕ) → Store → Store
apply_updates now [] s = s
apply_updates now ((target, id) ∷ us) s =
    apply_updates now us (set_document id (λ d. record d { tier = target; tier_at = some now }) s)

unfoldable pub backfill_tiers : Text → Bool → Store → Store × ℕ
backfill_tiers now apply s =
    let updates = updates_of s s.documents in
    (if apply then apply_updates now updates s else s, length updates)
