-- ===== src/Documents/Tests.antt =====
-- src/db.js and src/cli/vault-cli.js: runs of the documents on concrete stores.
use kb_graph.Base.{
  ℕ, suc, ◌<◌, Bool, true, false, List, [], ◌∷◌, Option, none, some, Text, codes, text_eq, ◌≡◌,
  refl, text_dec, All, inl, arith,
}
use kb_graph.Tiers.{Tier, inferred, verified}
use kb_graph.Tiers.Repos.{Host}
use kb_graph.Documents.Rows.{
  Document, Store, empty_store, get_document, set_document, has_id, vault_missing, update_where,
  is_null,
}
use kb_graph.Documents.Writing.{
  Fields, insert_document, backfill_tiers, promoted, promote_document_tier,
}
use kb_graph.Documents.Writing.Backfill.{backfill_tiers_lem}
use kb_graph.Documents.Writing.Grounded.{IsSoundStore}
use kb_graph.Documents.Writing.Promotion.{IsPromotion, promote_document_tier-IsPromotion}
use kb_graph.Documents.Vault.{delete_document}
use kb_graph.Documents.Purge.{purge_loop, detached_document_purge_scope, purge_rows}
use kb_graph.Documents.Purge.Loop.{IsPurged, purge_loop-IsPurged}
use kb_graph.Documents.Purge.Command.{
  Options, Audit, previewed, report_applied, vault_purge_detached,
}
use kb_graph.Documents.Purge.Command.Confirmed.{IsConfirmed, vault_purge_detached-IsConfirmed}
use kb_graph.Documents.History.{start, written, inserts, deletes, Reachable-IsSound}

abbrev old_document : Document
old_document = record {
  id = 1;
  title = codes "a";
  content = codes "b";
  source = none;
  doc_type = codes "note";
  tags = [];
  file_path = none;
  file_size = 0;
  updated_at = codes "2026-01-01";
  tier = inferred;
  tier_ref = none;
  tier_at = none;
  superseded_at = none;
  superseded_by = none;
  superseded_reason = none;
  detached_at = some (codes "2026-01-02");
  detached_reason = some vault_missing;
}

abbrev live_document : Document
live_document = record old_document { id = 2; detached_at = none; detached_reason = none }

abbrev small_store : Store
small_store = record empty_store { documents = old_document ∷ live_document ∷ []; last_id = 2 }

abbrev now : Text
now = codes "2026-03-01"

abbrev cutoff : Text
cutoff = codes "2026-02-01"

purge_loop-IsPurged_example : IsPurged cutoff 0 small_store (
    purge_loop
      (suc (detached_document_purge_scope cutoff small_store).1)
      now
      cutoff
      (detached_document_purge_scope cutoff small_store).1
      0
      0
      small_store)
purge_loop-IsPurged_example =
    purge_loop-IsPurged now cutoff small_store (omega arith, (omega arith, tt))

abbrev apply_options : Options
apply_options = record {
  apply = true;
  grace_days = some 30;
  confirm_purge = some 1;
  preview_token = some (codes "t");
  before = codes "2026-02-02";
}

abbrev audit_log : List Audit
audit_log = previewed (some 30) 1 1 cutoff (codes "t") ∷ []

vault_purge_detached-IsConfirmed_example :
    IsConfirmed apply_options audit_log small_store (purge_rows now cutoff (1 ∷ []) small_store) 1 1
unfolding vault_purge_detached kb_graph.Documents.Purge.Command.confirm_preview
    kb_graph.Documents.Purge.Command.preview_of kb_graph.Documents.Purge.Command.read_purge_preview
    is_null kb_graph.Documents.Purge.Command.is_preview text_dec
    kb_graph.Documents.Purge.Command.same_number detached_document_purge_scope kb_graph.Base.filter
    kb_graph.Documents.Purge.is_expired kb_graph.Facts.Dates.text_lt kb_graph.Documents.Purge.max_id
    kb_graph.Documents.Purge.Command.purge_scope kb_graph.Documents.Purge.Command.purge_report
    purge_loop kb_graph.Documents.Purge.purge_next kb_graph.Documents.Purge.detached_document_batch
    kb_graph.Base.any kb_graph.Documents.Purge.bare_tombstone kb_graph.Documents.Purge.has_conflict
    kb_graph.Documents.Purge.id_of kb_graph.Documents.Purge.insert_id
    kb_graph.Documents.Purge.is_between kb_graph.Documents.Purge.is_file_of_any
    kb_graph.Documents.Purge.is_in_batch kb_graph.Documents.Purge.is_positive
    kb_graph.Documents.Purge.joined_tombstones kb_graph.Documents.Purge.last_of
    kb_graph.Documents.Purge.purge_counted kb_graph.Documents.Purge.purge_detached_document_batch
    purge_rows kb_graph.Documents.Purge.sort_ids kb_graph.Documents.Purge.tombstone_of
    kb_graph.Documents.Purge.tombstones_of kb_graph.Documents.Rows.coalesce
    kb_graph.Documents.Vault.seen_hash kb_graph.Documents.Writing.is_file_of
    kb_graph.Base.ℕ_discrete
vault_purge_detached-IsConfirmed_example =
    vault_purge_detached-IsConfirmed now (codes "u") apply_options audit_log small_store
      (purge_rows now cutoff (1 ∷ []) small_store) 1 1 (omega arith, (omega arith, tt)) refl

abbrev no_host : Host
no_host = record {
  exists = λ path. false;
  read_dir = λ path. none;
  join_path = λ a b. b;
  resolve = λ a b. b;
  relative = λ a b. b;
  is_absolute = λ path. false;
  sep = codes "/";
  has_commit = λ dir sha. false;
}

abbrev new_fields : Fields
new_fields = record {
  title = codes "a";
  content = codes "b";
  source = none;
  doc_type = codes "note";
  tags = none;
  file_path = none;
  file_size = 0;
  tier = some (codes "verified");
  tier_ref = some (codes "#42");
}

Reachable-IsSound_example :
    IsSoundStore (delete_document now 1 (insert_document now new_fields empty_store)).0
Reachable-IsSound_example =
    Reachable-IsSound no_host []
      (delete_document now 1 (insert_document now new_fields empty_store)).0
      (written now (insert_document now new_fields empty_store) _
        (written now empty_store _ start (inserts new_fields)) (deletes 1))

backfill_tiers_lem_example : backfill_tiers now true small_store ≡ (small_store, 0)
backfill_tiers_lem_example = backfill_tiers_lem now true small_store

abbrev raised_store : Store
raised_store =
    set_document 2
      (λ r. record r { tier = verified; tier_ref = some (codes "#42"); tier_at = some now })
      small_store

promote_document_tier-IsPromotion_example :
    IsPromotion no_host [] now 2
      (some (codes "verified"))
      (some (codes "#42"))
      small_store
      raised_store
unfolding promote_document_tier kb_graph.Documents.Writing.promote_found get_document
    kb_graph.Base.find has_id is_null kb_graph.Documents.Writing.promote_with
    kb_graph.Tiers.References.normalize_ref kb_graph.Tiers.References.is_storable kb_graph.Base.trim
    kb_graph.Base.fold_spaces kb_graph.Documents.Writing.promote_graded
    kb_graph.Tiers.Claims.assert_tier kb_graph.Tiers.Claims.is_unknown kb_graph.Tiers.includes_tier
    kb_graph.Base.any kb_graph.Tiers.is_tier text_dec kb_graph.Tiers.text_of
    kb_graph.Tiers.Sources.is_unattended_source kb_graph.Tiers.Claims.is_demoted
    kb_graph.Tiers.Claims.resolve_tier kb_graph.Tiers.is_same kb_graph.Tiers.coerce_tier
    kb_graph.Tiers.or_default kb_graph.Tiers.Claims.is_given kb_graph.Tiers.References.reference_in
    kb_graph.Tiers.References.if_named kb_graph.Tiers.References.tokens_of kb_graph.Base.split_on
    kb_graph.Tiers.References.token_is_reference kb_graph.Tiers.References.strip_edges
    kb_graph.Tiers.References.is_one_of kb_graph.Tiers.References.labelled_sha kb_graph.Base.all
    kb_graph.Base.filter kb_graph.Base.put_front kb_graph.Base.take_while kb_graph.Base.drop_end
    kb_graph.Base.drop_while kb_graph.Base.is_space kb_graph.Base.keep_end kb_graph.Base.lower_unit
    kb_graph.Base.starts_with kb_graph.Base.to_lower set_document update_where
    kb_graph.Tiers.Claims.assert_resolved kb_graph.Tiers.Claims.given_or kb_graph.Tiers.Claims.tried
    kb_graph.Tiers.References.bare_sha kb_graph.Tiers.References.before_hash
    kb_graph.Tiers.References.ends_or_delimits kb_graph.Tiers.References.file_path
    kb_graph.Tiers.References.is_delimiter kb_graph.Tiers.References.is_digit
    kb_graph.Tiers.References.is_dot_then_path kb_graph.Tiers.References.is_hash_number
    kb_graph.Tiers.References.is_hex kb_graph.Tiers.References.is_hex_letter
    kb_graph.Tiers.References.is_labelled_by kb_graph.Tiers.References.is_letter
    kb_graph.Tiers.References.is_name kb_graph.Tiers.References.is_name_unit
    kb_graph.Tiers.References.is_number kb_graph.Tiers.References.is_path_unit
    kb_graph.Tiers.References.is_pr_part kb_graph.Tiers.References.is_repo_name
    kb_graph.Tiers.References.is_test_word kb_graph.Tiers.References.pr_number
    kb_graph.Tiers.References.pr_parts kb_graph.Tiers.References.pr_url
    kb_graph.Tiers.References.sha_labels kb_graph.Tiers.References.starts_number
    kb_graph.Tiers.References.starts_test kb_graph.Tiers.References.test_after
    kb_graph.Tiers.References.test_part kb_graph.Tiers.References.test_words
    kb_graph.Tiers.Repos.after_label kb_graph.Tiers.Repos.child_of kb_graph.Tiers.Repos.concat_map
    kb_graph.Tiers.Repos.escapes kb_graph.Tiers.Repos.if_resolved kb_graph.Tiers.Repos.is_directory
    kb_graph.Tiers.Repos.is_git_repo kb_graph.Tiers.Repos.repos_among
    kb_graph.Tiers.Repos.repos_under kb_graph.Tiers.Repos.resolved_reference_in
    kb_graph.Tiers.Repos.resolves_by_shape kb_graph.Tiers.Repos.resolves_in
    kb_graph.Tiers.Repos.search_dirs kb_graph.Tiers.Repos.sha_of kb_graph.Tiers.Repos.token_resolves
    kb_graph.Tiers.Sources.is_word kb_graph.Tiers.Sources.reversed kb_graph.Tiers.index_of
    kb_graph.Tiers.tier_rank kb_graph.Base.ℕ_discrete
promote_document_tier-IsPromotion_example =
    promote_document_tier-IsPromotion no_host [] now 2 (some (codes "verified"))
      (some (codes "#42")) small_store raised_store refl
