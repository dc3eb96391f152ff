-- ===== src/Documents/Purge/Command/Confirmed.antt =====
-- src/cli/vault-cli.js: nothing is purged but what a dry run counted and the caller confirmed.
use kb_graph.Base.{
  ℕ, ◌<◌, true, List, [], ◌∷◌, Option, none, some, Text, eq_of_text_eq, filter, length, ◌≡◌, refl,
  sym, ap, subst, ◌∙◌, arith, In, All,
}
use kb_graph.Documents.Rows.{Store, is_null}
use kb_graph.Documents.Purge.{
  Purging, out_of_fuel, failed, finished, detached_document_purge_scope, is_expired,
}
use kb_graph.Documents.Purge.Loop.{live_of, IsPurged, purge_loop-IsPurged, count_lem}
use kb_graph.Documents.Purge.Command.{
  Options, Audit, previewed, confirmation_refused, applied, is_preview, read_purge_preview,
  same_number, report_applied, purge_report, purge_scope, confirm_preview, preview_of,
  vault_purge_detached,
}

-- The preview that is read stands in the log and has the token.
read_purge_preview-In :
    (token : Text) (log : List Audit) (a : Audit)
    → read_purge_preview token log ≡ some a
    → In a log × (is_preview token a ≡ true)
unfolding read_purge_preview is_null
read_purge_preview-In token [] a h = cc
read_purge_preview-In token (b ∷ rest) a h = ground (arith, read_purge_preview-In token rest a)

-- What an applied purge rests on.
pub record IsConfirmed (o : Options) (log : List Audit) (s t : Store) (eligible gone : ℕ)
    : Type 0 where
  pub before : Text
  pub token : Text
  pub last : ℕ
  pub applies : o.apply ≡ true
  pub names_token : o.preview_token ≡ some token
  pub was_previewed : In (previewed o.grace_days eligible last before token) log
  pub is_unchanged : detached_document_purge_scope before s ≡ (eligible, last)
  pub is_counted : o.confirm_purge ≡ some eligible
  pub keeps_live : t.documents ≡ live_of before s
  pub purges_all : gone ≡ eligible

same_number-eq : (a b : Option ℕ) → same_number a b ≡ true → a ≡ b
unfolding same_number
same_number-eq none none h = refl
same_number-eq none (some n) h = cc
same_number-eq (some m) none h = cc
same_number-eq (some m) (some n) h = ground arith

is_preview-previewed :
    (token t before : Text) (grace : Option ℕ) (eligible last : ℕ)
    → is_preview token (previewed grace eligible last before t) ≡ true
    → t ≡ token
unfolding is_preview
is_preview-previewed token t before grace eligible last h = eq_of_text_eq t token h

-- What the report says of the run of the loop.
report-keeps :
    (before : Text) (s t : Store) (e eligible gone : ℕ) (r : Purging)
    → purge_report e r ≡ report_applied t eligible gone
    → IsPurged before 0 s r
    → e ≡ length (filter (is_expired before) s.documents)
    → (t.documents ≡ live_of before s) × (eligible ≡ e) × (gone ≡ e)
unfolding purge_report live_of
report-keeps before s t e eligible gone out_of_fuel h p c = cc
report-keeps before s t e eligible gone (failed u) h p c = cc
report-keeps before s t e eligible gone (finished u n) h p c =
    let same : (u ≡ t) × (e ≡ eligible) × (n ≡ gone) = ground arith in
    let docs : u.documents ≡ t.documents = ap (λ (x : Store). x.documents) same.0 in
    (
      sym docs ∙ p.0,
      sym same.1,
      omega (arith, c, same.2, p.1, ap length p.0, count_lem (is_expired before) s.documents),
    )

scope_count :
    (before : Text) (s : Store)
    → (detached_document_purge_scope before s).0 ≡ length (filter (is_expired before) s.documents)
unfolding detached_document_purge_scope
scope_count before s = refl

module _ (now uuid : Text) (o : Options) (log : List Audit) (s t : Store) (eligible gone : ℕ) where
  -- The guards that a confirmed preview has passed.
  guards_passed :
      (grace : Option ℕ) (e max : ℕ) (before u : Text)
      → confirm_preview now o (some (previewed grace e max before u)) s
        ≡ report_applied t eligible gone
      → (same_number grace o.grace_days ≡ true)
        × ((detached_document_purge_scope before s).0 ≡ e)
        × ((detached_document_purge_scope before s).1 ≡ max)
        × (same_number o.confirm_purge (some (detached_document_purge_scope before s).0) ≡ true)
        × (purge_scope now before (detached_document_purge_scope before s).1 s
            ≡ report_applied t eligible gone)
  unfolding confirm_preview
  guards_passed grace e max before u h =
      (ground arith, ground arith, ground arith, ground arith, ground arith)

  preview-IsConfirmed :
      (token : Text) (a : Audit)
      → All (λ d. 0 < d.id) s.documents
      → o.apply ≡ true
      → o.preview_token ≡ some token
      → In a log
      → is_preview token a ≡ true
      → confirm_preview now o (some a) s ≡ report_applied t eligible gone
      → IsConfirmed o log s t eligible gone
  unfolding purge_scope confirm_preview
  preview-IsConfirmed token (confirmation_refused e c) pos on nt m p h = cc
  preview-IsConfirmed token (applied e c) pos on nt m p h = cc
  preview-IsConfirmed token (previewed grace e max before u) pos on nt m p h =
      let (g, se, sm, c, r) = guards_passed grace e max before u h in
      let (live, same, all_gone) =
        report-keeps before s t _ eligible gone _ r (purge_loop-IsPurged now before s pos)
          (scope_count before s) in
      let ee : e ≡ eligible = cc in
      let gg : grace ≡ o.grace_days = same_number-eq grace o.grace_days g in
      let same_token : u ≡ token = is_preview-previewed token u before grace e max p in
      let logged : previewed grace e max before u
          ≡ previewed o.grace_days eligible max before token =
        cc in
      record {
        before = before;
        token = token;
        last = max;
        applies = on;
        names_token = nt;
        was_previewed = subst (λ a. In a log) logged m;
        is_unchanged = ground (arith, se, sm, ee);
        is_counted = same_number-eq o.confirm_purge _ c ∙ ap some (sym same);
        keeps_live = live;
        purges_all = all_gone ∙ sym same;
      }

  found-IsConfirmed :
      (token : Text)
      → All (λ d. 0 < d.id) s.documents
      → o.apply ≡ true
      → o.preview_token ≡ some token
      → (a : Option Audit) → read_purge_preview token log ≡ a
      → confirm_preview now o a s ≡ report_applied t eligible gone
      → IsConfirmed o log s t eligible gone
  unfolding confirm_preview
  found-IsConfirmed token pos on nt none e h = cc
  found-IsConfirmed token pos on nt (some a) e h =
      let (m, p) = read_purge_preview-In token log a e in
      preview-IsConfirmed token a pos on nt m p h

  token-IsConfirmed :
      All (λ d. 0 < d.id) s.documents
      → o.apply ≡ true
      → (token : Option Text) → o.preview_token ≡ token
      → confirm_preview now o (preview_of token log) s ≡ report_applied t eligible gone
      → IsConfirmed o log s t eligible gone
  unfolding preview_of confirm_preview
  token-IsConfirmed pos on none nt h = cc
  token-IsConfirmed pos on (some token) nt h =
      found-IsConfirmed token pos on nt (read_purge_preview token log) refl h

  -- Where a purge reports that it was applied, on a store whose ids are positive, the options applied
  -- it with the token of a preview that stands in the audit log for the same grace, the eligible
  -- documents and their last id are still those of the preview, the caller confirmed their number,
  -- and exactly the documents that are eligible by the time of the preview are gone.
  pub vault_purge_detached-IsConfirmed :
      All (λ d. 0 < d.id) s.documents
      → vault_purge_detached now uuid o log s ≡ report_applied t eligible gone
      → IsConfirmed o log s t eligible gone
  unfolding vault_purge_detached
  vault_purge_detached-IsConfirmed pos h =
      token-IsConfirmed pos (ground arith) o.preview_token refl (ground arith)
