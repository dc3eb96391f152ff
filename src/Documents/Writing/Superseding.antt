-- ===== src/Documents/Writing/Superseding.antt =====
-- src/db.js: what superseding a document does.
use kb_graph.Base.{
  ℕ, Bool, true, false, ◌==◌, Option, none, some, if◌then◌else◌, Text, ◌≡◌, refl, subst, arith,
}
use kb_graph.Documents.Rows.{Store, get_document, is_null}
use kb_graph.Documents.Writing.{
  Superseded, unknown_document, with_itself, replacement_not_found, superseded, mark_superseded,
  clear_superseded, supersede_by, supersede_document,
}
use kb_graph.Documents.Writing.Grounded.{IsSoundStore, set_document-IsSound}

mark_superseded-IsSound :
    (now : Text) (id : ℕ) (o : Option ℕ) (reason : Option Text) (s : Store)
    → ((r : ℕ) → o ≡ some r → (r == id) ≡ false)
    → IsSoundStore s
    → IsSoundStore (mark_superseded now id o reason s)
unfolding mark_superseded
mark_superseded-IsSound now id o reason s k h =
    set_document-IsSound id _ s
      (λ d e q. record {
        is_shown = q.is_shown;
        not_itself = λ r x. ground (arith, k r x, e);
        is_positive = q.is_positive;
        is_issued = q.is_issued;
      })
      h

clear_superseded-IsSound :
    (id : ℕ) (s : Store) → IsSoundStore s → IsSoundStore (clear_superseded id s)
unfolding clear_superseded
clear_superseded-IsSound id s h =
    set_document-IsSound id _ s
      (λ d e q. record {
        is_shown = q.is_shown;
        not_itself = λ r x. cc;
        is_positive = q.is_positive;
        is_issued = q.is_issued;
      })
      h

-- What superseding leaves, where it writes at all.
abbrev Leaves : (Store → Type 0) → Superseded → Type 0
Leaves P unknown_document = Unit
Leaves P (with_itself id) = Unit
Leaves P (replacement_not_found r) = Unit
Leaves P (superseded t) = P t

supersede_by-IsSound :
    (now : Text) (id : ℕ) (o : Option ℕ) (reason : Option Text) (s : Store)
    → IsSoundStore s
    → Leaves IsSoundStore (supersede_by now id o reason s)
unfolding supersede_by
supersede_by-IsSound now id none reason s h =
    mark_superseded-IsSound now id none reason s (λ r e. cc) h
supersede_by-IsSound now id (some r) reason s h = go (r == id) refl (is_null (get_document r s))
  where
    go :
        (a : Bool)
        → (r == id) ≡ a
        → (b : Bool)
        → Leaves IsSoundStore (
            if a
            then with_itself id
            else if b
            then replacement_not_found r
            else superseded (mark_superseded now id (some r) reason s))
    go true e b = tt
    go false e true = tt
    go false e false =
        mark_superseded-IsSound now id (some r) reason s (λ k x. ground (arith, x, e)) h

supersede_document-Leaves :
    (now : Text) (id : ℕ) (o : Option ℕ) (reason : Option Text) (unset : Bool) (s : Store)
    → IsSoundStore s
    → Leaves IsSoundStore (supersede_document now id o reason unset s)
unfolding supersede_document
supersede_document-Leaves now id o reason unset s h = go (is_null (get_document id s)) unset
  where
    go :
        (a b : Bool)
        → Leaves IsSoundStore (
            if a
            then unknown_document
            else if b
            then superseded (clear_superseded id s)
            else supersede_by now id o reason s)
    go true b = tt
    go false true = clear_superseded-IsSound id s h
    go false false = supersede_by-IsSound now id o reason s h

pub supersede_document-IsSound :
    (now : Text) (id : ℕ) (o : Option ℕ) (reason : Option Text) (unset : Bool) (s t : Store)
    → supersede_document now id o reason unset s ≡ superseded t
    → IsSoundStore s
    → IsSoundStore t
supersede_document-IsSound now id o reason unset s t e h =
    subst (Leaves IsSoundStore) e (supersede_document-Leaves now id o reason unset s h)
