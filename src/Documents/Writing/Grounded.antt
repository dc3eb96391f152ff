-- ===== src/Documents/Writing/Grounded.antt =====
-- src/db.js: a document that is verified shows a reference, and none supersedes itself.
use kb_graph.Base.{
  ℕ, suc, ◌≤◌, ◌<◌, Bool, true, false, ◌==◌, List, [], ◌∷◌, Option, some, if◌then◌else◌, Text, ◌≡◌,
  refl, arith, All, All-append, All-map,
}
use kb_graph.Tiers.{Tier, verified, is_same}
use kb_graph.Tiers.References.{reference_in}
use kb_graph.Tiers.Claims.{is_given, resolve_tier}
use kb_graph.Documents.Rows.{Document, Store, update_where, has_id, set_document}
use kb_graph.Documents.Writing.{
  Fields, new_document, insert_document, rewritten, regraded, update_document, update_document_full,
}

-- A standing that is verified shows a reference, by its stored form.
abbrev pub IsShown : Tier → Option Text → Type 0
IsShown tier ref = tier ≡ verified → is_given (reference_in ref) ≡ true

-- A row is sound: what is verified is shown, it does not stand for itself, and its id was given.
pub record IsSound (last : ℕ) (d : Document) : Type 0 where
  pub is_shown : IsShown d.tier d.tier_ref
  pub not_itself : (r : ℕ) → d.superseded_by ≡ some r → (r == d.id) ≡ false
  pub is_positive : 0 < d.id
  pub is_issued : d.id ≤ last

abbrev pub IsSoundStore : Store → Type 0
IsSoundStore s = All (IsSound s.last_id) s.documents

pub resolve_tier-IsShown :
    (tier ref : Option Text) → IsShown (resolve_tier tier ref).tier (resolve_tier tier ref).ref
unfolding resolve_tier is_same
resolve_tier-IsShown tier ref h = ground arith

-- Rows that change keep a property that the change keeps.
pub All-update_where {ℓ κ} :
    {A : Type ℓ} (P : A → Type κ) (p : A → Bool) (f : A → A)
    → ((x : A) → p x ≡ true → P x → P (f x))
    → (xs : List A) → All P xs
    → All P (update_where p f xs)
unfolding update_where
All-update_where P p f k [] h = tt
All-update_where P p f k (x ∷ xs) (q, h) = (changed (p x) refl, All-update_where P p f k xs h)
  where
    changed : (b : Bool) → p x ≡ b → P (if b then f x else x)
    changed true e = k x e q
    changed false e = q

pub set_document-IsSound :
    (id : ℕ) (f : Document → Document) (s : Store)
    → ((d : Document) → d.id ≡ id → IsSound s.last_id d → IsSound s.last_id (f d))
    → IsSoundStore s
    → IsSoundStore (set_document id f s)
unfolding set_document has_id
set_document-IsSound id f s k h =
    All-update_where (IsSound s.last_id) (has_id id) f (λ d e q. k d (ground arith) q) s.documents h

issued_later : (last : ℕ) (d : Document) → IsSound last d → IsSound (suc last) d
issued_later last d h = record {
  is_shown = h.is_shown;
  not_itself = h.not_itself;
  is_positive = h.is_positive;
  is_issued = omega (arith, h.is_issued);
}

pub insert_document-IsSound :
    (now : Text) (f : Fields) (s : Store) → IsSoundStore s → IsSoundStore (insert_document now f s)
unfolding insert_document new_document
insert_document-IsSound now f s h =
    All-append (IsSound (suc s.last_id)) s.documents (new_document now (suc s.last_id) f ∷ [])
      (All-map (IsSound s.last_id) (IsSound (suc s.last_id)) s.documents (issued_later s.last_id) h)
      (
        record {
          is_shown = resolve_tier-IsShown f.tier f.tier_ref;
          not_itself = λ r e. cc;
          is_positive = omega arith;
          is_issued = omega arith;
        },
        tt,
      )

pub update_document-IsSound :
    (now : Text) (id : ℕ) (title : Text) (tags : Option Text) (s : Store)
    → IsSoundStore s
    → IsSoundStore (update_document now id title tags s)
unfolding update_document
update_document-IsSound now id title tags s h =
    set_document-IsSound id _ s
      (λ d e q. record {
        is_shown = q.is_shown;
        not_itself = q.not_itself;
        is_positive = q.is_positive;
        is_issued = q.is_issued;
      })
      h

pub update_document_full-IsSound :
    (now : Text) (id : ℕ) (f : Fields) (preserve : Bool) (s : Store)
    → IsSoundStore s
    → IsSoundStore (update_document_full now id f preserve s)
unfolding update_document_full rewritten regraded
update_document_full-IsSound now id f true s h =
    set_document-IsSound id _ s
      (λ d e q. record {
        is_shown = q.is_shown;
        not_itself = q.not_itself;
        is_positive = q.is_positive;
        is_issued = q.is_issued;
      })
      h
update_document_full-IsSound now id f false s h =
    set_document-IsSound id _ s
      (λ d e q. record {
        is_shown = resolve_tier-IsShown f.tier f.tier_ref;
        not_itself = q.not_itself;
        is_positive = q.is_positive;
        is_issued = q.is_issued;
      })
      h
