-- ===== src/Documents/Writing/Promotion.antt =====
-- src/db.js: what a promotion of a document rests on and what it does.
use kb_graph.Base.{
  ℕ, ◌<◌, true, false, leb, List, Option, none, some, Text, ◌≡◌, refl, sym, ap, subst, ◌∙◌, arith,
}
use kb_graph.Tiers.{text_of, tier_rank}
use kb_graph.Tiers.References.{normalize_ref}
use kb_graph.Tiers.Repos.{Host}
use kb_graph.Tiers.Claims.{Standing, Asserted, accepted, refused, assert_tier}
use kb_graph.Tiers.Claims.Warrant.{assert_tier-IsWarranted}
use kb_graph.Documents.Rows.{Document, Store, get_document, set_document, is_null}
use kb_graph.Documents.Writing.{
  promoted, promote_graded, promote_with, promote_found, promote_document_tier,
}
use kb_graph.Documents.Writing.Grounded.{IsSoundStore, set_document-IsSound, IsShown}

module _ (host : Host) (roots : List Text) (now : Text) (id : ℕ) (tier confirmed_by : Option Text)
    (s t : Store) where
  -- What a promotion rests on: a document that is attached, evidence in its stored form, a tier that a
  -- writer may assert on it, and one that is above the tier the document has.
  pub record IsPromotion : Type 0 where
    pub row : Document
    pub evidence : Text
    pub graded : Standing
    pub is_there : get_document id s ≡ some row
    pub is_attached : is_null row.detached_at ≡ true
    pub is_evidence : normalize_ref confirmed_by ≡ some evidence
    pub is_granted : assert_tier host tier (some evidence) none roots ≡ accepted graded
    pub is_raised : tier_rank (some (text_of row.tier)) < tier_rank (some (text_of graded.tier))
    pub is_written :
        t
        ≡ set_document id
            (λ r. record r { tier = graded.tier; tier_ref = graded.ref; tier_at = some now })
            s

  granted-IsPromotion :
      (d : Document) (evidence : Text)
      → get_document id s ≡ some d
      → is_null d.detached_at ≡ true
      → normalize_ref confirmed_by ≡ some evidence
      → (a : Asserted) → assert_tier host tier (some evidence) none roots ≡ a
      → promote_graded now id d a s ≡ promoted t
      → IsPromotion
  unfolding promote_graded
  granted-IsPromotion d evidence g n v (refused e) q h = cc
  granted-IsPromotion d evidence g n v (accepted graded) q h =
      let test : leb (tier_rank (some (text_of graded.tier))) (tier_rank (some (text_of d.tier)))
          ≡ false =
        ground arith in
      record {
        row = d;
        evidence = evidence;
        graded = graded;
        is_there = g;
        is_attached = n;
        is_evidence = v;
        is_granted = q;
        is_raised = ground arith;
        is_written = ground arith;
      }

  shown-IsPromotion :
      (d : Document)
      → get_document id s ≡ some d
      → is_null d.detached_at ≡ true
      → (e : Option Text) → normalize_ref confirmed_by ≡ e
      → promote_with host roots now id tier e d s ≡ promoted t
      → IsPromotion
  unfolding promote_with
  shown-IsPromotion d g n none v h = cc
  shown-IsPromotion d g n (some evidence) v h =
      granted-IsPromotion d evidence g n v (assert_tier host tier (some evidence) none roots) refl h

  found-IsPromotion :
      (o : Option Document)
      → get_document id s ≡ o
      → promote_found host roots now id tier confirmed_by o s ≡ promoted t
      → IsPromotion
  unfolding promote_found
  found-IsPromotion none g h = cc
  found-IsPromotion (some d) g h =
      shown-IsPromotion d g (ground arith) (normalize_ref confirmed_by) refl (ground arith)

  -- A promotion that writes rests on evidence that a writer may assert the tier with, raises the tier
  -- of a document that is attached, and writes that tier and nothing else.
  pub promote_document_tier-IsPromotion :
      promote_document_tier host roots now id tier confirmed_by s ≡ promoted t → IsPromotion
  unfolding promote_document_tier
  promote_document_tier-IsPromotion h = found-IsPromotion (get_document id s) refl h

asserted-IsShown :
    (host : Host) (roots : List Text) (tier ref : Option Text) (g : Standing)
    → assert_tier host tier ref none roots ≡ accepted g
    → IsShown g.tier g.ref
asserted-IsShown host roots tier ref g e h =
    let (w, q) = (assert_tier-IsWarranted host tier ref none roots g).0 e in
    let shown = w.is_shown (sym (ap (λ (x : Standing). x.tier) q) ∙ h) in
    rw (ap (λ (x : Standing). x.ref) q) shown.0

pub promote_document_tier-IsSound :
    (host : Host) (roots : List Text) (now : Text) (id : ℕ) (tier confirmed_by : Option Text)
    (s t : Store)
    → promote_document_tier host roots now id tier confirmed_by s ≡ promoted t
    → IsSoundStore s
    → IsSoundStore t
promote_document_tier-IsSound host roots now id tier confirmed_by s t e h =
    let p = promote_document_tier-IsPromotion host roots now id tier confirmed_by s t e in
    subst IsSoundStore (sym p.is_written) (
      set_document-IsSound id _ s
        (λ d x q. record {
          is_shown = asserted-IsShown host roots tier (some p.evidence) p.graded p.is_granted;
          not_itself = q.not_itself;
          is_positive = q.is_positive;
          is_issued = q.is_issued;
        })
        h)
