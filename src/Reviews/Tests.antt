-- ===== src/Reviews/Tests.antt =====
-- src/fact-reviews.js on a small review: the theorems at inputs that meet their hypotheses.
use kb_graph.Base.{
  Bool, true, List, [], ◌∷◌, none, some, Text, codes, ◌≡◌, refl, In, inl, inr, trim, drop_while,
  drop_end, is_space, text_dec, lookup, put, put_all, filter, any, keep_end,
}
use kb_graph.Facts.Graph.{Fact}
use kb_graph.Reviews.Items.{
  current, synonym, Item, Decision, ok, text, absent, trimmed, non_empty, at_most, clean_optional,
  clean_optional_id, disposition_of, source_of, decide, with_reason, with_target, with_disposition,
  normalize_item, prepend, facts_by_id, normalize_each, duplicates, unknown_id, unknowns, missing,
  is_target_current, decisions_by_id, check_targets, decision_le, insert_decision, sort_decisions,
  checked_targets, with_decisions, covered, normalize_review_items,
}
use kb_graph.Reviews.Coverage.{normalize_review_items_covers}
use kb_graph.Reviews.State.{Review}

-- The runs' definitions, under one name.
review : Unit {0}
unfolding trimmed non_empty at_most clean_optional clean_optional_id disposition_of source_of decide
    with_reason with_target with_disposition normalize_item prepend facts_by_id normalize_each
    duplicates unknown_id unknowns missing is_target_current decisions_by_id check_targets
    decision_le insert_decision sort_decisions checked_targets with_decisions covered
    normalize_review_items trim drop_while drop_end is_space text_dec lookup put put_all filter any
    keep_end
review = tt

abbrev before : Text → Text → Bool
before = λ a b. true

abbrev fact_of : Text → Text → Fact
fact_of id object = record {
  id = id;
  subject = codes "api";
  predicate = codes "uses";
  object = object;
  valid_from = none;
  valid_to = none;
  source = some (codes "s");
  created_at = codes "2025";
}

abbrev live_facts : List Fact
live_facts = fact_of (codes "f1") (codes "db") ∷ fact_of (codes "f2") (codes "database") ∷ []

abbrev small_items : List Item
small_items =
    record {
      fact_id = text (codes "f2");
      disposition = text (codes "synonym");
      target_fact_id = text (codes "f1");
      reason = absent;
      extra = [];
    }
    ∷ record {
      fact_id = text (codes " f1");
      disposition = text (codes "current");
      target_fact_id = absent;
      reason = absent;
      extra = [];
    }
    ∷ []

abbrev kept : Decision
kept = record {
  fact_id = codes "f1";
  disposition = current;
  target_fact_id = none;
  evidence_ref = some (codes "s");
  reason = none;
}

abbrev folded_away : Decision
folded_away = record kept {
  fact_id = codes "f2";
  disposition = synonym;
  target_fact_id = some (codes "f1");
}

small_review : normalize_review_items before small_items live_facts ≡ ok (kept ∷ folded_away ∷ [])
unfolding review
small_review = refl

normalize_review_items_covers_example :
    (e : Decision) × In e (kept ∷ folded_away ∷ [])
    × (e.fact_id ≡ codes "f2")
    × ((d : Decision) → In d (kept ∷ folded_away ∷ []) → d.fact_id ≡ codes "f2" → d ≡ e)
normalize_review_items_covers_example =
    normalize_review_items_covers before small_items live_facts (kept ∷ folded_away ∷ [])
      (fact_of (codes "f2") (codes "database")) small_review (inr (inl refl))

abbrev small_row : Review
small_row = record {
  id = 1;
  reviewed_at = codes "2025";
  reviewer = codes "ana";
  policy = codes "manual-review-v1";
  note = none;
  fact_count = 2;
}
