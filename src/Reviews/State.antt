-- ===== src/Reviews/State.antt =====
-- src/fact-reviews.js: buildReviewState, what the latest review of a group says of its live facts.
use kb_graph.Base.{
  ℕ, Bool, true, false, not, ◌==◌, List, [], ◌∷◌, Option, none, some, if◌then◌else◌, Text, text_eq,
  map, filter, length, lookup, any, ◌≡◌, refl, arith, All,
}
use kb_graph.Facts.Graph.{Fact}
use kb_graph.Reviews.Items.{Decision, is_current, is_abstain, facts_by_id}

-- A row of the table of reviews.
pub record Review : Type 0 where
  pub id : ℕ
  pub reviewed_at : Text
  pub reviewer : Text
  pub policy : Text
  pub note : Option Text
  pub fact_count : ℕ

-- A state that is not `available` withholds its projection.
pub data State : Type 0 where
  unadjudicated : State
  stale : Review → List Decision → List Text → List Text → Bool → State
  abstained : Review → List Decision → State
  available : Review → List Decision → List (Option Fact) → State

abbrev pub is_reviewed : List Decision → Fact → Bool
is_reviewed items f = any (λ d. text_eq d.fact_id f.id) items

abbrev pub is_of_live : List Fact → Decision → Bool
is_of_live facts d = any (λ f. text_eq f.id d.fact_id) facts

unfoldable pub added_since : List Fact → List Decision → List Text
added_since facts items = map (λ f. f.id) (filter (λ f. not (is_reviewed items f)) facts)

unfoldable pub removed_since : List Fact → List Decision → List Text
removed_since facts items = map (λ d. d.fact_id) (filter (λ d. not (is_of_live facts d)) items)

unfoldable pub current_facts_of : List Fact → List Decision → List (Option Fact)
current_facts_of facts items =
    map (λ d. lookup d.fact_id (facts_by_id facts)) (filter (λ d. is_current d.disposition) items)

unfoldable pub settled_state : List Fact → Review → List Decision → State
settled_state facts review items =
    if any (λ d. is_abstain d.disposition) items
    then abstained review items
    else available review items (current_facts_of facts items)

unfoldable pub drifted_state :
    List Fact → Review → List Decision → List Text → List Text → Bool → State
drifted_state facts review items [] [] false = settled_state facts review items
drifted_state facts review items added removed incomplete =
    stale review items added removed incomplete

unfoldable pub build_review_state : List Fact → Option Review → List Decision → State
build_review_state facts none items = unadjudicated
build_review_state facts (some review) items =
    drifted_state facts review items (added_since facts items) (removed_since facts items)
      (not (length items == review.fact_count))

abbrev is_available : State → Bool
is_available (available review items shown) = true
is_available _ = false

drifted_parts :
    (facts : List Fact) (review : Review) (items : List Decision) (a r : List Text) (b : Bool)
    → is_available (drifted_state facts review items a r b) ≡ true
    → (a ≡ []) × (r ≡ []) × (b ≡ false) × (any (λ d. is_abstain d.disposition) items ≡ false)
unfolding drifted_state settled_state
drifted_parts facts review items [] [] false h = (refl, refl, refl, ground arith)
drifted_parts facts review items [] [] true h = absurd (ground arith)
drifted_parts facts review items [] (x ∷ r) b h = absurd (ground arith)
drifted_parts facts review items (x ∷ a) r b h = absurd (ground arith)

all_reviewed :
    (facts : List Fact) (items : List Decision)
    → added_since facts items ≡ []
    → All (λ f. is_reviewed items f ≡ true) facts
unfolding added_since filter
all_reviewed [] items h = tt
all_reviewed (f ∷ facts) items h = ground (arith, all_reviewed facts items)

all_live :
    (facts : List Fact) (items : List Decision)
    → removed_since facts items ≡ []
    → All (λ d. is_of_live facts d ≡ true) items
unfolding removed_since filter
all_live facts [] h = tt
all_live facts (d ∷ items) h = ground (arith, all_live facts items)

-- The projection of a review is available only if every live fact has a decision, every decision is
-- about a live fact, the review has all its decisions, and none of them abstains.
pub build_review_state_available :
    (facts : List Fact) (review : Review) (items : List Decision)
    → is_available (build_review_state facts (some review) items) ≡ true
    → All (λ f. is_reviewed items f ≡ true) facts
      × All (λ d. is_of_live facts d ≡ true) items
      × (length items ≡ review.fact_count)
      × (any (λ d. is_abstain d.disposition) items ≡ false)
unfolding build_review_state
build_review_state_available facts review items h =
    let (a, r, b, n) =
      drifted_parts facts review items (added_since facts items) (removed_since facts items)
        (not (length items == review.fact_count)) h in
    (all_reviewed facts items a, all_live facts items r, ground arith, n)
