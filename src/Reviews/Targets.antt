-- ===== src/Reviews/Targets.antt =====
-- src/fact-reviews.js: what holds of the decisions of an accepted review.
use kb_graph.Base.{
  ℕ, Bool, true, false, List, [], ◌∷◌, Option, none, some, Text, map, Dict, lookup, ◌≡◌, refl, ◌⊎◌,
  ◌↔◌, In, arith,
}
use kb_graph.Predicates.Registry.Aliases.{In-of_lookup-put_all}
use kb_graph.Reviews.Items.{
  Disposition, Item, Decision, Checked, ok, refused, trimmed, decide, with_reason, with_target,
  with_disposition, normalize_item, clean_optional, clean_optional_id, disposition_of, is_targeted,
  is_current, is_abstain, wants_reason, is_given, is_text, is_target_current, decisions_by_id,
  check_targets, insert_decision, sort_decisions,
}

module _ (locale_le : Text → Text → Bool) where
  In-insert_decision :
      (a d : Decision) (ds : List Decision)
      → In a (insert_decision locale_le d ds) ↔ ((a ≡ d) ⊎ In a ds)
  unfolding insert_decision
  In-insert_decision a d [] = ground arith
  In-insert_decision a d (e ∷ ds) = ground (arith, In-insert_decision a d ds)

  pub In-sort_decisions :
      (a : Decision) (ds : List Decision) → In a (sort_decisions locale_le ds) ↔ In a ds
  unfolding sort_decisions
  In-sort_decisions a [] = ground arith
  In-sort_decisions a (d ∷ ds) =
      ground (arith, In-insert_decision a d (sort_decisions locale_le ds), In-sort_decisions a ds)

pub check_targets_all :
    (by_id : Dict Decision) (d : Decision) (ds : List Decision)
    → check_targets by_id ds ≡ none
    → In d ds
    → is_target_current by_id d ≡ true
unfolding check_targets
check_targets_all by_id d [] h m = elim m [ ]
check_targets_all by_id d (e ∷ ds) h m = ground (arith, check_targets_all by_id d ds)

In-entries :
    (t : Text) (e : Decision) (ds : List Decision)
    → In {A = Text × Decision} (t, e) (map (λ d. (d.fact_id, d)) ds)
    → In e ds × (e.fact_id ≡ t)
In-entries t e [] h = elim h [ ]
In-entries t e (d ∷ ds) h = ground (arith, In-entries t e ds)

lookup-decisions_by_id :
    (ds : List Decision) (t : Text) (e : Decision)
    → lookup t (decisions_by_id ds) ≡ some e
    → In e ds × (e.fact_id ≡ t)
unfolding decisions_by_id lookup
lookup-decisions_by_id ds t e h =
    ground (arith, In-of_lookup-put_all (map (λ d. (d.fact_id, d)) ds) [] t e h, In-entries t e ds)

pub target_of :
    (ds : List Decision) (d : Decision) (t : Text)
    → is_target_current (decisions_by_id ds) d ≡ true
    → d.target_fact_id ≡ some t
    → (e : Decision) × In e ds × (e.fact_id ≡ t) × (is_current e.disposition ≡ true)
unfolding is_target_current
target_of ds d t h k = go (lookup t (decisions_by_id ds)) refl
  where
    go :
        (o : Option Decision)
        → lookup t (decisions_by_id ds) ≡ o
        → (e : Decision) × In e ds × (e.fact_id ≡ t) × (is_current e.disposition ≡ true)
    go none p = absurd (ground arith)
    go (some e) p =
        let found = lookup-decisions_by_id ds t e p in (e, found.0, found.1, ground arith)

-- What is checked of a decision by itself.
abbrev pub IsWellFormed : Decision → Type 0
IsWellFormed d =
    (is_given d.target_fact_id ≡ is_targeted d.disposition)
    × (is_text d.target_fact_id d.fact_id ≡ false)
    × (wants_reason d.disposition ≡ true → is_given d.reason ≡ true)
    × (is_abstain d.disposition ≡ false → is_given d.evidence_ref ≡ true)

decide-IsWellFormed :
    (source : Option Text) (ix : ℕ) (id : Text) (disposition : Disposition)
    (target reason : Option Text) (d : Decision)
    → decide source ix id disposition target reason ≡ ok d
    → IsWellFormed d × (d.fact_id ≡ id)
unfolding decide
decide-IsWellFormed source ix id disposition target reason d h = ground arith

with_reason-IsWellFormed :
    (source : Option Text) (ix : ℕ) (id : Text) (disposition : Disposition) (target : Option Text)
    (reason : Checked (Option Text)) (d : Decision)
    → with_reason source ix id disposition target reason ≡ ok d
    → IsWellFormed d × (d.fact_id ≡ id)
unfolding with_reason
with_reason-IsWellFormed source ix id disposition target (refused e) d h = cc
with_reason-IsWellFormed source ix id disposition target (ok reason) d h =
    decide-IsWellFormed source ix id disposition target reason d h

with_target-IsWellFormed :
    (source : Option Text) (ix : ℕ) (item : Item) (disposition : Disposition)
    (target : Checked (Option Text)) (d : Decision)
    → with_target source ix item disposition target ≡ ok d
    → IsWellFormed d × (d.fact_id ≡ trimmed item.fact_id)
unfolding with_target
with_target-IsWellFormed source ix item disposition (refused e) d h = cc
with_target-IsWellFormed source ix item disposition (ok target) d h =
    with_reason-IsWellFormed source ix (trimmed item.fact_id) disposition target
      (clean_optional ix 1000 item.reason) d h

with_disposition-IsWellFormed :
    (source : Option Text) (ix : ℕ) (item : Item) (disposition : Option Disposition) (d : Decision)
    → with_disposition source ix item disposition ≡ ok d
    → IsWellFormed d × (d.fact_id ≡ trimmed item.fact_id)
unfolding with_disposition
with_disposition-IsWellFormed source ix item none d h = cc
with_disposition-IsWellFormed source ix item (some disposition) d h =
    with_target-IsWellFormed source ix item disposition (clean_optional_id ix item.target_fact_id) d
      h

pub normalize_item-IsWellFormed :
    (source : Option Text) (ix : ℕ) (item : Item) (extra : List Text) (d : Decision)
    → normalize_item source ix item extra ≡ ok d
    → IsWellFormed d × (d.fact_id ≡ trimmed item.fact_id)
unfolding normalize_item
normalize_item-IsWellFormed source ix item [] d h =
    with_disposition-IsWellFormed source ix item (disposition_of (trimmed item.disposition)) d h
normalize_item-IsWellFormed source ix item (key ∷ extra) d h = cc
