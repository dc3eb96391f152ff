-- ===== src/Facts/Tests.antt =====
-- src/facts.js on a small graph: runs, and the theorems at inputs that meet their hypotheses.
use kb_graph.Base.{
  ◌⊎◌, Bool, true, false, [], ◌∷◌, Option, none, some, if◌then◌else◌, Text, codes, text_eq, ◌≡◌,
  ◌≢◌, refl, filter, any, find, lookup, put, put_all, fold_runs, strip_underscores, drop_while,
  drop_end, trim, is_space, to_lower, keep_end, text_dec, All, In, length, inl, inr, starts_with,
  subst, ap,
}
use kb_graph.Predicates.Spelling.{
  raw_pred, strip_prefix, lemma_key, stem, inflection_of, cut_underscore, ends_with, drop_last,
  test_at, doubled, is_vowel, is_quote, pred_separator,
}
use kb_graph.Predicates.Registry.{
  Config, Source, canonical_predicate, canonical_raw, canonical_by_lemma, add_lemmas, add_lemma,
  hold_lemma, predicate_aliases, configured_aliases, configured_inverses, resolve_alias,
  single_valued, vocabulary_names, without_chains, has,
}
use kb_graph.Facts.Ids.{canonical_entity_id, folded, bare, separator, is_apostrophe}
use kb_graph.Facts.Dates.{or_null, ends_before_start, text_lt}
use kb_graph.Facts.Graph.{
  added, Graph, Fact, AddOptions, id_taken, already_exists, add_fact, add_row, insert_fact,
  with_entities, put_entity, new_fact, fact_id, entity_key, resolve_entity, has_entity, is_live,
  names_triple,
}
use kb_graph.Facts.Graph.Invariant.{IsSound}
use kb_graph.Facts.Graph.Add.{add_fact-IsSound}
use kb_graph.Facts.Graph.Again.{add_fact_again}
use kb_graph.Facts.Retire.{
  weak_predicate, invalidate_fact, max_start, close_row, close_rows, ended_before_valid_from,
}
use kb_graph.Facts.Retire.Triple.{
  named, invalidate_fact-IsSound, invalidate_fact_done, invalidate_fact_refused,
}
use kb_graph.Facts.Merge.{
  dedupe_live_facts, dedupe_key, selected, merge_entity, start_le, in_scope, dropped_ids, sort_rows,
  insert_row,
}
use kb_graph.Facts.Merge.Dedupe.{dedupe_unique, dedupe_keeps, dedupe_others}
use kb_graph.Facts.Merge.Aliases.{IsFlat, entity_key-merge_entity, merge_entity-IsFlat}
use kb_graph.Facts.Merge.Rows.{Avoids, merge_entity_forgets}
use kb_graph.Facts.Merge.Sound.{merge_entity-IsSound}
use kb_graph.Facts.Query.{is_qualified_form, number_qualifier, digit_runs}
use kb_graph.Facts.Query.Nearby.{Near}

-- The runs' definitions, under one name.
program : Unit {0}
unfolding canonical_entity_id folded bare separator is_apostrophe filter fold_runs strip_underscores
    drop_while drop_end trim is_space to_lower keep_end text_dec entity_key resolve_entity lookup
    any find is_live names_triple max_start close_rows close_row weak_predicate ends_before_start
    text_lt add_fact add_row insert_fact with_entities put_entity new_fact fact_id raw_pred
    strip_prefix canonical_predicate canonical_raw canonical_by_lemma add_lemmas add_lemma
    hold_lemma predicate_aliases configured_aliases configured_inverses resolve_alias single_valued
    vocabulary_names without_chains has lemma_key stem inflection_of cut_underscore ends_with
    drop_last test_at doubled is_vowel is_quote pred_separator put put_all starts_with in_scope
    dedupe_live_facts dropped_ids sort_rows insert_row start_le dedupe_key
program = tt

abbrev empty_source : Source
empty_source = record {
  vocabulary = [];
  preferred = [];
  aliases = [];
  inverses = [];
  single_valued = [];
  many_valued = [];
  work_item_object = [];
}

abbrev plain_config : Config
plain_config = record {
  builtin = empty_source;
  override = empty_source;
  is_work_item = λ t. false;
  names_work_item = λ t. false;
  single_entity = λ t. true;
}

abbrev row_of : Text → Text → Text → Fact
row_of id subject start = record {
  id = id;
  subject = subject;
  predicate = codes "uses";
  object = codes "db";
  valid_from = some start;
  valid_to = none;
  source = none;
  created_at = codes "2025";
}

abbrev new_row : Fact
new_row = row_of (codes "f1") (codes "service") (codes "2024")

abbrev old_row : Fact
old_row = row_of (codes "f2") (codes "old") (codes "2023")

abbrev small_graph : Graph
small_graph = record {
  entities =
      record { id = codes "service"; name = codes "service" }
      ∷ record { id = codes "old"; name = codes "old" }
      ∷ record { id = codes "db"; name = codes "db" }
      ∷ [];
  aliases = (codes "svc", codes "service") ∷ [];
  facts = new_row ∷ old_row ∷ [];
}

-- Two live rows of one triple, as a merge leaves them before the sweep, and a closed one.
abbrev closed_row : Fact
closed_row = record old_row { id = codes "f3"; valid_to = some (codes "2024") }

abbrev twin_graph : Graph
twin_graph = record small_graph {
  facts =
      new_row
      ∷ record new_row { id = codes "f4"; valid_from = some (codes "2025") }
      ∷ closed_row
      ∷ [];
}

abbrev options : AddOptions
options = record {
  valid_from = some (codes "2025");
  source = none;
  stamp = codes "k1";
  now = codes "2025";
}

small_graph-IsSound : IsSound small_graph
unfolding program
small_graph-IsSound = record {
  keyed = (refl, (refl, tt));
  unique = (λ h. refl, (λ h. refl, tt));
  dated = (tt, (tt, tt));
  ends = ((refl, refl), ((refl, refl), tt));
}

small_aliases-IsFlat : IsFlat small_graph.aliases
unfolding program
small_aliases-IsFlat = record { settled = λ a t h. settled a t (text_eq (codes "svc") a) h }
  where
    settled :
        (a t : Text) (b : Bool)
        → (if b then some (codes "service") else none) ≡ some t
        → (canonical_entity_id t ≡ t) × (lookup t small_graph.aliases ≡ none)
    settled a t true h =
        subst (λ x. (canonical_entity_id x ≡ x) × (lookup x small_graph.aliases ≡ none))
          (ap (λ (o : Option Text). elim o [ none ↦ [] | some x ↦ x ]) h) (refl, refl)
    settled a t false h = cc

canonical_entity_id_runs :
    (canonical_entity_id (codes "V2/Contracts list") ≡ codes "v2_contracts_list")
    × (canonical_entity_id (codes "auth-service") ≡ codes "auth_service")
    × (canonical_entity_id (codes " .. ") ≡ codes "..")
unfolding program
canonical_entity_id_runs = (refl, refl, refl)

add_fact-IsSound_example :
    IsSound (add_fact plain_config small_graph (codes "svc") (codes "runs") (codes "New") options).0
add_fact-IsSound_example =
    add_fact-IsSound plain_config small_graph (codes "svc") (codes "runs") (codes "New") options
      small_graph-IsSound

not_taken :
    (id : Text)
    → (add_fact plain_config small_graph (codes "svc") (codes "runs") (codes "db") options).1
      ≢ id_taken id
unfolding program
not_taken id = λ h. cc

-- The graph with the fact added.
abbrev again_graph : Graph
again_graph =
    (add_fact plain_config small_graph (codes "svc") (codes "runs") (codes "db") options).0

add_fact_again_example :
    (f : Fact) × In f again_graph.facts
    × (is_live f ≡ true)
    × ((f.subject ≡ codes "service") × (f.predicate ≡ codes "runs") × (f.object ≡ codes "db"))
    × (((add_fact plain_config small_graph (codes "svc") (codes "runs") (codes "db") options).1
          ≡ added f)
        ⊎ ((add_fact plain_config small_graph (codes "svc") (codes "runs") (codes "db") options).1
            ≡ already_exists f.id))
    × (add_fact plain_config again_graph (codes " Service") (codes "runs") (codes "DB") options
        ≡ (again_graph, already_exists f.id))
unfolding program
add_fact_again_example =
    add_fact_again plain_config small_graph (codes "svc") (codes "runs") (codes "db") options
      (codes " Service") (codes "runs") (codes "DB") options not_taken refl refl refl

invalidate_fact-IsSound_example :
    IsSound
      (invalidate_fact small_graph (codes "svc") (codes "uses") (codes "db") none (codes "2025")).0
invalidate_fact-IsSound_example =
    invalidate_fact-IsSound small_graph (codes "svc") (codes "uses") (codes "db") none
      (codes "2025") small_graph-IsSound

invalidate_fact_done_example :
    (any
        (named small_graph (codes "svc") (codes "uses") (codes "db"))
        (invalidate_fact small_graph
          (codes "svc")
          (codes "uses")
          (codes "db")
          none
          (codes "2025")).0.facts
      ≡ false)
    × ((invalidate_fact small_graph
          (codes "svc")
          (codes "uses")
          (codes "db")
          none
          (codes "2025")).1.invalidated
        ≡ length (
            filter (named small_graph (codes "svc") (codes "uses") (codes "db")) small_graph.facts))
    × ((invalidate_fact small_graph
          (codes "svc")
          (codes "uses")
          (codes "db")
          none
          (codes "2025")).1.refused
        ≡ none)
unfolding program
invalidate_fact_done_example =
    invalidate_fact_done small_graph (codes "svc") (codes "uses") (codes "db") none (codes "2025")
      refl

invalidate_fact_refused_example :
    ((invalidate_fact small_graph
        (codes "svc")
        (codes "uses")
        (codes "db")
        (some (codes "2020"))
        (codes "2025")).0
      ≡ small_graph)
    × ((invalidate_fact small_graph
          (codes "svc")
          (codes "uses")
          (codes "db")
          (some (codes "2020"))
          (codes "2025")).1.invalidated
        ≡ 0)
    × ((invalidate_fact small_graph
          (codes "svc")
          (codes "uses")
          (codes "db")
          (some (codes "2020"))
          (codes "2025")).1.refused
        ≡ some (
            ended_before_valid_from (
              max_start
                (named small_graph (codes "svc") (codes "uses") (codes "db"))
                small_graph.facts)))
unfolding program
invalidate_fact_refused_example =
    invalidate_fact_refused small_graph (codes "svc") (codes "uses") (codes "db")
      (some (codes "2020")) (codes "2025") refl

dedupe_unique_example : codes "f1" ≡ codes "f1"
unfolding program
dedupe_unique_example =
    dedupe_unique plain_config twin_graph none new_row new_row (inl refl) (inl refl) refl refl refl

dedupe_keeps_example :
    (h : Fact) × In h (dedupe_live_facts plain_config twin_graph none).0.facts
    × (selected (or_null none) h ≡ true)
    × (dedupe_key plain_config h ≡ dedupe_key plain_config new_row)
    × (start_le h.valid_from new_row.valid_from ≡ true)
unfolding program
dedupe_keeps_example =
    dedupe_keeps plain_config twin_graph none new_row (refl, (refl, (refl, tt))) (inl refl) refl

dedupe_others_example : In closed_row (dedupe_live_facts plain_config twin_graph none).0.facts
unfolding program
dedupe_others_example =
    dedupe_others plain_config twin_graph none closed_row (refl, (refl, (refl, tt)))
      (inr (inr (inl refl))) refl

entity_key-merge_entity_example :
    entity_key
      (merge_entity plain_config small_graph (codes "svc") (codes "old")).0
      (codes "Service")
    ≡ (if text_eq (entity_key small_graph (codes "Service")) (entity_key small_graph (codes "svc"))
        then entity_key small_graph (codes "old")
        else entity_key small_graph (codes "Service"))
entity_key-merge_entity_example =
    entity_key-merge_entity plain_config small_graph (codes "svc") (codes "old") (codes "Service")
      small_aliases-IsFlat

merge_entity-IsFlat_example :
    IsFlat (merge_entity plain_config small_graph (codes "svc") (codes "old")).0.aliases
merge_entity-IsFlat_example =
    merge_entity-IsFlat plain_config small_graph (codes "svc") (codes "old") small_aliases-IsFlat

apart : entity_key small_graph (codes "svc") ≢ entity_key small_graph (codes "old")
unfolding program
apart = λ h. cc

merge_entity_forgets_example :
    All
      (Avoids (entity_key small_graph (codes "svc")))
      (merge_entity plain_config small_graph (codes "svc") (codes "old")).0.facts
    × (has_entity
          (merge_entity plain_config small_graph (codes "svc") (codes "old")).0.entities
          (entity_key small_graph (codes "svc"))
        ≡ false)
merge_entity_forgets_example =
    merge_entity_forgets plain_config small_graph (codes "svc") (codes "old") apart

merge_entity-IsSound_example :
    IsSound (merge_entity plain_config small_graph (codes "svc") (codes "old")).0
merge_entity-IsSound_example =
    merge_entity-IsSound plain_config small_graph (codes "svc") (codes "old") small_graph-IsSound

any_like : Text → Text → Bool
any_like pattern id = true

is_qualified_form_runs :
    (is_qualified_form (codes "auth_service_sandbox") (codes "auth_service") ≡ true)
    × (is_qualified_form (codes "pr_3583") (codes "pr") ≡ false)
    × (is_qualified_form (codes "issue_#12_3") (codes "issue") ≡ false)
unfolding is_qualified_form number_qualifier digit_runs text_dec starts_with
is_qualified_form_runs = (refl, refl, refl)

abbrev near_row : Near
near_row = record { id = codes "old"; name = codes "old"; facts = 1 }
