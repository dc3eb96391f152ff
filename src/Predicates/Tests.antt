-- ===== src/Predicates/Tests.antt =====
-- src/predicates.js on a small registry: runs, and the theorems at inputs that meet their hypotheses.
use kb_graph.Base.{
  true, false, [], ◌∷◌, none, codes, text_eq, ◌≡◌, refl, sym, subst, filter, any, lookup, put,
  put_all, fold_runs, strip_underscores, drop_while, drop_end, trim, is_space, to_lower, keep_end,
  text_dec, starts_with, strip_underscores,
}
use kb_graph.Predicates.Spelling.{
  raw_pred, strip_prefix, lemma_key, stem, inflection_of, cut_underscore, ends_with, drop_last,
  test_at, doubled, is_vowel, is_quote, pred_separator,
}
use kb_graph.Predicates.Registry.{
  Config, Source, Triple, canonical_predicate, canonical_raw, canonical_by_lemma, add_lemmas,
  add_lemma, hold_lemma, predicate_aliases, configured_aliases, configured_inverses, resolve_alias,
  single_valued, vocabulary_names, without_chains, has, predicate_inverses, allowed_inverse,
  canonical_triple, fold_direction, fold_roles, is_swapped, work_item_object,
}
use kb_graph.Predicates.Registry.Aliases.{resolve_alias_idem}
use kb_graph.Predicates.Registry.Inverses.{predicate_inverses_safe}
use kb_graph.Predicates.Registry.Triples.{canonical_triple_idem}

-- The runs' definitions, under one name.
predicates : Unit {0}
unfolding raw_pred strip_prefix lemma_key stem inflection_of cut_underscore ends_with drop_last
    test_at doubled is_vowel is_quote pred_separator canonical_predicate canonical_raw
    canonical_by_lemma add_lemmas add_lemma hold_lemma predicate_aliases configured_aliases
    configured_inverses resolve_alias single_valued vocabulary_names without_chains has
    predicate_inverses allowed_inverse canonical_triple fold_direction fold_roles is_swapped
    work_item_object lookup put put_all filter any fold_runs strip_underscores drop_while drop_end
    trim is_space to_lower keep_end text_dec starts_with
predicates = tt

abbrev registry : Source
registry = record {
  vocabulary = codes "uses" ∷ codes "runs_on" ∷ codes "ships" ∷ [];
  preferred = [];
  aliases = (codes "utilizes", codes "uses") ∷ [];
  inverses = (codes "used_by", codes "uses") ∷ [];
  single_valued = codes "owner" ∷ [];
  many_valued = [];
  work_item_object = codes "tracked_in" ∷ [];
}

abbrev small_config : Config
small_config = record {
  builtin = registry;
  override = record registry {
    vocabulary = [];
    aliases = [];
    inverses = [];
    single_valued = [];
    work_item_object = [];
  };
  is_work_item = λ t. text_eq t (codes "GW-1");
  names_work_item = λ t. text_eq t (codes "GW-1");
  single_entity = λ t. true;
}

abbrev inverse_triple : Triple
inverse_triple = record { subject = codes "db"; predicate = codes "Used By"; object = codes "api" }

abbrev owner_triple : Triple
owner_triple = record { subject = codes "api"; predicate = codes "owner"; object = codes "ops" }

canonical_predicate_runs :
    (canonical_predicate small_config (codes "Utilizes") ≡ codes "uses")
    × (canonical_predicate small_config (codes "shipped") ≡ codes "ships")
    × (canonical_predicate small_config (codes "was owned by") ≡ codes "owned_by")
unfolding predicates
canonical_predicate_runs = (refl, refl, refl)

canonical_triple_runs :
    canonical_triple small_config inverse_triple
    ≡ record { subject = codes "api"; predicate = codes "uses"; object = codes "db" }
unfolding predicates
canonical_triple_runs = refl

resolve_alias_idem_example :
    resolve_alias small_config (resolve_alias small_config (codes "utilizes"))
    ≡ resolve_alias small_config (codes "utilizes")
resolve_alias_idem_example = resolve_alias_idem small_config (codes "utilizes")

predicate_inverses_safe_example :
    (has (single_valued small_config) (codes "used_by") ≡ false)
    × (has (single_valued small_config) (codes "uses") ≡ false)
    × (lookup (codes "uses") (predicate_inverses small_config) ≡ none)
unfolding predicates
predicate_inverses_safe_example =
    predicate_inverses_safe small_config (codes "used_by") (codes "uses") refl

uses_settled : canonical_predicate small_config (codes "uses") ≡ codes "uses"
unfolding predicates
uses_settled = refl

inverse_triple_settled :
    canonical_predicate small_config (canonical_triple small_config inverse_triple).predicate
    ≡ (canonical_triple small_config inverse_triple).predicate
inverse_triple_settled =
    subst (λ (t : Triple). canonical_predicate small_config t.predicate ≡ t.predicate)
      (sym canonical_triple_runs) uses_settled

canonical_triple_idem_example :
    canonical_triple small_config (canonical_triple small_config inverse_triple)
    ≡ canonical_triple small_config inverse_triple
canonical_triple_idem_example =
    canonical_triple_idem small_config inverse_triple (λ x h. h) inverse_triple_settled
