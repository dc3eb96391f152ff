-- ===== src/Predicates/Registry.antt =====
-- src/predicates.js: the maps that the built-in registry and an install's override make, and the
-- folds over them. The two configured patterns come as tests on a text.
pub mod Aliases
pub mod Inverses
pub mod Triples
use kb_graph.Base.{
  ℕ, Bool, true, false, not, ◌&&◌, ◌||◌, List, [], ◌∷◌, ◌++◌, map, Option, none, some,
  if◌then◌else◌, filter, any, Dict, lookup, put, put_all, Text, text_eq, trim,
}
use kb_graph.Predicates.Spelling.{raw_pred, lemma_key}

-- One `predicates.json`; a missing key is an empty list.
pub record Source : Type 0 where
  pub vocabulary : List Text
  pub preferred : List Text
  pub aliases : Dict Text
  pub inverses : Dict Text
  pub single_valued : List Text
  pub many_valued : List Text
  pub work_item_object : List Text

pub record Config : Type 0 where
  pub builtin : Source
  pub override : Source
  pub is_work_item : Text → Bool
  pub names_work_item : Text → Bool
  pub single_entity : Text → Bool

-- `new Set(l).has(t)`
unfoldable pub has : List Text → Text → Bool
has l t = any (λ x. text_eq x t) l

abbrev pub keys : Dict Text → List Text
keys = map (λ e. e.0)

abbrev pub values : Dict Text → List Text
values = map (λ e. e.1)

unfoldable pub without_chains : Dict Text → Dict Text
without_chains entries = filter (λ e. not (has (keys entries) e.1)) entries

-- `{ ...builtin?.x, ...override?.x }`
abbrev pub merged : Dict Text → Dict Text → Dict Text
merged a b = put_all b (put_all a [])

abbrev pub from_entries : Dict Text → Dict Text
from_entries es = put_all es []

abbrev pub get_or_self : Option Text → Text → Text
get_or_self none p = p
get_or_self (some v) p = v

module _ (c : Config) where
  unfoldable pub configured_aliases : Dict Text
  configured_aliases = merged c.builtin.aliases c.override.aliases

  unfoldable pub configured_inverses : Dict Text
  configured_inverses = merged c.builtin.inverses c.override.inverses

  unfoldable pub vocabulary_names : List Text
  vocabulary_names =
      (c.builtin.vocabulary ++ c.builtin.preferred)
      ++ (c.override.vocabulary ++ c.override.preferred)

  unfoldable pub predicate_aliases : Dict Text
  predicate_aliases =
      from_entries (without_chains (map (λ e. (raw_pred e.0, raw_pred e.1)) configured_aliases))

  unfoldable pub resolve_alias : Text → Text
  resolve_alias p = get_or_self (lookup p predicate_aliases) p

  unfoldable pub single_valued : List Text
  single_valued =
      filter (λ p. not (has (map (λ q. resolve_alias (raw_pred q)) c.override.many_valued) p))
        (map (λ q. resolve_alias (raw_pred q))
          (c.builtin.single_valued ++ c.override.single_valued))

  -- One name more; `none` marks a key that two canonical names claim.
  unfoldable pub hold_lemma :
      Text → Option (Option Text) → Text → Dict (Option Text) → Dict (Option Text)
  hold_lemma key none canonical m = put key (some canonical) m
  hold_lemma key (some none) canonical m = put key none m
  hold_lemma key (some (some held)) canonical m =
      if text_eq held canonical then m else put key none m

  unfoldable pub add_lemma : Text → Dict (Option Text) → Dict (Option Text)
  add_lemma name m =
      if has single_valued name
      then m
      else hold_lemma (lemma_key name) (lookup (lemma_key name) m) (resolve_alias name) m

  unfoldable pub add_lemmas : List Text → Dict (Option Text) → Dict (Option Text)
  add_lemmas [] m = m
  add_lemmas (name ∷ names) m = add_lemmas names (add_lemma name m)

  unfoldable pub canonical_by_lemma : Dict (Option Text)
  canonical_by_lemma =
      add_lemmas
        (map raw_pred (
          vocabulary_names
          ++ (keys predicate_aliases
              ++ (values configured_aliases
                  ++ (values configured_inverses
                      ++ (c.builtin.work_item_object ++ c.override.work_item_object))))))
        []

  unfoldable pub canonical_raw : Text → Text
  canonical_raw raw = elim (lookup raw predicate_aliases) [
    | some v ↦ v
    | none ↦ elim (lookup (lemma_key raw) canonical_by_lemma) [ some (some v) ↦ v | _ ↦ raw ]
  ]

  unfoldable pub canonical_predicate : Text → Text
  canonical_predicate p = canonical_raw (raw_pred p)

  -- Neither end of an inverse may be single-valued.
  unfoldable pub allowed_inverse : Text × Text → Bool
  allowed_inverse e = not (has single_valued e.0) && not (has single_valued e.1)

  unfoldable pub predicate_inverses : Dict Text
  predicate_inverses = from_entries (
      without_chains (
        filter allowed_inverse
          (map (λ e. (canonical_predicate e.0, canonical_predicate e.1)) configured_inverses)))

  unfoldable pub inverse_target_of : Text → Option Text
  inverse_target_of p = lookup (canonical_predicate p) predicate_inverses

  unfoldable pub work_item_object : List Text
  work_item_object =
      map canonical_predicate (c.builtin.work_item_object ++ c.override.work_item_object)

  unfoldable pub vocabulary : List Text
  vocabulary =
      filter (λ p. not (has (keys predicate_inverses) p))
        (map canonical_predicate (
          vocabulary_names
          ++ ((c.builtin.single_valued ++ c.override.single_valued)
              ++ ((c.builtin.work_item_object ++ c.override.work_item_object)
                  ++ (values configured_aliases ++ values configured_inverses)))))

  unfoldable pub in_vocabulary : Text → Bool
  in_vocabulary p = has vocabulary (canonical_predicate p)

pub record Triple : Type 0 where
  pub subject : Text
  pub predicate : Text
  pub object : Text

module _ (c : Config) where
  unfoldable pub retires_on_contradiction : Triple → Bool
  retires_on_contradiction f = has (single_valued c) f.predicate && c.single_entity (trim f.subject)

  -- An empty target is no target.
  unfoldable pub fold_direction : Triple → Option Text → Text → Triple
  fold_direction f none pred = record f { predicate = pred }
  fold_direction f (some []) pred = record f { predicate = pred }
  fold_direction f (some (i ∷ inverse)) pred = record {
    subject = f.object;
    predicate = i ∷ inverse;
    object = f.subject;
  }

  unfoldable pub is_swapped : Triple → Bool
  is_swapped t =
      has (work_item_object c) t.predicate
      && (c.is_work_item (trim t.subject) && not (c.names_work_item (trim t.object)))

  unfoldable pub fold_roles : Triple → Triple
  fold_roles t = if is_swapped t then record t { subject = t.object; object = t.subject } else t

  unfoldable pub canonical_triple : Triple → Triple
  canonical_triple f =
      let pred = canonical_predicate c f.predicate in
      fold_roles (fold_direction f (lookup pred (predicate_inverses c)) pred)
