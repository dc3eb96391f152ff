-- ===== src/Facts/Merge/Aliases.antt =====
-- src/facts.js: after a merge, every name of the old entity leads to the new one.
use kb_graph.Base.{
  [], ◌∷◌, Option, none, some, if◌then◌else◌, Dict, lookup, put, lookup-put, Text, text_eq,
  text_dec, ◌≡◌, ◌≢◌, refl, ap, sym, ◌∙◌, arith,
}
use kb_graph.Predicates.Registry.{Config}
use kb_graph.Facts.Ids.{canonical_entity_id}
use kb_graph.Facts.Ids.Canonical.{canonical_entity_id_idem}
use kb_graph.Facts.Graph.{Graph, entity_key, resolve_entity, follow}
use kb_graph.Facts.Merge.{
  repoint, merged_tables, merge_ids, merge_entity, dedupe_live_facts, same_entity,
}

-- Every alias leads in one hop to a canonical id.
pub record IsFlat (m : Dict Text) : Type 0 where
  pub settled :
      (a t : Text) → lookup a m ≡ some t → (canonical_entity_id t ≡ t) × (lookup t m ≡ none)

abbrev redirect : Text → Text → Text → Text
redirect from to t = if text_eq t from then to else t

abbrev redirect_found : Text → Text → Option Text → Option Text
redirect_found from to none = none
redirect_found from to (some t) = some (redirect from to t)

lookup-repoint :
    (from to j : Text) (m : Dict Text)
    → lookup j (repoint from to m) ≡ redirect_found from to (lookup j m)
unfolding lookup repoint
lookup-repoint from to j [] = refl
lookup-repoint from to j ((a, t) ∷ m) = ground (arith, lookup-repoint from to j m)

-- A row key is canonical, and no alias.
key_settled :
    (g : Graph) (name : Text)
    → IsFlat g.aliases
    → (canonical_entity_id (entity_key g name) ≡ entity_key g name)
      × (lookup (entity_key g name) g.aliases ≡ none)
unfolding entity_key resolve_entity
key_settled g name h = go (lookup (canonical_entity_id name) g.aliases) refl
  where
    go :
        (o : Option Text)
        → lookup (canonical_entity_id name) g.aliases ≡ o
        → (canonical_entity_id (follow o (canonical_entity_id name))
            ≡ follow o (canonical_entity_id name))
          × (lookup (follow o (canonical_entity_id name)) g.aliases ≡ none)
    go none e = (canonical_entity_id_idem name, e)
    go (some t) e =
        let (fixed, free) = h.settled (canonical_entity_id name) t e in
        (ap canonical_entity_id fixed, rw fixed free)

module _ (m : Dict Text) (from to : Text) (flat : IsFlat m) (apart : from ≢ to)
    (target : canonical_entity_id to ≡ to) (source_free : lookup from m ≡ none)
    (target_free : lookup to m ≡ none) where
  lookup_merged :
      (j : Text)
      → lookup j (repoint from to (put from to m))
        ≡ (if text_eq from j then some to else redirect_found from to (lookup j m))
  lookup_merged j = lookup-repoint from to j (put from to m) ∙ rw lookup-put (ground arith)

  merged-IsFlat : IsFlat (repoint from to (put from to m))
  merged-IsFlat = record { settled = λ a t e. kept a t (sym (lookup_merged a) ∙ e) }
    where
      free :
          (t : Text)
          → lookup t m ≡ none
          → t ≢ from
          → lookup t (repoint from to (put from to m)) ≡ none
      free t h d = rw lookup_merged (rw h (ground arith))

      kept :
          (a t : Text)
          → (if text_eq from a then some to else redirect_found from to (lookup a m)) ≡ some t
          → (canonical_entity_id t ≡ t) × (lookup t (repoint from to (put from to m)) ≡ none)
      kept a t e = elim (text_dec from a) [
        | yes p ↦ at_target (ground arith)
        | no d ↦ old (lookup a m) refl (ground arith)
      ]
        where
          at_target :
              t ≡ to
              → (canonical_entity_id t ≡ t) × (lookup t (repoint from to (put from to m)) ≡ none)
          at_target q = rw q (target, free to target_free (λ e. apart (sym e)))

          old :
              (o : Option Text)
              → lookup a m ≡ o
              → redirect_found from to o ≡ some t
              → (canonical_entity_id t ≡ t) × (lookup t (repoint from to (put from to m)) ≡ none)
          old none q r = cc
          old (some t0) q r = elim (text_dec t0 from) [
            | yes p ↦ at_target (ground arith)
            | no d ↦
                let (fixed, clear) = flat.settled a t0 q in
                let same : t ≡ t0 = ground arith in rw same (fixed, free t0 clear d)
          ]

  resolve_merged :
      (g r : Graph) (name : Text)
      → g.aliases ≡ m
      → r.aliases ≡ repoint from to (put from to m)
      → entity_key r name ≡ redirect from to (entity_key g name)
  unfolding entity_key resolve_entity
  resolve_merged g r name eg er =
      rw (er, eg)
        (rw (lookup_merged (canonical_entity_id name))
          (go (lookup (canonical_entity_id name) m) refl))
    where
      go :
          (o : Option Text)
          → lookup (canonical_entity_id name) m ≡ o
          → follow
              (if text_eq from (canonical_entity_id name)
                then some to
                else redirect_found from to o)
              (canonical_entity_id name)
            ≡ redirect from to (follow o (canonical_entity_id name))
      go none e = ground (arith, target)
      go (some t) e = ground (arith, target, (flat.settled (canonical_entity_id name) t e).0)

aliases-dedupe :
    (c : Config) (g : Graph) (scope : Option Text)
    → (dedupe_live_facts c g scope).0.aliases ≡ g.aliases
unfolding dedupe_live_facts
aliases-dedupe c g scope = refl

pub merge_ids_same :
    (c : Config) (g : Graph) (from to to_name : Text)
    → from ≡ to
    → merge_ids c g from to to_name ≡ (g, same_entity)
unfolding merge_ids
merge_ids_same c g from to to_name h = ground arith

aliases-merge_ids :
    (c : Config) (g : Graph) (from to to_name : Text)
    → from ≢ to
    → (merge_ids c g from to to_name).0.aliases ≡ repoint from to (put from to g.aliases)
unfolding merge_ids merged_tables dedupe_live_facts
aliases-merge_ids c g from to to_name h = ground arith

module _ (c : Config) (g : Graph) (from_name to_name : Text) where
  -- After a merge every name leads where it led before, but the names that led to the merged entity
  -- lead to the other one; so it is for all names at once, in one hop. (A merge of an entity into
  -- itself changes nothing.) The alias table must lead to canonical ids in one hop before.
  pub entity_key-merge_entity :
      (name : Text)
      → IsFlat g.aliases
      → entity_key (merge_entity c g from_name to_name).0 name ≡ (
          if text_eq (entity_key g name) (entity_key g from_name)
          then entity_key g to_name
          else entity_key g name)
  unfolding merge_entity
  entity_key-merge_entity name flat =
      elim (text_dec (entity_key g from_name) (entity_key g to_name)) [
        | yes p ↦
            rw (merge_ids_same c g (entity_key g from_name) (entity_key g to_name) to_name p)
              (ground arith)
        | no d ↦
            resolve_merged g.aliases (entity_key g from_name) (entity_key g to_name) flat d
              (key_settled g to_name flat).0 (key_settled g from_name flat).1
              (key_settled g to_name flat).1 g _ name refl
              (aliases-merge_ids c g (entity_key g from_name) (entity_key g to_name) to_name d)
      ]

  -- A merge keeps a flat alias table flat, so that every alias still leads to a canonical id in one
  -- hop.
  pub merge_entity-IsFlat : IsFlat g.aliases → IsFlat (merge_entity c g from_name to_name).0.aliases
  unfolding merge_entity
  merge_entity-IsFlat flat = elim (text_dec (entity_key g from_name) (entity_key g to_name)) [
    | yes p ↦ rw (merge_ids_same c g (entity_key g from_name) (entity_key g to_name) to_name p) flat
    | no d ↦ rw (aliases-merge_ids c g (entity_key g from_name) (entity_key g to_name) to_name d) (
        merged-IsFlat g.aliases (entity_key g from_name) (entity_key g to_name) flat d
          (key_settled g to_name flat).0 (key_settled g from_name flat).1
          (key_settled g to_name flat).1)
  ]
