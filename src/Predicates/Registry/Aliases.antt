-- ===== src/Predicates/Registry/Aliases.antt =====
-- src/predicates.js: `withoutChains` makes a fold that converges.
use kb_graph.Base.{
  true, false, not, [], ◌∷◌, none, some, any, Dict, lookup, put, put_all, Text, ◌≡◌, In,
  In-of_In-filter, arith, inl, inr, ◌⊎◌, lookup-put, Option-cases,
}
use kb_graph.Predicates.Registry.{
  Config, has, keys, without_chains, from_entries, predicate_aliases, resolve_alias,
}

-- What a map made of entries answers stands among the entries.
pub In-of_lookup-put_all :
    {V : Type 0} (es m : Dict V) (k : Text) (v : V)
    → lookup k (put_all es m) ≡ some v
    → In (k, v) es ⊎ (lookup k m ≡ some v)
unfolding put_all
In-of_lookup-put_all [] m k v h = inr h
In-of_lookup-put_all ((j, w) ∷ es) m k v h =
    ground (arith, In-of_lookup-put_all es (put j w m) k v, lookup-put j k w m)

pub In-of_from_entries :
    (es : Dict Text) (k v : Text) → lookup k (from_entries es) ≡ some v → In (k, v) es
unfolding lookup
In-of_from_entries es k v h = ground (arith, In-of_lookup-put_all es [] k v h)

pub has-keys : (es : Dict Text) (k v : Text) → In (k, v) es → has (keys es) k ≡ true
unfolding has any
has-keys [] k v h = elim h [ ]
has-keys ((j, w) ∷ es) k v h = ground (arith, has-keys es k v)

pub without_chains_target :
    (es : Dict Text) (k v : Text) → In (k, v) (without_chains es) → has (keys es) v ≡ false
unfolding without_chains
without_chains_target es k v h =
    ground (arith, (In-of_In-filter (λ e. not (has (keys es) e.1)) (k, v) es h).1)

pub without_chains-In : (es : Dict Text) (k v : Text) → In (k, v) (without_chains es) → In (k, v) es
unfolding without_chains
without_chains-In es k v h = (In-of_In-filter (λ e. not (has (keys es) e.1)) (k, v) es h).0

-- The target of a kept entry is folded no further.
pub chain_free :
    (es : Dict Text) (k v : Text)
    → lookup k (from_entries (without_chains es)) ≡ some v
    → lookup v (from_entries (without_chains es)) ≡ none
chain_free es k v h = elim (Option-cases (lookup v (from_entries (without_chains es)))) [
  | inl e ↦ e
  | inr (w, e) ↦ cc (
    has-keys es v w (without_chains-In es v w (In-of_from_entries (without_chains es) v w e)),
    without_chains_target es k v (In-of_from_entries (without_chains es) k v h),
  )
]

-- The alias fold converges in one hop, whatever chains and cycles the two registries configure.
pub resolve_alias_idem :
    (c : Config) (p : Text) → resolve_alias c (resolve_alias c p) ≡ resolve_alias c p
unfolding resolve_alias predicate_aliases
resolve_alias_idem c p = elim (Option-cases (lookup p (predicate_aliases c))) [
  | inl e ↦ rw (e, e)
  | inr (v, e) ↦ rw (e, chain_free _ p v e)
]
