-- ===== src/Facts/Merge/Dedupe.antt =====
-- src/facts.js: `dedupeLiveFacts` leaves one live row for each folded triple, the earliest.
use kb_graph.Base.{
  true, false, List, [], Option, Text, text_eq, text_dec, ◌≡◌, ◌⊎◌, refl, arith, Bool-cases, inl,
  inr, In, any, filter, In-filter, In-of_In-filter, In-of_any,
}
use kb_graph.Predicates.Registry.{Config, has}
use kb_graph.Facts.Dates.{or_null}
use kb_graph.Facts.Graph.{Fact, Graph}
use kb_graph.Facts.Graph.Invariant.{IsKeyed, filter-IsKeyed, eq_of_id}
use kb_graph.Facts.Merge.{
  start_le, sort_rows, dedupe_key, dropped_from, selected, dedupe_live_facts,
}
use kb_graph.Facts.Merge.Sorting.{
  In-sort_rows, In-of_In-sort_rows, sort_rows-IsSorted, sort_rows-IsKeyed,
}
use kb_graph.Facts.Merge.Loop.{one_dropped, has_fact_id_of_dropped, earliest_stays}

module _ (c : Config) where
  abbrev remaining : Graph → Option Text → List Fact
  remaining g scope = (dedupe_live_facts c g scope).0.facts

  In-remaining :
      (g : Graph) (scope : Option Text) (f : Fact)
      → In f g.facts
      → has (dropped_from c g.facts (or_null scope)) f.id ≡ false
      → In f (remaining g scope)
  unfolding dedupe_live_facts
  In-remaining g scope f m h = In-filter _ f g.facts m (rw h)

  of_remaining :
      (g : Graph) (scope : Option Text) (f : Fact)
      → In f (remaining g scope)
      → In f g.facts × (has (dropped_from c g.facts (or_null scope)) f.id ≡ false)
  unfolding dedupe_live_facts
  of_remaining g scope f m = let (n, k) = In-of_In-filter _ f g.facts m in (n, ground arith)

  In-rows :
      (fs : List Fact) (scope : Option Text) (f : Fact)
      → In f fs
      → selected scope f ≡ true
      → In f (sort_rows (filter (selected scope) fs))
  In-rows fs scope f m h = In-sort_rows f _ (In-filter (selected scope) f fs m h)

  -- After `dedupeLiveFacts` no two different rows that are live and in scope have one folded triple.
  pub dedupe_unique :
      (g : Graph) (scope : Option Text) (f h : Fact)
      → In f (dedupe_live_facts c g scope).0.facts
      → In h (dedupe_live_facts c g scope).0.facts
      → selected (or_null scope) f ≡ true
      → selected (or_null scope) h ≡ true
      → dedupe_key c f ≡ dedupe_key c h
      → f.id ≡ h.id
  dedupe_unique g scope f h mf mh sf sh e = elim (text_dec f.id h.id) [
    | yes p ↦ p
    | no d ↦
        let (nf, kf) = of_remaining g scope f mf in
        let (nh, kh) = of_remaining g scope h mh in
        let gone =
          one_dropped c f h _ [] (In-rows g.facts (or_null scope) f nf sf)
            (In-rows g.facts (or_null scope) h nh sh) e d in
        cc (rw (kf, kh) at gone)
  ]

  -- If no two rows have one id, `dedupeLiveFacts` keeps for every live row in scope one with the same
  -- folded triple, and it starts no later: no relationship is forgotten, the earliest start stays.
  pub dedupe_keeps :
      (g : Graph) (scope : Option Text) (f : Fact)
      → IsKeyed g.facts
      → In f g.facts
      → selected (or_null scope) f ≡ true
      → (h : Fact) × In h (dedupe_live_facts c g scope).0.facts
        × (selected (or_null scope) h ≡ true)
        × (dedupe_key c h ≡ dedupe_key c f)
        × (start_le h.valid_from f.valid_from ≡ true)
  dedupe_keeps g scope f k m s =
      let rows = sort_rows (filter (selected (or_null scope)) g.facts) in
      let (h, stay) =
        earliest_stays c f rows [] (sort_rows-IsSorted _)
          (sort_rows-IsKeyed _ (filter-IsKeyed _ g.facts k)) (In-rows g.facts (or_null scope) f m s)
          (unfold has any in refl) in
      let (n, t) =
        In-of_In-filter (selected (or_null scope)) h g.facts (In-of_In-sort_rows h _ stay.member) in
      (h, In-remaining g scope h n stay.stays, t, stay.key, stay.earlier)

  -- If no two rows have one id, `dedupeLiveFacts` leaves the rows that are closed or out of scope.
  pub dedupe_others :
      (g : Graph) (scope : Option Text) (f : Fact)
      → IsKeyed g.facts
      → In f g.facts
      → selected (or_null scope) f ≡ false
      → In f (dedupe_live_facts c g scope).0.facts
  dedupe_others g scope f k m s =
      In-remaining g scope f m
        (not_dropped (Bool-cases (has (dropped_from c g.facts (or_null scope)) f.id)))
    where
      rows : List Fact
      rows = sort_rows (filter (selected (or_null scope)) g.facts)

      not_dropped :
          (has (dropped_from c g.facts (or_null scope)) f.id ≡ true)
            ⊎ (has (dropped_from c g.facts (or_null scope)) f.id ≡ false)
          → has (dropped_from c g.facts (or_null scope)) f.id ≡ false
      not_dropped (inr e) = e
      not_dropped (inl e) =
          let (x, mx, ex) =
            In-of_any (λ (y : Fact). text_eq y.id f.id) rows
              (has_fact_id_of_dropped c f.id rows [] e) in
          let (nx, tx) =
            In-of_In-filter (selected (or_null scope)) x g.facts (In-of_In-sort_rows x _ mx) in
          cc (s, tx, eq_of_id x f g.facts k nx m (ground arith))
