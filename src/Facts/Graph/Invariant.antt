-- ===== src/Facts/Graph/Invariant.antt =====
-- What holds of every graph that the writers produce.
use kb_graph.Base.{
  Bool, true, false, List, [], ◌∷◌, Option, some, any, Text, text_eq, ◌≡◌, sym, ◌∙◌, arith, All, In,
  inl, inr, filter, any-filter, any_of_In, Bool-cases,
}
use kb_graph.Facts.Dates.{text_lt}
use kb_graph.Facts.Graph.{Entity, Fact, Graph, has_entity, has_fact_id, is_live, is_live_triple}

-- No two live rows name one triple.
abbrev pub IsLiveUnique : List Fact → Type 0
IsLiveUnique [] = Unit
IsLiveUnique (f ∷ fs) =
    (is_live f ≡ true → any (is_live_triple f.subject f.predicate f.object) fs ≡ false)
    × IsLiveUnique fs

-- A closed row does not end before it starts.
abbrev pub IsDatedWith : Option Text → Option Text → Type 0
IsDatedWith (some start) (some end) = text_lt end start ≡ false
IsDatedWith _ _ = Unit

abbrev pub IsDated : Fact → Type 0
IsDated f = IsDatedWith f.valid_from f.valid_to

-- Both ends of a fact are entities.
abbrev pub HasEnds : List Entity → Fact → Type 0
HasEnds es f = (has_entity es f.subject ≡ true) × (has_entity es f.object ≡ true)

-- `id` is the primary key.
abbrev pub IsKeyed : List Fact → Type 0
IsKeyed [] = Unit
IsKeyed (f ∷ fs) = (has_fact_id fs f.id ≡ false) × IsKeyed fs

pub record IsSound (g : Graph) : Type 0 where
  pub keyed : IsKeyed g.facts
  pub unique : IsLiveUnique g.facts
  pub dated : All IsDated g.facts
  pub ends : All (HasEnds g.entities) g.facts

pub filter-IsKeyed : (test : Fact → Bool) (fs : List Fact) → IsKeyed fs → IsKeyed (filter test fs)
unfolding filter
filter-IsKeyed test [] h = tt
filter-IsKeyed test (f ∷ fs) h = elim (Bool-cases (test f)) [
  | inl e ↦ rw e (kept f.id fs h.0, filter-IsKeyed test fs h.1)
  | inr e ↦ rw e (filter-IsKeyed test fs h.1)
]
  where
    kept :
        (id : Text) (gs : List Fact)
        → has_fact_id gs id ≡ false
        → has_fact_id (filter test gs) id ≡ false
    kept id gs k = any-filter (λ x. text_eq x.id id) test gs k

-- One id, one row.
pub eq_of_id : (f g : Fact) (fs : List Fact) → IsKeyed fs → In f fs → In g fs → f.id ≡ g.id → f ≡ g
eq_of_id f g [] k hf hg e = elim hf [ ]
eq_of_id f g (x ∷ fs) k (inl p) (inl q) e = p ∙ sym q
eq_of_id f g (x ∷ fs) k (inl p) (inr hg) e =
    cc (k.0, any_of_In (λ (y : Fact). text_eq y.id x.id) g fs hg (ground arith))
eq_of_id f g (x ∷ fs) k (inr hf) (inl q) e =
    cc (k.0, any_of_In (λ (y : Fact). text_eq y.id x.id) f fs hf (ground arith))
eq_of_id f g (x ∷ fs) k (inr hf) (inr hg) e = eq_of_id f g fs k.1 hf hg e
