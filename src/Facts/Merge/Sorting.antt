-- ===== src/Facts/Merge/Sorting.antt =====
-- src/facts.js: `ORDER BY valid_from` puts the same rows in order.
use kb_graph.Base.{
  true, false, ◌||◌, List, [], ◌∷◌, Option, none, some, Text, text_eq, ◌≡◌, ◌⊎◌, refl, arith,
  Bool-cases, inl, inr, All, In, any, All-map,
}
use kb_graph.Facts.Dates.{text_lt_between, text_lt_asymm, text_lt_irrefl}
use kb_graph.Facts.Graph.{Fact, has_fact_id}
use kb_graph.Facts.Graph.Invariant.{IsKeyed}
use kb_graph.Facts.Merge.{start_le, insert_row, sort_rows}

abbrev pub StartsBefore : Fact → Fact → Type 0
StartsBefore f g = start_le f.valid_from g.valid_from ≡ true

abbrev pub IsSorted : List Fact → Type 0
IsSorted [] = Unit
IsSorted (f ∷ fs) = All (StartsBefore f) fs × IsSorted fs

start_le_total : (a b : Option Text) → start_le a b ≡ false → start_le b a ≡ true
unfolding start_le
start_le_total none b h = cc
start_le_total (some a) none h = refl
start_le_total (some a) (some b) h = ground (arith, text_lt_asymm b a)

start_le_trans :
    (a b c : Option Text) → start_le a b ≡ true → start_le b c ≡ true → start_le a c ≡ true
unfolding start_le
start_le_trans none b c h k = refl
start_le_trans (some a) none c h k = cc
start_le_trans (some a) (some b) none h k = cc
start_le_trans (some a) (some b) (some c) h k = ground (arith, text_lt_between c b a)

pub start_le_refl : (a : Option Text) → start_le a a ≡ true
unfolding start_le
start_le_refl none = refl
start_le_refl (some a) = ground (arith, text_lt_irrefl a)

pub In-insert_row : (f g : Fact) (fs : List Fact) → (f ≡ g) ⊎ In f fs → In f (insert_row g fs)
unfolding insert_row
In-insert_row f g [] h = h
In-insert_row f g (x ∷ fs) h = ground (arith, In-insert_row f g fs)

pub In-of_In-insert_row : (f g : Fact) (fs : List Fact) → In f (insert_row g fs) → (f ≡ g) ⊎ In f fs
unfolding insert_row
In-of_In-insert_row f g [] h = h
In-of_In-insert_row f g (x ∷ fs) h = ground (arith, In-of_In-insert_row f g fs)

pub In-sort_rows : (f : Fact) (fs : List Fact) → In f fs → In f (sort_rows fs)
unfolding sort_rows
In-sort_rows f [] h = elim h [ ]
In-sort_rows f (x ∷ fs) (inl e) = In-insert_row f x (sort_rows fs) (inl e)
In-sort_rows f (x ∷ fs) (inr h) = In-insert_row f x (sort_rows fs) (inr (In-sort_rows f fs h))

pub In-of_In-sort_rows : (f : Fact) (fs : List Fact) → In f (sort_rows fs) → In f fs
unfolding sort_rows
In-of_In-sort_rows f [] h = h
In-of_In-sort_rows f (x ∷ fs) h = elim (In-of_In-insert_row f x (sort_rows fs) h) [
  | inl e ↦ inl e
  | inr k ↦ inr (In-of_In-sort_rows f fs k)
]

All-insert_row :
    (f g : Fact) (fs : List Fact)
    → StartsBefore f g
    → All (StartsBefore f) fs
    → All (StartsBefore f) (insert_row g fs)
unfolding insert_row
All-insert_row f g [] h k = (h, tt)
All-insert_row f g (x ∷ fs) h k = elim (Bool-cases (start_le g.valid_from x.valid_from)) [
  | inl e ↦ rw e (h, k)
  | inr e ↦ rw e (k.0, All-insert_row f g fs h k.1)
]

insert_row-IsSorted : (f : Fact) (fs : List Fact) → IsSorted fs → IsSorted (insert_row f fs)
unfolding insert_row
insert_row-IsSorted f [] h = (tt, tt)
insert_row-IsSorted f (x ∷ fs) h = elim (Bool-cases (start_le f.valid_from x.valid_from)) [
  | inl e ↦ rw e (
    (
      e,
      All-map (StartsBefore x) (StartsBefore f) fs
          (λ y k. start_le_trans f.valid_from x.valid_from y.valid_from e k) h.0,
    ),
    h,
  )
  | inr e ↦ rw e (
    All-insert_row x f fs (start_le_total f.valid_from x.valid_from e) h.0,
    insert_row-IsSorted f fs h.1,
  )
]

pub sort_rows-IsSorted : (fs : List Fact) → IsSorted (sort_rows fs)
unfolding sort_rows
sort_rows-IsSorted [] = tt
sort_rows-IsSorted (f ∷ fs) = insert_row-IsSorted f (sort_rows fs) (sort_rows-IsSorted fs)

has_fact_id-insert_row :
    (id : Text) (f : Fact) (fs : List Fact)
    → has_fact_id (insert_row f fs) id ≡ (text_eq f.id id || has_fact_id fs id)
unfolding insert_row any
has_fact_id-insert_row id f [] = refl
has_fact_id-insert_row id f (x ∷ fs) = ground (arith, has_fact_id-insert_row id f fs)

has_fact_id-sort_rows :
    (id : Text) (fs : List Fact) → has_fact_id (sort_rows fs) id ≡ has_fact_id fs id
unfolding sort_rows any
has_fact_id-sort_rows id [] = refl
has_fact_id-sort_rows id (f ∷ fs) = rw (has_fact_id-insert_row, has_fact_id-sort_rows id fs)

insert_row-IsKeyed :
    (f : Fact) (fs : List Fact)
    → has_fact_id fs f.id ≡ false
    → IsKeyed fs
    → IsKeyed (insert_row f fs)
unfolding insert_row any
insert_row-IsKeyed f [] h k = (h, tt)
insert_row-IsKeyed f (x ∷ fs) h k = elim (Bool-cases (start_le f.valid_from x.valid_from)) [
  | inl e ↦ rw e (h, k)
  | inr e ↦
      rw e (
        ground (arith, has_fact_id-insert_row x.id f fs),
        insert_row-IsKeyed f fs (ground arith) k.1,
      )
]

pub sort_rows-IsKeyed : (fs : List Fact) → IsKeyed fs → IsKeyed (sort_rows fs)
unfolding sort_rows
sort_rows-IsKeyed [] h = tt
sort_rows-IsKeyed (f ∷ fs) h =
    insert_row-IsKeyed f (sort_rows fs) (rw (has_fact_id-sort_rows f.id fs) h.0)
      (sort_rows-IsKeyed fs h.1)
