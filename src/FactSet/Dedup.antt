-- ===== src/FactSet/Dedup.antt =====
-- Removal of duplicates from a sorted set.
use maelys_datalog.Prelude.{
  true, List, [], ◌∷◌, Ordering, ◌≡◌, ◌↔◌, ◌⊎◌, inl, inr, refl, arith, Bool-cases, ok, In, All-map,
}
use maelys_datalog.Fact.{Fact, fact_cmp}
use maelys_datalog.FactSet.{FactSet, is_eq, dedup_from, dedup_list, fact_set_dedup}
use maelys_datalog.FactSet.Order.{IsSorted, IsStrict, fact_cmp-equal, fact_cmp_trans}

-- The kept fact stands for its duplicates.
In-dedup_from :
    (k : Fact) (fs : List Fact) (f : Fact)
    → ((f ≡ k) ⊎ In f (dedup_from k fs)) ↔ ((f ≡ k) ⊎ In f fs)
unfolding dedup_from
In-dedup_from k [] f = (λ h. h, λ h. h)
In-dedup_from k (g ∷ fs) f = elim (Bool-cases (is_eq (fact_cmp k g))) [
  | inl e ↦
      let same : k ≡ g = ground (arith, fact_cmp-equal k g) in
      rw (e, dedup_from) (ground (arith, In-dedup_from k fs f))
  | inr e ↦ rw (e, dedup_from) (ground (arith, In-dedup_from g fs f))
]

dedup_from-IsStrict :
    (k : Fact) (fs : List Fact) → IsSorted (k ∷ fs) → IsStrict (k ∷ dedup_from k fs)
unfolding dedup_from
dedup_from-IsStrict k [] s = (tt, tt)
dedup_from-IsStrict k (g ∷ fs) s = elim (Bool-cases (is_eq (fact_cmp k g))) [
  | inl e ↦ rw (e, dedup_from) (dedup_from-IsStrict k fs (s.0.1, s.1.1))
  | inr e ↦
      let ih = dedup_from-IsStrict g fs s.1 in
      let lt : fact_cmp k g ≡ Ordering.lt = ground (arith, s.0.0) in
      rw (e, dedup_from)
        (
          (
            lt,
            All-map (λ h. fact_cmp g h ≡ Ordering.lt) (λ h. fact_cmp k h ≡ Ordering.lt)
                (dedup_from g fs) (λ h. fact_cmp_trans k g h lt) ih.0,
          ),
          ih,
        )
]

pub dedup_list-IsStrict : (fs : List Fact) → IsSorted fs → IsStrict (dedup_list fs)
dedup_list-IsStrict [] s = tt
dedup_list-IsStrict (f ∷ fs) s = dedup_from-IsStrict f fs s

pub In-dedup_list : (fs : List Fact) (f : Fact) → In f (dedup_list fs) ↔ In f fs
In-dedup_list [] f = (λ m. m, λ m. m)
In-dedup_list (g ∷ fs) f = In-dedup_from g fs f

-- On a set that is marked as sorted and is in order, `maelys_datalog_fact_set_dedup` succeeds, what
-- it leaves is strictly increasing, has the same members, and the capacity and the mark stay.
pub fact_set_dedup-IsStrict :
    (s : FactSet)
    → s.sorted ≡ true
    → IsSorted s.facts
    → (t : FactSet) × (fact_set_dedup s ≡ (ok, t))
      × IsStrict t.facts
      × ((f : Fact) → In f t.facts ↔ In f s.facts)
      × (t.capacity ≡ s.capacity)
      × (t.sorted ≡ true)
unfolding fact_set_dedup
fact_set_dedup-IsStrict s e h = (
  record s { facts = dedup_list s.facts },
  rw e,
  dedup_list-IsStrict s.facts h,
  In-dedup_list s.facts,
  refl,
  e,
)
