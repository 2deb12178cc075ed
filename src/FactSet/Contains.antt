-- ===== src/FactSet/Contains.antt =====
-- Membership: the binary search of a sorted set and the scan of an unsorted one.
use maelys_datalog.Prelude.{
  ℕ, ◌≤◌, Bool, ◌&&◌, true, false, List, [], ◌∷◌, Ordering, ◌≡◌, ◌≢◌, ◌↔◌, refl, arith, length, ltb,
  Bool-cases, and_true, inl, inr, lt→ltb, In, In-get, get-In, get-lt,
}
use native.Mathlib.Decide.{dec_lt}
use maelys_datalog.Fact.{Fact, fact_cmp, fact_equals}
use maelys_datalog.FactSet.{FactSet, is_lt, is_eq, probe, bisect, scan, fact_set_contains}
use maelys_datalog.FactSet.Bisect.{
  IsSorted-IsMonotone, Splits, bisect-Splits, probe-some, probe-true,
}
use maelys_datalog.FactSet.Order.{
  IsSorted, IsSorted-get, fact_cmp_self, fact_cmp-equal, fact_cmp-flips, fact_cmp-trans_le,
}

pub scan_iff : (fs : List Fact) (f : Fact) → (scan fs f ≡ true) ↔ In f fs
unfolding scan fact_equals
scan_iff [] f = (λ h. cc, λ m. absurd m)
scan_iff (g ∷ fs) f = ground (arith, scan_iff fs f, fact_cmp-equal g f, fact_cmp_self f)

abbrev less : Fact → Fact → Bool
less f g = is_lt (fact_cmp g f)

less_inherits : (f a b : Fact) → fact_cmp a b ≢ Ordering.gt → less f b ≡ true → less f a ≡ true
less_inherits f a b h k =
    ground (arith, fact_cmp-trans_le a b f, fact_cmp-equal a f, fact_cmp-flips a b)

module _ (fs : List Fact) (f : Fact) (sorted : IsSorted fs) where
  split : Splits (less f) fs 0 (length fs) (bisect (less f) fs (length fs) 0 (length fs))
  split =
      bisect-Splits (less f) fs (IsSorted-IsMonotone (less f) fs (less_inherits f) sorted)
        (length fs) 0 (length fs) (omega arith) (omega arith)

  -- If the fact is in the list, then it stands at the split.
  In-at_split :
      (r : ℕ)
      → Splits (less f) fs 0 (length fs) r
      → In f fs
      → (ltb r (length fs) && probe (λ g. is_eq (fact_cmp g f)) fs r) ≡ true
  In-at_split r s m =
      let (i, lt, e) = get-In fs f m in
      let not_less : probe (less f) fs i ≡ false =
        rw (probe-some (less f) fs i f e, fact_cmp_self f) refl in
      let le : r ≤ i = elim (dec_lt i r) [
        | yes p ↦ absurd (cc (s.left i (omega arith) p, not_less))
        | no p ↦ omega arith
      ] in
      let (a, ea) = get-lt fs r (omega arith) in
      let reads = probe-some (less f) fs r a ea in
      let tests = probe-some (λ g. is_eq (fact_cmp g f)) fs r a ea in
      let stop = s.right r (omega arith) (omega arith) in
      let order = IsSorted-get fs r i a f sorted le ea e in ground (arith, lt→ltb r (length fs))

  at_split-In :
      (r : ℕ) → (ltb r (length fs) && probe (λ g. is_eq (fact_cmp g f)) fs r) ≡ true → In f fs
  at_split-In r h =
      let (a, e, t) =
        probe-true (λ g. is_eq (fact_cmp g f)) fs r (and_true (ltb r (length fs)) _ h).1 in
      let same : a ≡ f = ground (arith, fact_cmp-equal a f) in rw (← same) (In-get fs r a e)

-- `maelys_datalog_fact_set_contains` answers 1 exactly for the facts of the set, by the scan of an
-- unsorted set and by the binary search of a sorted one, if a set marked as sorted is in order.
pub fact_set_contains_iff :
    (s : FactSet) (f : Fact)
    → (s.sorted ≡ true → IsSorted s.facts)
    → (fact_set_contains s f ≡ true) ↔ In f s.facts
unfolding fact_set_contains
fact_set_contains_iff s f h = elim (Bool-cases s.sorted) [
  | inl e ↦
      rw e (at_split-In s.facts f (h e) _, In-at_split s.facts f (h e) _ (split s.facts f (h e)))
  | inr e ↦ rw e (scan_iff s.facts f)
]
