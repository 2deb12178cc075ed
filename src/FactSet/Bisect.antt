-- ===== src/FactSet/Bisect.antt =====
-- The binary search finds the place where its test turns from true to false.
use maelys_datalog.Prelude.{
  ℕ, zero, suc, ◌+◌, ◌-◌, ◌/◌, ◌≤◌, ◌<◌, Bool, true, false, List, ◌≡◌, arith, ltb, Ordering,
  Option-cases, ◌≢◌, ◌∙◌, some, get_elem?, get-lt, lt_of_get, Bool-cases, inl, inr, ltb→lt,
}
use native.Mathlib.Decide.{dec_le}
use maelys_datalog.Fact.{Fact, fact_cmp}
use maelys_datalog.FactSet.Order.{IsSorted, IsSorted-get}
use maelys_datalog.FactSet.{probe, bisect}

-- Where the test holds at a place, it holds at all places before it.
abbrev pub IsMonotone : (Fact → Bool) → List Fact → Type 0
IsMonotone test facts = (i j : ℕ) → i ≤ j → probe test facts j ≡ true → probe test facts i ≡ true

-- `r` splits the places from `lo` to `hi`.
pub record Splits (test : Fact → Bool) (facts : List Fact) (lo hi r : ℕ) : Type 0 where
  pub above : lo ≤ r
  pub below : r ≤ hi
  pub left : (i : ℕ) → lo ≤ i → i < r → probe test facts i ≡ true
  pub right : (i : ℕ) → r ≤ i → i < hi → probe test facts i ≡ false

pub probe-some :
    (test : Fact → Bool) (facts : List Fact) (i : ℕ) (a : Fact)
    → get_elem? facts i ≡ some a
    → probe test facts i ≡ test a
probe-some test facts i a h = rw (h, probe)

pub probe-true :
    (test : Fact → Bool) (facts : List Fact) (i : ℕ)
    → probe test facts i ≡ true
    → (a : Fact) × (get_elem? facts i ≡ some a) × (test a ≡ true)
probe-true test facts i h = elim (Option-cases (get_elem? facts i)) [
  | inl e ↦ absurd (cc (rw (e, probe) at h))
  | inr (a, e) ↦ (a, e, rw (e, probe) at h)
]

-- In a sorted list, a test that smaller facts inherit is monotone.
pub IsSorted-IsMonotone :
    (test : Fact → Bool) (facts : List Fact)
    → ((a b : Fact) → fact_cmp a b ≢ Ordering.gt → test b ≡ true → test a ≡ true)
    → IsSorted facts
    → IsMonotone test facts
IsSorted-IsMonotone test facts inherits sorted i j le h =
    let (b, eb, tb) = probe-true test facts j h in
    let (a, ea) = get-lt facts i (omega (arith, lt_of_get facts j b eb)) in
    probe-some test facts i a ea ∙ inherits a b (IsSorted-get facts i j a b sorted le ea eb) tb

module _ (test : Fact → Bool) (facts : List Fact) (mono : IsMonotone test facts) where
  not_before : (i j : ℕ) → i ≤ j → probe test facts i ≡ false → probe test facts j ≡ false
  not_before i j le h = ground (arith, mono i j)

  Splits-right :
      (lo mid hi r : ℕ)
      → lo ≤ mid
      → probe test facts mid ≡ true
      → Splits test facts (mid + 1) hi r
      → Splits test facts lo hi r
  Splits-right lo mid hi r le h s = record {
    above = omega arith;
    below = s.below;
    left =
        λ i a b. elim (dec_le i mid) [ yes p ↦ mono i mid p h | no p ↦ s.left i (omega arith) b ];
    right = s.right;
  }

  Splits-left :
      (lo mid hi r : ℕ)
      → mid ≤ hi
      → probe test facts mid ≡ false
      → Splits test facts lo mid r
      → Splits test facts lo hi r
  Splits-left lo mid hi r le h s = record {
    above = s.above;
    below = omega arith;
    left = s.left;
    right = λ i a b. elim (dec_le mid i) [
      | yes p ↦ not_before mid i p h
      | no p ↦ s.right i a (omega arith)
    ];
  }

  Splits-empty : (lo hi : ℕ) → lo ≤ hi → hi ≤ lo → Splits test facts lo hi lo
  Splits-empty lo hi le ge = record {
    above = omega arith;
    below = le;
    left = λ i a b. absurd (omega arith);
    right = λ i a b. absurd (omega arith);
  }

  -- With as much fuel as there are places, the search ends at the split.
  pub bisect-Splits :
      (fuel lo hi : ℕ)
      → lo ≤ hi
      → hi - lo ≤ fuel
      → Splits test facts lo hi (bisect test facts fuel lo hi)
  unfolding bisect
  bisect-Splits zero lo hi le h = Splits-empty lo hi le (omega arith)
  bisect-Splits (suc fuel) lo hi le h = elim (Bool-cases (ltb lo hi)) [
    | inl open' ↦
        let lt = ltb→lt lo hi open' in
        let mid = lo + (hi - lo) / 2 in
        elim (Bool-cases (probe test facts mid)) [
          | inl t ↦
              rw (open', bisect)
                (rw (t, bisect)
                  (Splits-right lo mid hi _ (omega arith) t
                    (bisect-Splits fuel (mid + 1) hi (omega arith) (omega arith))))
          | inr f ↦
              rw (open', bisect)
                (rw (f, bisect)
                  (Splits-left lo mid hi _ (omega arith) f
                    (bisect-Splits fuel lo mid (omega arith) (omega arith))))
        ]
    | inr shut ↦ rw (shut, bisect) (Splits-empty lo hi le (ground arith))
  ]
