-- ===== src/Sort/Ordered.antt =====
-- The partition of a range puts it in order.
use maelys_datalog.Prelude.{
  ℕ, zero, suc, ◌+◌, ◌-◌, ◌/◌, ◌≤◌, ◌<◌, Ordering, ◌≡◌, ◌⊎◌, inl, inr, refl, subst, arith,
  Bool-cases, ltb,
}
use maelys_datalog.Prelude.Compare.{IsOrder}
use maelys_datalog.Sort.{below, above, median, split_loop, two_parts, partition}
use maelys_datalog.Sort.Extraction.{heap-IsSorted}
use maelys_datalog.Sort.Insertion.{insertion-IsSorted}
use maelys_datalog.Sort.Parts.{split_loop-Splits, partition-Swaps}
use maelys_datalog.Sort.Sorted.{Swaps-outside, Swaps-All, Le, IsSortedIn, Le_trans}
use maelys_datalog.Sort.Split.{Halves, split_loop-Halves}
use maelys_datalog.Sort.Swapping.{Swaps}

module _ {A : Type 0} (cmp : A → A → Ordering) where
  -- Two ranges in order, the first not greater than the second.
  pub join-IsSortedIn :
      (a : ℕ → A) (lo mid hi : ℕ)
      → IsSortedIn cmp lo mid a
      → IsSortedIn cmp mid hi a
      → ((i k : ℕ) → lo ≤ i → i < mid → mid ≤ k → k < hi → Le cmp (a i) (a k))
      → IsSortedIn cmp lo hi a
  join-IsSortedIn a lo mid hi first second cross i k p q r = elim (Bool-cases (ltb k mid)) [
    | inl t ↦ first i k p q (ground arith)
    | inr t ↦ elim (Bool-cases (ltb i mid)) [
      | inl u ↦ cross i k p (ground arith) (ground arith) r
      | inr u ↦ second i k (ground arith) q r
    ]
  ]

  -- Exchanges elsewhere keep a range in order.
  pub outside-IsSortedIn :
      (a b : ℕ → A) (l h lo hi : ℕ)
      → Swaps l h a b
      → (hi ≤ l) ⊎ (h ≤ lo)
      → IsSortedIn cmp lo hi a
      → IsSortedIn cmp lo hi b
  outside-IsSortedIn a b l h lo hi s out sorted i k p q r =
      let first =
        Swaps-outside l h a b i s
          (elim out [ inl x ↦ inl (omega arith) | inr x ↦ inr (omega arith) ]) in
      let second =
        Swaps-outside l h a b k s
          (elim out [ inl x ↦ inl (omega arith) | inr x ↦ inr (omega arith) ]) in
      rw (first, second) (sorted i k p q r)

module _ {A : Type 0} (cmp : A → A → Ordering) (o : IsOrder cmp) where
  -- Exchanges within a part keep the parts apart.
  left-Halves :
      (pivot : A) (a b : ℕ → A) (off mid hi : ℕ)
      → Swaps off mid a b
      → Halves cmp o pivot off hi (a, mid)
      → Halves cmp o pivot off hi (b, mid)
  left-Halves pivot a b off mid hi s h = record {
    left =
        λ i p q. Swaps-All (λ x. Le cmp x pivot) off mid a b s (λ k w. h.left k w.0 w.1) i (p, q);
    right = λ i p q. rw (Swaps-outside off mid a b i s (inr p)) (h.right i p q);
  }

  right-Halves :
      (pivot : A) (a b : ℕ → A) (off mid hi : ℕ)
      → Swaps mid hi a b
      → Halves cmp o pivot off hi (a, mid)
      → Halves cmp o pivot off hi (b, mid)
  right-Halves pivot a b off mid hi s h = record {
    left = λ i p q. rw (Swaps-outside mid hi a b i s (inl q)) (h.left i p q);
    right = λ i p q. Swaps-All (Le cmp pivot) mid hi a b s (λ k w. h.right k w.0 w.1) i (p, q);
  }

  Halves-IsSortedIn :
      (pivot : A) (a : ℕ → A) (off mid hi : ℕ)
      → Halves cmp o pivot off hi (a, mid)
      → IsSortedIn cmp off mid a
      → IsSortedIn cmp mid hi a
      → IsSortedIn cmp off hi a
  Halves-IsSortedIn pivot a off mid hi h first second =
      join-IsSortedIn cmp a off mid hi first second
        λ i k p q r s. Le_trans cmp o (a i) pivot (a k) (h.left i p q) (h.right k r s)

  -- A sort of ranges: it exchanges elements of the range until it is in order.
  record Sorts (f : (ℕ → A) → ℕ → ℕ → ℕ → A) : Type 0 where
    swaps : (a : ℕ → A) (off n : ℕ) → Swaps off (off + n) a (f a off n)
    sorted : (a : ℕ → A) (off n : ℕ) → IsSortedIn cmp off (off + n) (f a off n)

  two_parts-IsSortedIn :
      (f : (ℕ → A) → ℕ → ℕ → ℕ → A)
      → Sorts f
      → (pivot : A) (a : ℕ → A) (off lo n : ℕ) → lo ≤ n
      → Halves cmp o pivot off (off + n) (a, off + lo)
      → IsSortedIn cmp off (off + n) (two_parts cmp f a off lo n)
  two_parts-IsSortedIn f s pivot a off lo n le h =
      let mid = off + lo in
      let hi = off + n in
      let end : off + lo + (n - lo) ≡ off + n = omega arith in
      let left_swaps : (b : ℕ → A) → Swaps off (off + lo) b (f b off lo) = λ b. s.swaps b off lo in
      let right_swaps : (b : ℕ → A) → Swaps (off + lo) (off + n) b (f b (off + lo) (n - lo)) = λ b.
        subst (λ (e : ℕ). Swaps (off + lo) e b (f b (off + lo) (n - lo))) end
          (s.swaps b (off + lo) (n - lo)) in
      let right_sorted : (b : ℕ → A)
          → IsSortedIn cmp (off + lo) (off + n) (f b (off + lo) (n - lo)) =
        λ b i k p q r. s.sorted b (off + lo) (n - lo) i k p q (omega arith) in
      elim (Bool-cases (ltb lo (n - lo))) [
        | inl t ↦
            let b = f a off lo in
            rw t (
              Halves-IsSortedIn pivot (f b (off + lo) (n - lo)) off (off + lo) (off + n)
                (right-Halves pivot b _ off (off + lo) (off + n) (right_swaps b)
                  (left-Halves pivot a b off (off + lo) (off + n) (left_swaps a) h))
                (outside-IsSortedIn cmp b _ (off + lo) (off + n) off (off + lo) (right_swaps b)
                  (inl (omega arith)) (s.sorted a off lo))
                (right_sorted b))
        | inr t ↦
            let b = f a (off + lo) (n - lo) in
            rw t (
              Halves-IsSortedIn pivot (f b off lo) off (off + lo) (off + n)
                (left-Halves pivot b _ off (off + lo) (off + n) (left_swaps b)
                  (right-Halves pivot a b off (off + lo) (off + n) (right_swaps a) h))
                (s.sorted b off lo)
                (outside-IsSortedIn cmp b _ off (off + lo) (off + lo) (off + n) (left_swaps b)
                  (inr (omega arith)) (right_sorted a)))
      ]

  pub partition-IsSortedIn :
      (depth : ℕ) (a : ℕ → A) (off n : ℕ)
      → IsSortedIn cmp off (off + n) (partition cmp depth a off n)
  unfolding partition
  partition-IsSortedIn zero a off n = elim (Bool-cases (ltb 16 n)) [
    | inl t ↦ rw (t, partition) (heap-IsSorted cmp o a off n)
    | inr t ↦ rw (t, partition) (insertion-IsSorted cmp o a off n)
  ]
  partition-IsSortedIn (suc depth) a off n = elim (Bool-cases (ltb 16 n)) [
    | inr t ↦ rw (t, partition) (insertion-IsSorted cmp o a off n)
    | inl t ↦
        let many : 16 < n = ground arith in
        let b = median cmp a off n in
        let pivot = b (off + n / 2) in
        let same = o.self pivot in
        let split = split_loop cmp n n b pivot off (off + (n - 1)) in
        let s =
          split_loop-Splits cmp n n b pivot off off (off + (n - 1)) (off + n / 2) (off + n / 2)
            (omega arith) (omega arith) (omega arith) (rw (same, below) refl) (omega arith)
            (omega arith) (omega arith) (rw (same, above) refl) in
        let halves =
          split_loop-Halves cmp o n n b pivot off off (off + (n - 1)) (off + n / 2) (off + n / 2)
            (omega arith) (omega arith) (omega arith) (rw (same, below) refl) (omega arith)
            (omega arith) (omega arith) (rw (same, above) refl) (omega arith)
            (λ i x y. absurd (omega arith)) (λ i x y. absurd (omega arith)) in
        let from = s.from in
        let to = s.to in
        let place : split.1 ≡ off + (split.1 - off) = omega arith in
        rw (t, partition)
          (two_parts-IsSortedIn (partition cmp depth)
            (record {
              swaps = partition-Swaps cmp o.self depth;
              sorted = partition-IsSortedIn depth;
            })
            pivot (split.0) off (split.1 - off) n (omega arith)
            (subst (λ (m : ℕ). Halves cmp o pivot off (off + n) (split.0, m)) place halves))
  ]
