-- ===== src/Sort/Prefix.antt =====
-- The sort as a whole. What is left alone at the end of the array is in order, and not less than
-- what is sorted.
use maelys_datalog.Prelude.{
  ℕ, zero, suc, ◌+◌, ◌-◌, ◌/◌, ◌≤◌, ◌<◌, List, [], ◌∷◌, All, In, ◌↔◌, Ordering, ◌≡◌, inl, inr, refl,
  ap, subst, arith, Bool-cases, length, ltb, ◌==◌,
}
use maelys_datalog.Prelude.Compare.{IsOrder}
use maelys_datalog.Sort.{
  below, above, array_of, list_of, last_inversion, lower_bound, maximum_index, depth_budget,
  partition, unsorted_prefix, sort_array, sort,
}
use maelys_datalog.Sort.Membership.{In-sort}
use maelys_datalog.Sort.Ordered.{join-IsSortedIn, outside-IsSortedIn, partition-IsSortedIn}
use maelys_datalog.Sort.Parts.{partition-Swaps}
use maelys_datalog.Sort.Sorted.{
  Swaps-outside, Swaps-All, Le, IsSortedIn, Le_self, Le_trans, below_Le, below_not, above_not,
}
use maelys_datalog.Sort.Swapping.{Swaps}

module _ {A : Type 0} (cmp : A → A → Ordering) where
  -- No element is greater than a later one.
  abbrev pub IsSorted : List A → Type 0
  IsSorted [] = Unit
  IsSorted (x ∷ xs) = All (Le cmp x) xs × IsSorted xs

  All-list_of :
      (P : A → Type 0) (a : ℕ → A) (off n : ℕ)
      → ((k : ℕ) → off ≤ k → k < off + n → P (a k))
      → All P (list_of a off n)
  All-list_of P a off zero all = tt
  All-list_of P a off (suc n) all = (
    all off (omega arith) (omega arith),
    All-list_of P a (suc off) n (λ k p q. all k (omega arith) (omega arith)),
  )

  list_of-IsSorted :
      (a : ℕ → A) (off n : ℕ) → IsSortedIn cmp off (off + n) a → IsSorted (list_of a off n)
  list_of-IsSorted a off zero s = tt
  list_of-IsSorted a off (suc n) s = (
    All-list_of (Le cmp (a off)) a (suc off) n
        (λ k p q. s off k (omega arith) (omega arith) (omega arith)),
    list_of-IsSorted a (suc off) n (λ i k p q r. s i k (omega arith) q (omega arith)),
  )

module _ {A : Type 0} (cmp : A → A → Ordering) (o : IsOrder cmp) where
  -- From `r` on, no element is less than the one before it.
  abbrev Steps : ℕ → ℕ → (ℕ → A) → Type 0
  Steps r n a = (k : ℕ) → r ≤ k → 1 ≤ k → k < n → Le cmp (a (k - 1)) (a k)

  last_inversion-Steps :
      (left i : ℕ) (a : ℕ → A) (end n : ℕ)
      → n ≤ i + left
      → 1 ≤ i
      → Steps end i a
      → Steps (last_inversion cmp left i a end) n a
  unfolding last_inversion
  last_inversion-Steps zero i a end n e le s = λ k p q r. s k p q (omega arith)
  last_inversion-Steps (suc left) i a end n e le s =
      elim (Bool-cases (above cmp (a (i - 1)) (a i))) [
        | inl t ↦
            rw (t, last_inversion)
              (last_inversion-Steps left (suc i) a (i + 1) n (omega arith) (omega arith)
                (λ k p q r. absurd (omega arith)))
        | inr t ↦
            rw (t, last_inversion)
              (last_inversion-Steps left (suc i) a end n (omega arith) (omega arith) (λ k p q r.
                elim (Bool-cases (i == k)) [
                  | inl u ↦
                      let same : i ≡ k = ground arith in
                      subst (λ (j : ℕ). Le cmp (a (j - 1)) (a j)) same
                        (above_not cmp o (a (i - 1)) (a i) t)
                  | inr u ↦ s k p q (ground arith)
                ]))
      ]

  -- `far` places on.
  Steps-Le :
      (far r n : ℕ) (a : ℕ → A) (i : ℕ)
      → Steps r n a
      → r ≤ i
      → i + far < n
      → Le cmp (a i) (a (i + far))
  Steps-Le zero r n a i s le lt =
      let same : i ≡ i + 0 = omega arith in
      subst (λ (j : ℕ). Le cmp (a i) (a j)) same (Le_self cmp o (a i))
  Steps-Le (suc far) r n a i s le lt =
      let before : i + suc far - 1 ≡ i + far = omega arith in
      Le_trans cmp o (a i) (a (i + far)) (a (i + suc far)) (Steps-Le far r n a i s le (omega arith))
        (subst (λ (j : ℕ). Le cmp (a j) (a (i + suc far))) before
          (s (i + suc far) (omega arith) (omega arith) lt))

  Steps-IsSortedIn : (r n : ℕ) (a : ℕ → A) → Steps r n a → IsSortedIn cmp r n a
  Steps-IsSortedIn r n a s i k p q t =
      let far : i + (k - i) ≡ k = omega arith in
      subst (λ (j : ℕ). Le cmp (a i) (a j)) far (Steps-Le (k - i) r n a i s p (omega arith))

  maximum_index-Le :
      (left i : ℕ) (a : ℕ → A) (top n : ℕ)
      → n ≤ i + left
      → ((k : ℕ) → k < i → Le cmp (a k) (a top))
      → (k : ℕ) → k < n
      → Le cmp (a k) (a (maximum_index cmp left i a top))
  unfolding maximum_index
  maximum_index-Le zero i a top n e most k lt = most k (omega arith)
  maximum_index-Le (suc left) i a top n e most k lt = elim (Bool-cases (below cmp (a top) (a i))) [
    | inl t ↦
        rw (t, maximum_index)
          (maximum_index-Le left (suc i) a i n (omega arith)
            (λ j q. elim (Bool-cases (i == j)) [
              | inl u ↦
                  let same : i ≡ j = ground arith in
                  subst (λ (m : ℕ). Le cmp (a m) (a i)) same (Le_self cmp o (a i))
              | inr u ↦
                  Le_trans cmp o _ _ _ (most j (ground arith)) (below_Le cmp o (a top) (a i) t)
            ])
            k lt)
    | inr t ↦
        rw (t, maximum_index)
          (maximum_index-Le left (suc i) a top n (omega arith)
            (λ j q. elim (Bool-cases (i == j)) [
              | inl u ↦
                  let same : i ≡ j = ground arith in
                  subst (λ (m : ℕ). Le cmp (a m) (a top)) same (below_not cmp o (a top) (a i) t)
              | inr u ↦ most j (ground arith)
            ])
            k lt)
  ]

  -- Where the search ends, nothing is less than `top`.
  record Bounds (a : ℕ → A) (top : A) (low hi m : ℕ) : Type 0 where
    from : low ≤ m
    not_less : (k : ℕ) → m ≤ k → k < hi → Le cmp top (a k)

  lower_bound-Bounds :
      (fuel : ℕ) (a : ℕ → A) (top : A) (start low high hi : ℕ)
      → start ≤ low
      → low ≤ high
      → high ≤ low + fuel
      → high ≤ hi
      → IsSortedIn cmp start hi a
      → ((k : ℕ) → high ≤ k → k < hi → Le cmp top (a k))
      → Bounds a top start hi (lower_bound cmp fuel a top low high)
  unfolding lower_bound
  lower_bound-Bounds zero a top start low high hi p q r s sorted known = record {
    from = p;
    not_less = λ k u v. known k (omega arith) v;
  }
  lower_bound-Bounds (suc fuel) a top start low high hi p q r s sorted known =
      elim (Bool-cases (ltb low high)) [
        | inr t ↦
            let met : high ≤ low = ground arith in
            rw (t, lower_bound) (record { from = p; not_less = λ k u v. known k (omega arith) v })
        | inl t ↦
            let less : low < high = ground arith in
            let mid = low + (high - low) / 2 in
            elim (Bool-cases (below cmp (a (low + (high - low) / 2)) top)) [
              | inl u ↦
                  rw (t, lower_bound, u)
                    (lower_bound-Bounds fuel a top start (low + (high - low) / 2 + 1) high hi
                      (omega arith) (omega arith) (omega arith) s sorted known)
              | inr u ↦
                  rw (t, lower_bound, u)
                    (lower_bound-Bounds fuel a top start low (low + (high - low) / 2) hi p
                      (omega arith) (omega arith) (omega arith) sorted
                      (λ k v w.
                        Le_trans cmp o _ _ _ (below_not cmp o (a mid) top u)
                          (sorted mid k (omega arith) v w)))
            ]
      ]

  -- What stands from `m` on is not less than what stands before, and in order.
  record Cut (a : ℕ → A) (n m : ℕ) : Type 0 where
    sorted : IsSortedIn cmp m n a
    cross : (i k : ℕ) → i < m → m ≤ k → k < n → Le cmp (a i) (a k)

  unsorted_prefix-Cut :
      (a : ℕ → A) (n end : ℕ) → IsSortedIn cmp end n a → Cut a n (unsorted_prefix cmp a n end)
  unfolding unsorted_prefix
  unsorted_prefix-Cut a n end sorted = elim (Bool-cases (ltb end n)) [
    | inr t ↦ rw t (record {
      sorted = λ i k p q r. absurd (omega arith);
      cross = λ i k p q r. absurd (omega arith);
    })
    | inl t ↦
        let less : end < n = ground arith in
        let top = a (maximum_index cmp (end - 1) 1 a 0) in
        let b =
          lower_bound-Bounds n a top end end n n (omega arith) (omega arith) (omega arith)
            (omega arith) sorted (λ k p q. absurd (omega arith)) in
        let from = b.from in
        rw t (record {
          sorted = λ i k p q r. sorted i k (omega arith) q r;
          cross = λ i k p q r. elim (Bool-cases (ltb i end)) [
            | inl u ↦
                Le_trans cmp o _ _ _
                  (maximum_index-Le (end - 1) 1 a 0 end (ground arith)
                    (λ j v.
                      let same : 0 ≡ j = omega arith in
                      subst (λ (x : ℕ). Le cmp (a x) (a 0)) same (Le_self cmp o (a 0)))
                    i (ground arith))
                  (b.not_less k q r)
            | inr u ↦ sorted i k (ground arith) (omega arith) r
          ];
        })
  ]

  sort_array-IsSortedIn : (a : ℕ → A) (n : ℕ) → IsSortedIn cmp 0 n (sort_array cmp a n)
  unfolding sort_array
  sort_array-IsSortedIn a n =
      let end = last_inversion cmp (n - 1) 1 a 0 in
      let sorted = Steps-IsSortedIn end n a (
        last_inversion-Steps (n - 1) 1 a 0 n (omega arith) (omega arith)
          (λ k p q r. absurd (omega arith))) in
      elim (Bool-cases (end == 0)) [
        | inl t ↦
            let start : end ≡ 0 = ground arith in rw t (λ i k p q r. sorted i k (omega arith) q r)
        | inr t ↦
            let m = unsorted_prefix cmp a n end in
            let cut = unsorted_prefix-Cut a n end sorted in
            let b = partition cmp (depth_budget cmp m m) a 0 m in
            let zero_m : 0 + m ≡ m = omega arith in
            let swaps : Swaps 0 m a b =
              subst (λ (h : ℕ). Swaps 0 h a b) zero_m
                (partition-Swaps cmp o.self (depth_budget cmp m m) a 0 m) in
            rw t (
              join-IsSortedIn cmp b 0 m n
                (λ i k p q r.
                  partition-IsSortedIn cmp o (depth_budget cmp m m) a 0 m i k p q (omega arith))
                (outside-IsSortedIn cmp a b 0 m m n swaps (inr (omega arith)) cut.sorted)
                (λ i k p q r s. rw (Swaps-outside 0 m a b k swaps (inr r)) (
                  Swaps-All (λ x. Le cmp x (a k)) 0 m a b swaps (λ j w. cut.cross j k w.1 r s) i
                    (p, q))))
      ]

  -- The sorted list is in order.
  pub sort-IsSorted : (xs : List A) → IsSorted cmp (sort cmp xs)
  unfolding sort
  sort-IsSorted [] = tt
  sort-IsSorted (x ∷ xs) =
      let n = length (x ∷ xs) in
      let b = sort_array cmp (array_of x (x ∷ xs)) n in
      let sorted = sort_array-IsSortedIn (array_of x (x ∷ xs)) n in
      list_of-IsSorted cmp b 0 n (λ i k p q r. sorted i k p q (omega arith))

  length-list_of : (a : ℕ → A) (off n : ℕ) → length (list_of a off n) ≡ n
  length-list_of a off zero = refl
  length-list_of a off (suc n) = ap suc (length-list_of a (suc off) n)

  length-sort : (xs : List A) → length (sort cmp xs) ≡ length xs
  unfolding sort
  length-sort [] = refl
  length-sort (x ∷ xs) =
      length-list_of (sort_array cmp (array_of x (x ∷ xs)) (length (x ∷ xs))) 0 (length (x ∷ xs))

  -- Under an order, the sorted list is in order, is as long as the given one, and has the same
  -- elements.
  pub sort_lem :
      (xs : List A)
      → IsSorted cmp (sort cmp xs)
        × (length (sort cmp xs) ≡ length xs)
        × ((x : A) → In x (sort cmp xs) ↔ In x xs)
  sort_lem xs = (sort-IsSorted xs, length-sort xs, In-sort cmp o.self xs)
