-- ===== src/Sort/Parts.antt =====
-- The split around a pivot, whose two scans stay within the array, and the partition as a whole.
use maelys_datalog.Prelude.{
  ℕ, zero, suc, ◌+◌, ◌-◌, ◌/◌, ◌≤◌, ◌<◌, Bool, true, false, Ordering, ◌≡◌, ◌≢◌, inl, inr, refl, sym,
  subst, arith, Bool-cases, ltb, leb,
}
use maelys_datalog.Sort.{
  swap, below, above, median, scan_up, scan_down, split_loop, insertion, two_parts, partition,
}
use maelys_datalog.Sort.Swapping.{
  swap_left, swap_right, Swaps, done, next, Swaps-trans, Swaps-wider, heap-Swaps, order_pair-Swaps,
  insertion-Swaps,
}

module _ {A : Type 0} (cmp : A → A → Ordering) where
  -- A scan stops at the latest where an element stops it.
  pub record Stops (test : A → Bool) (a : ℕ → A) (lo hi r : ℕ) : Type 0 where
    pub from : lo ≤ r
    pub to : r ≤ hi
    pub stop : test (a r) ≡ false

  pub scan_up-Stops :
      (fuel : ℕ) (a : ℕ → A) (pivot : A) (lo k : ℕ)
      → lo ≤ k
      → k < lo + fuel
      → below cmp (a k) pivot ≡ false
      → Stops (λ x. below cmp x pivot) a lo k (scan_up cmp fuel a pivot lo)
  unfolding scan_up
  scan_up-Stops zero a pivot lo k le lt h = absurd (omega arith)
  scan_up-Stops (suc fuel) a pivot lo k le lt h = elim (Bool-cases (below cmp (a lo) pivot)) [
    | inr t ↦ rw (t, scan_up) (record { from = omega arith; to = le; stop = t })
    | inl t ↦
        let further : lo ≢ k = λ e. cc (subst (λ (i : ℕ). below cmp (a i) pivot ≡ true) e t, h) in
        let r = scan_up-Stops fuel a pivot (lo + 1) k (omega arith) (omega arith) h in
        rw (t, scan_up)
          (let from = r.from in record { from = omega arith; to = r.to; stop = r.stop })
  ]

  pub scan_down-Stops :
      (fuel : ℕ) (a : ℕ → A) (pivot : A) (hi k : ℕ)
      → k ≤ hi
      → hi < k + fuel
      → above cmp (a k) pivot ≡ false
      → Stops (λ x. above cmp x pivot) a k hi (scan_down cmp fuel a pivot hi)
  unfolding scan_down
  scan_down-Stops zero a pivot hi k le lt h = absurd (omega arith)
  scan_down-Stops (suc fuel) a pivot hi k le lt h = elim (Bool-cases (above cmp (a hi) pivot)) [
    | inr t ↦ rw (t, scan_down) (record { from = le; to = omega arith; stop = t })
    | inl t ↦
        let further : hi ≢ k = λ e. cc (subst (λ (i : ℕ). above cmp (a i) pivot ≡ true) e t, h) in
        let r = scan_down-Stops fuel a pivot (hi - 1) k (omega arith) (omega arith) h in
        rw (t, scan_down)
          (let to = r.to in record { from = r.from; to = omega arith; stop = r.stop })
  ]

  -- The array that the split leaves, and where it splits.
  pub record Splits (a : ℕ → A) (off n : ℕ) (r : (ℕ → A) × ℕ) : Type 0 where
    pub swaps : Swaps off (off + n) a (r.0)
    pub from : off ≤ r.1
    pub to : r.1 ≤ off + n

  pub split_loop-Splits :
      (fuel n : ℕ) (a : ℕ → A) (pivot : A) (off lo hi k m : ℕ)
      → off ≤ lo
      → lo ≤ k
      → k < off + n
      → below cmp (a k) pivot ≡ false
      → off ≤ m
      → m ≤ hi
      → hi < off + n
      → above cmp (a m) pivot ≡ false
      → Splits a off n (split_loop cmp fuel n a pivot lo hi)
  unfolding split_loop
  split_loop-Splits zero n a pivot off lo hi k m p q r s t u v w = record {
    swaps = done;
    from = p;
    to = omega arith;
  }
  split_loop-Splits (suc fuel) n a pivot off lo hi k m p q r s t u v w =
      let up = scan_up cmp n a pivot lo in
      let down = scan_down cmp n a pivot hi in
      let stop_up = scan_up-Stops n a pivot lo k q (omega arith) s in
      let stop_down = scan_down-Stops n a pivot hi m u (omega arith) w in
      let up_from : lo ≤ up = stop_up.from in
      let up_to : up ≤ k = stop_up.to in
      let down_from : m ≤ down = stop_down.from in
      let down_to : down ≤ hi = stop_down.to in
      elim (Bool-cases (leb down up)) [
        | inl x ↦ rw (x, split_loop) (record { swaps = done; from = omega arith; to = omega arith })
        | inr x ↦
            let lt : up < down = ground arith in
            let rest =
              split_loop-Splits fuel n (swap a up down) pivot off (up + 1) (down - 1) down up
                (omega arith) (omega arith) (omega arith)
                (subst (λ y. below cmp y pivot ≡ false) (sym (swap_right a up down)) stop_up.stop)
                (omega arith) (omega arith) (omega arith)
                (subst (λ y. above cmp y pivot ≡ false)
                  (sym (swap_left a up down (λ e. omega arith))) stop_down.stop) in
            rw (x, split_loop)
              (record {
                swaps = Swaps-trans (next up down (omega arith) (omega arith) done) rest.swaps;
                from = rest.from;
                to = rest.to;
              })
      ]

  pub median-Swaps : (a : ℕ → A) (off n : ℕ) → 16 < n → Swaps off (off + n) a (median cmp a off n)
  unfolding median
  median-Swaps a off n lt =
      Swaps-trans
        (Swaps-trans
          (order_pair-Swaps cmp a off (off + n) off (off + n / 2) (omega arith) (omega arith))
          (order_pair-Swaps cmp _ off (off + n) (off + n / 2) (off + (n - 1)) (omega arith)
            (omega arith)))
        (order_pair-Swaps cmp _ off (off + n) off (off + n / 2) (omega arith) (omega arith))

  module _ (reflexive : (x : A) → cmp x x ≡ Ordering.eq) where
    insertion-zero : (a : ℕ → A) (off : ℕ) → Swaps off (off + 0) a (insertion cmp (0 - 1) 1 a off)
    unfolding insertion
    insertion-zero a off = done

    two_parts-Swaps :
        (sort_part : (ℕ → A) → ℕ → ℕ → ℕ → A)
        → ((a : ℕ → A) (off n : ℕ) → Swaps off (off + n) a (sort_part a off n))
        → (a : ℕ → A) (off lo n : ℕ) → lo ≤ n
        → Swaps off (off + n) a (two_parts cmp sort_part a off lo n)
    two_parts-Swaps sort_part ih a off lo n le = elim (Bool-cases (ltb lo (n - lo))) [
      | inl t ↦ rw t (
          Swaps-trans (Swaps-wider off (off + n) (omega arith) (omega arith) (ih a off lo))
            (Swaps-wider off (off + n) (omega arith) (omega arith) (ih _ (off + lo) (n - lo))))
      | inr t ↦ rw t (
          Swaps-trans
            (Swaps-wider off (off + n) (omega arith) (omega arith) (ih a (off + lo) (n - lo)))
            (Swaps-wider off (off + n) (omega arith) (omega arith) (ih _ off lo)))
    ]

    small : (a : ℕ → A) (off n : ℕ) → Swaps off (off + n) a (insertion cmp (n - 1) 1 a off)
    small a off zero = insertion-zero a off
    small a off (suc n) = insertion-Swaps cmp (suc n - 1) 1 a off (suc n) (omega arith)

    pub partition-Swaps :
        (depth : ℕ) (a : ℕ → A) (off n : ℕ) → Swaps off (off + n) a (partition cmp depth a off n)
    unfolding partition
    partition-Swaps zero a off n = elim (Bool-cases (ltb 16 n)) [
      | inl t ↦ rw (t, partition) (heap-Swaps cmp a off n)
      | inr t ↦ rw (t, partition) (small a off n)
    ]
    partition-Swaps (suc depth) a off n = elim (Bool-cases (ltb 16 n)) [
      | inr t ↦ rw (t, partition) (small a off n)
      | inl t ↦
          let many : 16 < n = ground arith in
          let b = median cmp a off n in
          let pivot = b (off + n / 2) in
          let same = reflexive pivot in
          let s =
            split_loop-Splits n n b pivot off off (off + (n - 1)) (off + n / 2) (off + n / 2)
              (omega arith) (omega arith) (omega arith) (rw (same, below) refl) (omega arith)
              (omega arith) (omega arith) (rw (same, above) refl) in
          let from = s.from in
          let to = s.to in
          rw (t, partition)
            (Swaps-trans (Swaps-trans (median-Swaps a off n many) s.swaps) (
              two_parts-Swaps (partition cmp depth) (partition-Swaps depth) _ off _ n
                (omega arith)))
    ]
