-- ===== src/Sort/Split.antt =====
-- The split of a range: what stands before the place that it ends with is not greater than the
-- pivot, and what stands behind is not less.
use maelys_datalog.Prelude.{
  ℕ, zero, suc, ◌+◌, ◌-◌, ◌≤◌, ◌<◌, false, Ordering, ◌≡◌, inl, inr, sym, subst, arith, Bool-cases,
  leb, ◌==◌,
}
use maelys_datalog.Prelude.Compare.{IsOrder}
use maelys_datalog.Sort.{swap, below, above, scan_up, scan_down, split_loop}
use maelys_datalog.Sort.Parts.{scan_up-Stops, scan_down-Stops}
use maelys_datalog.Sort.Sorted.{swap-elim, Le, below_Le, below_not, above_Le, above_not}
use maelys_datalog.Sort.Swapping.{swap_left, swap_right}

module _ {A : Type 0} (cmp : A → A → Ordering) (o : IsOrder cmp) where
  at : (a : ℕ → A) (P : A → Type 0) (i j : ℕ) → i ≡ j → P (a i) → P (a j)
  at a P i j e h = subst (λ (k : ℕ). P (a k)) e h

  scan_up-Le :
      (fuel : ℕ) (a : ℕ → A) (pivot : A) (lo i : ℕ)
      → lo ≤ i
      → i < scan_up cmp fuel a pivot lo
      → Le cmp (a i) pivot
  unfolding scan_up
  scan_up-Le zero a pivot lo i le lt = absurd (omega arith)
  scan_up-Le (suc fuel) a pivot lo i le lt = elim (Bool-cases (below cmp (a lo) pivot)) [
    | inr t ↦ let none_left : i < lo = rw (t, scan_up) at lt in absurd (omega arith)
    | inl t ↦ elim (Bool-cases (lo == i)) [
      | inl u ↦ at a (λ x. Le cmp x pivot) lo i (ground arith) (below_Le cmp o (a lo) pivot t)
      | inr u ↦
          let further : i < scan_up cmp fuel a pivot (lo + 1) = rw (t, scan_up) at lt in
          scan_up-Le fuel a pivot (lo + 1) i (ground arith) further
    ]
  ]

  scan_down-Le :
      (fuel : ℕ) (a : ℕ → A) (pivot : A) (hi i : ℕ)
      → scan_down cmp fuel a pivot hi < i
      → i ≤ hi
      → Le cmp pivot (a i)
  unfolding scan_down
  scan_down-Le zero a pivot hi i lt le = absurd (omega arith)
  scan_down-Le (suc fuel) a pivot hi i lt le = elim (Bool-cases (above cmp (a hi) pivot)) [
    | inr t ↦ let none_left : hi < i = rw (t, scan_down) at lt in absurd (omega arith)
    | inl t ↦ elim (Bool-cases (hi == i)) [
      | inl u ↦ at a (Le cmp pivot) hi i (ground arith) (above_Le cmp o (a hi) pivot t)
      | inr u ↦
          let further : scan_down cmp fuel a pivot (hi - 1) < i = rw (t, scan_down) at lt in
          scan_down-Le fuel a pivot (hi - 1) i further (ground arith)
    ]
  ]

  -- What the split leaves.
  pub record Halves (pivot : A) (off hi : ℕ) (r : (ℕ → A) × ℕ) : Type 0 where
    pub left : (i : ℕ) → off ≤ i → i < r.1 → Le cmp (r.0 i) pivot
    pub right : (i : ℕ) → r.1 ≤ i → i < hi → Le cmp pivot (r.0 i)

  pub split_loop-Halves :
      (fuel n : ℕ) (a : ℕ → A) (pivot : A) (off lo hi k m : ℕ)
      → off ≤ lo
      → lo ≤ k
      → k < off + n
      → below cmp (a k) pivot ≡ false
      → off ≤ m
      → m ≤ hi
      → hi < off + n
      → above cmp (a m) pivot ≡ false
      → hi < lo + fuel
      → ((i : ℕ) → off ≤ i → i < lo → Le cmp (a i) pivot)
      → ((i : ℕ) → hi < i → i < off + n → Le cmp pivot (a i))
      → Halves pivot off (off + n) (split_loop cmp fuel n a pivot lo hi)
  unfolding split_loop
  split_loop-Halves zero n a pivot off lo hi k m p q r s t u v w enough left right = record {
    left = left;
    right = λ i x y. right i (omega arith) y;
  }
  split_loop-Halves (suc fuel) n a pivot off lo hi k m p q r s t u v w enough left right =
      let up = scan_up cmp n a pivot lo in
      let down = scan_down cmp n a pivot hi in
      let stop_up = scan_up-Stops cmp n a pivot lo k q (omega arith) s in
      let stop_down = scan_down-Stops cmp n a pivot hi m u (omega arith) w in
      let up_from : lo ≤ up = stop_up.from in
      let up_to : up ≤ k = stop_up.to in
      let down_from : m ≤ down = stop_down.from in
      let down_to : down ≤ hi = stop_down.to in
      let passed_left : (i : ℕ) → off ≤ i → i < up → Le cmp (a i) pivot = λ i x y.
        elim (Bool-cases (leb lo i)) [
          | inl z ↦ scan_up-Le n a pivot lo i (ground arith) y
          | inr z ↦ left i x (ground arith)
        ] in
      let passed_right : (i : ℕ) → down < i → i < off + n → Le cmp pivot (a i) = λ i x y.
        elim (Bool-cases (leb i hi)) [
          | inl z ↦ scan_down-Le n a pivot hi i x (ground arith)
          | inr z ↦ right i (ground arith) y
        ] in
      let at_up : Le cmp pivot (a up) = below_not cmp o (a up) pivot stop_up.stop in
      let at_down : Le cmp (a down) pivot = above_not cmp o (a down) pivot stop_down.stop in
      elim (Bool-cases (leb down up)) [
        | inl x ↦
            let met : down ≤ up = ground arith in
            rw (x, split_loop)
              (record {
                left = passed_left;
                right = λ i y z. elim (Bool-cases (up == i)) [
                  | inl e ↦ at a (Le cmp pivot) up i (ground arith) at_up
                  | inr e ↦ passed_right i (ground arith) z
                ];
              })
        | inr x ↦
            let lt : up < down = ground arith in
            rw (x, split_loop)
              (split_loop-Halves fuel n (swap a up down) pivot off (up + 1) (down - 1) down up
                (omega arith) (omega arith) (omega arith)
                (subst (λ y. below cmp y pivot ≡ false) (sym (swap_right a up down)) stop_up.stop)
                (omega arith) (omega arith) (omega arith)
                (subst (λ y. above cmp y pivot ≡ false)
                  (sym (swap_left a up down (λ e. omega arith))) stop_down.stop)
                (omega arith)
                (λ i y z.
                  swap-elim (λ b. Le cmp b pivot) a up down i (λ e. absurd (omega arith))
                    (λ e f. at_down) (λ e f. passed_left i y (omega arith)))
                (λ i y z.
                  swap-elim (Le cmp pivot) a up down i (λ e. at_up) (λ e f. absurd (omega arith))
                    (λ e f. passed_right i (omega arith) z)))
      ]
