-- ===== src/Sort/Membership.antt =====
-- The sort keeps the elements: what stands in the sorted list stands in the list, and back.
use maelys_datalog.Prelude.{
  ℕ, zero, suc, ◌+◌, ◌-◌, ◌/◌, ◌≤◌, ◌<◌, false, List, [], ◌∷◌, Ordering, ◌≡◌, ◌≢◌, ◌↔◌, inl, inr,
  refl, sym, ◌∙◌, ap, subst, arith, Bool-cases, length, ltb, ◌==◌, In,
}
use maelys_datalog.Sort.{
  swap, below, array_of, list_of, last_inversion, lower_bound, depth_budget, unsorted_prefix,
  sort_array, sort,
}
use maelys_datalog.Sort.Swapping.{Within, Swaps, Swaps-wider, done, next, swap_left, swap_right}
use maelys_datalog.Sort.Parts.{partition-Swaps}

module _ {A : Type 0} where
  -- The element stands in the range.
  abbrev Occurs : ℕ → ℕ → (ℕ → A) → A → Type 0
  Occurs lo hi a x = (k : ℕ) × Within lo hi k × (a k ≡ x)

  swap_other : (a : ℕ → A) (i j k : ℕ) → i ≢ k → j ≢ k → swap a i j k ≡ a k
  unfolding swap
  swap_other a i j k p q =
      let one : (i == k) ≡ false = ground arith in
      let two : (j == k) ≡ false = ground arith in rw (two, one) refl

  -- Where an exchange finds its elements.
  swap-Occurs :
      (b : ℕ → A) (lo hi i j : ℕ) (x : A)
      → Within lo hi i
      → Within lo hi j
      → Occurs lo hi (swap b i j) x ↔ Occurs lo hi b x
  swap-Occurs b lo hi i j x p q = (
    λ (k, w, e). elim (Bool-cases (j == k)) [
      | inl t ↦
          let same : j ≡ k = ground arith in
          (i, p, sym (swap_right b i j) ∙ ap (swap b i j) same ∙ e)
      | inr t ↦ elim (Bool-cases (i == k)) [
        | inl u ↦
            let same : i ≡ k = ground arith in
            (j, q, sym (swap_left b i j (λ f. ground arith)) ∙ ap (swap b i j) same ∙ e)
        | inr u ↦ (k, w, sym (swap_other b i j k (λ f. ground arith) (λ f. ground arith)) ∙ e)
      ]
    ],
    λ (k, w, e). elim (Bool-cases (i == k)) [
      | inl t ↦ let same : i ≡ k = ground arith in (j, q, swap_right b i j ∙ ap b same ∙ e)
      | inr t ↦ elim (Bool-cases (j == k)) [
        | inl u ↦
            let same : j ≡ k = ground arith in
            (i, p, swap_left b i j (λ f. ground arith) ∙ ap b same ∙ e)
        | inr u ↦ (k, w, swap_other b i j k (λ f. ground arith) (λ f. ground arith) ∙ e)
      ]
    ],
  )

  Swaps-Occurs :
      (lo hi : ℕ) (a b : ℕ → A) (x : A) → Swaps lo hi a b → Occurs lo hi b x ↔ Occurs lo hi a x
  Swaps-Occurs lo hi a b x done = (λ o. o, λ o. o)
  Swaps-Occurs lo hi a _ x (next {b} i j p q s) =
      let step = swap-Occurs b lo hi i j x p q in
      let rest = Swaps-Occurs lo hi a b x s in (λ o. rest.0 (step.0 o), λ o. step.1 (rest.1 o))

  list_of-Occurs :
      (a : ℕ → A) (off n : ℕ) (x : A) → In x (list_of a off n) ↔ Occurs off (off + n) a x
  list_of-Occurs a off zero x = (λ m. absurd m, λ (k, w, e). absurd (omega arith))
  list_of-Occurs a off (suc n) x =
      let rest = list_of-Occurs a (suc off) n x in
      (
        λ m. elim m [
          | inl e ↦ (off, (omega arith, omega arith), sym e)
          | inr m ↦ let (k, w, e) = rest.0 m in (k, (omega arith, omega arith), e)
        ],
        λ (k, w, e). elim (Bool-cases (off == k)) [
          | inl t ↦ let same : off ≡ k = ground arith in inl (sym (ap a same ∙ e))
          | inr t ↦
              let later : suc off ≤ k = ground arith in inr (rest.1 (k, (later, omega arith), e))
        ],
      )

  from_place :
      (d y : A) (ys : List A) (x : A)
      → (Occurs 0 (length ys) (array_of d ys) x → In x ys)
      → (k : ℕ) → k < suc (length ys)
      → array_of d (y ∷ ys) k ≡ x
      → In x (y ∷ ys)
  from_place d y ys x rest zero lt e = inl (sym e)
  from_place d y ys x rest (suc k) lt e = inr (rest (k, (omega arith, omega arith), e))

  array_of-Occurs : (d : A) (xs : List A) (x : A) → Occurs 0 (length xs) (array_of d xs) x ↔ In x xs
  array_of-Occurs d [] x = (λ (k, w, e). absurd (omega arith), λ m. absurd m)
  array_of-Occurs d (y ∷ ys) x =
      let rest = array_of-Occurs d ys x in
      (
        λ (k, w, e). from_place d y ys x rest.0 k w.1 e,
        λ m. elim m [
          | inl e ↦ (0, (omega arith, omega arith), sym e)
          | inr m ↦ let (k, w, e) = rest.1 m in (suc k, (omega arith, omega arith), e)
        ],
      )

module _ {A : Type 0} (cmp : A → A → Ordering) where
  lower_bound_le :
      (fuel : ℕ) (a : ℕ → A) (top : A) (low high : ℕ)
      → low ≤ high
      → lower_bound cmp fuel a top low high ≤ high
  unfolding lower_bound
  lower_bound_le zero a top low high le = le
  lower_bound_le (suc fuel) a top low high le = elim (Bool-cases (ltb low high)) [
    | inr t ↦ rw (t, lower_bound) le
    | inl t ↦
        let less : low < high = ground arith in
        elim (Bool-cases (below cmp (a (low + (high - low) / 2)) top)) [
          | inl u ↦
              rw (t, lower_bound, u)
                (lower_bound_le fuel a top (low + (high - low) / 2 + 1) high (omega arith))
          | inr u ↦
              let ih = lower_bound_le fuel a top low (low + (high - low) / 2) (omega arith) in
              rw (t, lower_bound, u) (omega arith)
        ]
  ]

  unsorted_prefix_le : (a : ℕ → A) (n end : ℕ) → unsorted_prefix cmp a n end ≤ n
  unfolding unsorted_prefix
  unsorted_prefix_le a n end = elim (Bool-cases (ltb end n)) [
    | inl t ↦ let less : end < n = ground arith in rw t (lower_bound_le n a _ end n (omega arith))
    | inr t ↦ rw t (omega arith)
  ]

  sort_array-Occurs :
      ((x : A) → cmp x x ≡ Ordering.eq)
      → (a : ℕ → A) (n : ℕ) (x : A) → Occurs 0 n (sort_array cmp a n) x ↔ Occurs 0 n a x
  unfolding sort_array
  sort_array-Occurs reflexive a n x =
      let end = last_inversion cmp (n - 1) 1 a 0 in
      let m = unsorted_prefix cmp a n end in
      let le : m ≤ n = unsorted_prefix_le a n end in
      elim (Bool-cases (end == 0)) [
        | inl t ↦ rw t (λ o. o, λ o. o)
        | inr t ↦
            let swaps = partition-Swaps cmp reflexive (depth_budget cmp m m) a 0 m in
            rw t (Swaps-Occurs 0 n a _ x (Swaps-wider 0 n (omega arith) (omega arith) swaps))
      ]

  -- Where every element is equal to itself, what is sorted has the elements that were given.
  pub In-sort :
      ((x : A) → cmp x x ≡ Ordering.eq) → (xs : List A) (x : A) → In x (sort cmp xs) ↔ In x xs
  unfolding sort
  In-sort reflexive [] x = (λ m. m, λ m. m)
  In-sort reflexive (d ∷ xs) x =
      let n = length (d ∷ xs) in
      let places = array_of-Occurs d (d ∷ xs) x in
      let sorted = sort_array-Occurs reflexive (array_of d (d ∷ xs)) n x in
      let b = sort_array cmp (array_of d (d ∷ xs)) n in
      let from_start : 0 + n ≡ n = omega arith in
      let listed =
        subst (λ (h : ℕ). In x (list_of b 0 n) ↔ Occurs 0 h b x) from_start
          (list_of-Occurs b 0 n x) in
      (λ m. places.0 (sorted.0 (listed.0 m)), λ m. listed.1 (sorted.1 (places.1 m)))
