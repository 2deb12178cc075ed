-- ===== src/Sort/Swapping.antt =====
-- Arrays that differ by exchanges of elements within a range, and the parts of the sort that move
-- a hole through the array: every move is an exchange in the array whose hole is filled.
use mathlib.Core.Path.{fun_ext}
use maelys_datalog.Prelude.{
  ℕ, zero, suc, ◌+◌, ◌*◌, ◌/◌, ◌≤◌, ◌<◌, true, false, ◌&&◌, Ordering, ◌≡◌, ◌≢◌, inl, inr, refl, ap,
  subst, arith, Bool-cases, ltb, ◌==◌, and_true,
}
use maelys_datalog.Sort.{
  put, swap, below, above, larger_child, sift, heapify, extract, heap, order_pair, shift, insertion,
}

-- The place lies in the range.
abbrev pub Within : ℕ → ℕ → ℕ → Type 0
Within lo hi i = (lo ≤ i) × (i < hi)

module _ {A : Type 0} where
  pub data Swaps (lo hi : ℕ) (a : ℕ → A) : (ℕ → A) → Type 0 where
    done : Swaps lo hi a a
    next :
        {b : ℕ → A} (i j : ℕ)
        → Within lo hi i
        → Within lo hi j
        → Swaps lo hi a b
        → Swaps lo hi a (swap b i j)

  pub Swaps-trans :
      {lo hi : ℕ} {a b c : ℕ → A} → Swaps lo hi a b → Swaps lo hi b c → Swaps lo hi a c
  Swaps-trans s done = s
  Swaps-trans s (next i j p q t) = next i j p q (Swaps-trans s t)

  -- A range that holds the first.
  pub Swaps-wider :
      {lo hi : ℕ} {a b : ℕ → A} (l h : ℕ) → l ≤ lo → hi ≤ h → Swaps lo hi a b → Swaps l h a b
  Swaps-wider l h p q done = done
  Swaps-wider l h p q (next i j u v t) =
      next i j (omega arith) (omega arith) (Swaps-wider l h p q t)

  pub put_self : (a : ℕ → A) (i : ℕ) → put a i (a i) ≡ a
  put_self a i = fun_ext λ k. elim (Bool-cases (i == k)) [
    | inl e ↦ rw e (let same : i ≡ k = ground arith in ap a same)
    | inr e ↦ rw e refl
  ]

  -- The hole moves from `i` to `j`.
  put-put : (a : ℕ → A) (i j : ℕ) (v : A) → i ≢ j → put (put a i (a j)) j v ≡ swap (put a i v) i j
  unfolding swap
  put-put a i j v ne = fun_ext λ k. elim (Bool-cases (j == k)) [
    | inl e ↦ let self : (i == i) ≡ true = ground arith in rw (e, self) refl
    | inr e ↦ elim (Bool-cases (i == k)) [
      | inl f ↦ let other : (i == j) ≡ false = ground arith in rw (e, f, other) refl
      | inr f ↦ rw (e, f) refl
    ]
  ]

  -- The hole at `i` is filled by the element at `j`, and the rest goes on with the hole there.
  pub hole-Swaps :
      {lo hi : ℕ} {b : ℕ → A} (a : ℕ → A) (i j : ℕ) (v : A)
      → i ≢ j
      → Within lo hi i
      → Within lo hi j
      → Swaps lo hi (put (put a i (a j)) j v) b
      → Swaps lo hi (put a i v) b
  hole-Swaps {lo} {hi} {b} a i j v ne p q s =
      Swaps-trans (next i j p q done) (subst (λ c. Swaps lo hi c b) (put-put a i j v ne) s)

  pub swap_left : (a : ℕ → A) (i j : ℕ) → i ≢ j → swap a i j i ≡ a j
  unfolding swap
  swap_left a i j ne =
      let other : (j == i) ≡ false = ground arith in
      let self : (i == i) ≡ true = ground arith in rw (other, self) refl

  pub swap_right : (a : ℕ → A) (i j : ℕ) → swap a i j j ≡ a i
  unfolding swap
  swap_right a i j = let self : (j == j) ≡ true = ground arith in rw self refl

module _ {A : Type 0} (cmp : A → A → Ordering) where
  child_within :
      (a : ℕ → A) (off root n : ℕ)
      → ltb root (n / 2) ≡ true
      → (root < larger_child cmp a off root n) × (larger_child cmp a off root n < n)
  unfolding larger_child
  child_within a off root n h =
      elim (Bool-cases
        (ltb (root * 2 + 2) n && below cmp (a (off + (root * 2 + 1))) (a (off + (root * 2 + 2))))) [
          | inl t ↦
              let lt =
                (and_true (ltb (root * 2 + 2) n)
                  (below cmp (a (off + (root * 2 + 1))) (a (off + (root * 2 + 2)))) t).0 in
              rw t (ground arith)
          | inr t ↦ rw t (ground arith)
        ]

  pub sift-Swaps :
      (fuel : ℕ) (a : ℕ → A) (off root n : ℕ) (v : A)
      → root < n
      → Swaps off (off + n) (put a (off + root) v) (sift cmp fuel a off root n v)
  unfolding sift
  sift-Swaps zero a off root n v lt = done
  sift-Swaps (suc fuel) a off root n v lt = elim (Bool-cases (ltb root (n / 2))) [
    | inr t ↦ rw (t, sift) done
    | inl t ↦ elim (Bool-cases (below cmp v (a (off + larger_child cmp a off root n)))) [
      | inr u ↦ rw (t, sift, u) done
      | inl u ↦
          let within = child_within a off root n t in
          let c = larger_child cmp a off root n in
          rw (t, sift, u)
            (hole-Swaps a (off + root) (off + c) v (λ e. omega arith) (omega arith) (omega arith)
              (sift-Swaps fuel (put a (off + root) (a (off + c))) off c n v within.1))
    ]
  ]

  -- A sift of the element that stands at the root.
  pub sift_root :
      (a : ℕ → A) (fuel off root n : ℕ)
      → root < n
      → Swaps off (off + n) a (sift cmp fuel a off root n (a (off + root)))
  sift_root a fuel off root n lt =
      subst (λ c. Swaps off (off + n) c (sift cmp fuel a off root n (a (off + root))))
        (put_self a (off + root)) (sift-Swaps fuel a off root n (a (off + root)) lt)

  heapify-Swaps :
      (i : ℕ) (a : ℕ → A) (off n : ℕ) → i ≤ n → Swaps off (off + n) a (heapify cmp i a off n)
  unfolding heapify
  heapify-Swaps zero a off n le = done
  heapify-Swaps (suc i) a off n le =
      Swaps-trans (sift_root a n off i n (omega arith)) (heapify-Swaps i _ off n (omega arith))

  extract-Swaps : (n : ℕ) (a : ℕ → A) (off : ℕ) → Swaps off (off + n) a (extract cmp n a off)
  unfolding extract
  extract-Swaps zero a off = done
  extract-Swaps (suc zero) a off = done
  extract-Swaps (suc (suc k)) a off =
      let b = swap a off (off + suc k) in
      let sifted : Swaps off (off + suc k) b (sift cmp (suc k) b off 0 (suc k) (b off)) =
        subst (λ (i : ℕ). Swaps off (off + suc k) b (sift cmp (suc k) b off 0 (suc k) (b i)))
          (omega arith) (sift_root b (suc k) off 0 (suc k) (omega arith)) in
      Swaps-trans (next off (off + suc k) (omega arith) (omega arith) done) (
        Swaps-wider off (off + suc (suc k)) (omega arith) (omega arith)
          (Swaps-trans sifted (extract-Swaps (suc k) _ off)))

  pub heap-Swaps : (a : ℕ → A) (off n : ℕ) → Swaps off (off + n) a (heap cmp a off n)
  unfolding heap
  heap-Swaps a off n =
      Swaps-trans (heapify-Swaps (n / 2) a off n (omega arith)) (extract-Swaps n _ off)

  pub order_pair-Swaps :
      (a : ℕ → A) (lo hi i j : ℕ)
      → Within lo hi i
      → Within lo hi j
      → Swaps lo hi a (order_pair cmp a i j)
  unfolding order_pair
  order_pair-Swaps a lo hi i j p q = elim (Bool-cases (above cmp (a i) (a j))) [
    | inl t ↦ rw t (next i j p q done)
    | inr t ↦ rw t done
  ]

  pub shift-Swaps :
      (j : ℕ) (a : ℕ → A) (off n : ℕ) (v : A)
      → j < n
      → Swaps off (off + n) (put a (off + j) v) (shift cmp j a off v)
  unfolding shift
  shift-Swaps zero a off n v lt =
      subst (λ (i : ℕ). Swaps off (off + n) (put a i v) (put a off v)) (omega arith) done
  shift-Swaps (suc j) a off n v lt = elim (Bool-cases (below cmp v (a (off + j)))) [
    | inr t ↦ rw (t, shift) done
    | inl t ↦
        rw (t, shift)
          (hole-Swaps a (off + suc j) (off + j) v (λ e. omega arith) (omega arith) (omega arith)
            (shift-Swaps j (put a (off + suc j) (a (off + j))) off n v (omega arith)))
  ]

  pub insertion-Swaps :
      (left i : ℕ) (a : ℕ → A) (off n : ℕ)
      → i + left ≤ n
      → Swaps off (off + n) a (insertion cmp left i a off)
  unfolding insertion
  insertion-Swaps zero i a off n le = done
  insertion-Swaps (suc left) i a off n le =
      Swaps-trans
        (subst (λ c. Swaps off (off + n) c (shift cmp i a off (a (off + i)))) (put_self a (off + i))
          (shift-Swaps i a off n (a (off + i)) (omega arith)))
        (insertion-Swaps left (suc i) _ off n (omega arith))
