-- ===== src/Sort/Insertion.antt =====
-- The insertion sort of a range puts it in order.
use maelys_datalog.Prelude.{
  ℕ, zero, suc, ◌+◌, ◌-◌, ◌≤◌, ◌<◌, Ordering, ◌≡◌, inl, inr, sym, subst, arith, Bool-cases,
}
use maelys_datalog.Prelude.Compare.{IsOrder}
use maelys_datalog.Sort.{put, below, shift, insertion}
use maelys_datalog.Sort.Sorted.{
  put-elim, Le, IsSortedIn, IsSortedBut, Le_self, Le_trans, below_Le, below_not, fill-IsSortedIn,
}

module _ {A : Type 0} (cmp : A → A → Ordering) (o : IsOrder cmp) where
  -- The hole moves one place down.
  hole-IsSortedBut :
      (lo hi h : ℕ) (a : ℕ → A)
      → lo ≤ h
      → suc h < hi
      → IsSortedBut cmp lo hi (suc h) a
      → IsSortedBut cmp lo hi h (put a (suc h) (a h))
  hole-IsSortedBut lo hi h a le lt but i k p q r s t =
      put-elim (λ x. Le cmp x (put a (suc h) (a h) k)) a (suc h) (a h) i
        (λ e.
          put-elim (λ y. Le cmp (a h) y) a (suc h) (a h) k (λ f. Le_self cmp o (a h))
            (λ f. but h k le (omega arith) r (λ g. omega arith) f))
        (λ e.
          put-elim (λ y. Le cmp (a i) y) a (suc h) (a h) k
            (λ f. but i h p (omega arith) (omega arith) e (λ g. omega arith))
            (λ f. but i k p q r e f))

  shift-IsSortedIn :
      (j : ℕ) (a : ℕ → A) (off hi : ℕ) (v : A)
      → off + j < hi
      → IsSortedBut cmp off hi (off + j) a
      → ((k : ℕ) → off + j < k → k < hi → Le cmp v (a k))
      → IsSortedIn cmp off hi (shift cmp j a off v)
  unfolding shift
  shift-IsSortedIn zero a off hi v lt but right =
      fill-IsSortedIn cmp o off hi off a v
        (λ i k p q r s t. but i k p q r (λ e. s (omega arith)) (λ e. t (omega arith)))
        (λ i p q. absurd (omega arith)) (λ k p q. right k (omega arith) q)
  shift-IsSortedIn (suc j) a off hi v lt but right =
      let place : off + suc j ≡ suc (off + j) = omega arith in
      let but_at : IsSortedBut cmp off hi (suc (off + j)) a =
        subst (λ (h : ℕ). IsSortedBut cmp off hi h a) place but in
      elim (Bool-cases (below cmp v (a (off + j)))) [
        | inr t ↦
            rw (t, shift)
              (fill-IsSortedIn cmp o off hi (off + suc j) a v but
                (λ i p q.
                  Le_trans cmp o (a i) (a (off + j)) v
                    (but i (off + j) p (omega arith) (omega arith) (λ e. omega arith)
                      (λ e. omega arith))
                    (below_not cmp o v (a (off + j)) t))
                right)
        | inl t ↦
            let moved : IsSortedBut cmp off hi (off + j) (put a (off + suc j) (a (off + j))) =
              subst (λ (h : ℕ). IsSortedBut cmp off hi (off + j) (put a h (a (off + j))))
                (sym place)
                (hole-IsSortedBut off hi (off + j) a (omega arith) (omega arith) but_at) in
            rw (t, shift)
              (shift-IsSortedIn j (put a (off + suc j) (a (off + j))) off hi v (omega arith) moved
                (λ k p q.
                  put-elim (λ y. Le cmp v y) a (off + suc j) (a (off + j)) k
                    (λ e. below_Le cmp o v (a (off + j)) t) (λ e. right k (omega arith) q)))
      ]

  insertion-IsSortedIn :
      (left i : ℕ) (a : ℕ → A) (off hi : ℕ)
      → hi ≡ off + (i + left)
      → IsSortedIn cmp off (off + i) a
      → IsSortedIn cmp off hi (insertion cmp left i a off)
  unfolding insertion
  insertion-IsSortedIn zero i a off hi e sorted = λ x y p q r. sorted x y p q (omega arith)
  insertion-IsSortedIn (suc left) i a off hi e sorted =
      insertion-IsSortedIn left (suc i) _ off hi (omega arith) (
        shift-IsSortedIn i a off (off + suc i) (a (off + i)) (omega arith)
          (λ x y p q r s t. sorted x y p q (omega arith)) (λ k p q. absurd (omega arith)))

  pub insertion-IsSorted :
      (a : ℕ → A) (off n : ℕ) → IsSortedIn cmp off (off + n) (insertion cmp (n - 1) 1 a off)
  insertion-IsSorted a off zero = λ i k p q r. absurd (omega arith)
  insertion-IsSorted a off (suc n) =
      insertion-IsSortedIn (suc n - 1) 1 a off (off + suc n) (omega arith) (λ i k p q r.
        let same : i ≡ k = omega arith in
        subst (λ (j : ℕ). Le cmp (a i) (a j)) same (Le_self cmp o (a i)))
