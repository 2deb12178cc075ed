-- ===== src/Sort/Extraction.antt =====
-- The second loop of the heap sort moves the greatest element behind the heap, so the range ends
-- up in order.
use maelys_datalog.Prelude.{
  ℕ, zero, suc, ◌+◌, ◌-◌, ◌/◌, ◌≤◌, ◌<◌, Ordering, ◌≡◌, inl, inr, subst, arith, Bool-cases, ◌==◌,
}
use maelys_datalog.Prelude.Compare.{IsOrder}
use maelys_datalog.Sort.{swap, sift, extract, heap}
use maelys_datalog.Sort.Heap.{IsHeapFrom, Sifts, sift-IsHeapFrom, heapify-IsHeapFrom, root-most}
use maelys_datalog.Sort.Sorted.{swap-elim, Swaps-outside, Swaps-All, Le, IsSortedIn, Le_self}
use maelys_datalog.Sort.Swapping.{Swaps, sift_root}

module _ {A : Type 0} (cmp : A → A → Ordering) (o : IsOrder cmp) where
  -- A heap, behind which stands in order what is not less.
  record Extracting (a : ℕ → A) (off n hi : ℕ) : Type 0 where
    is_heap : IsHeapFrom cmp 0 n off a
    sorted : IsSortedIn cmp (off + n) hi a
    cross : (i k : ℕ) → off ≤ i → i < off + n → off + n ≤ k → k < hi → Le cmp (a i) (a k)

  root-most_at :
      (a : ℕ → A) (off n i : ℕ)
      → IsHeapFrom cmp 0 n off a
      → off ≤ i
      → i < off + n
      → Le cmp (a i) (a off)
  root-most_at a off n i h le lt =
      let place : off + (i - off) ≡ i = omega arith in
      subst (λ (k : ℕ). Le cmp (a k) (a off)) place
        (root-most cmp o (suc (i - off)) a off n (i - off) h (omega arith) (omega arith))

  -- One round.
  module _ (a : ℕ → A) (off k hi : ℕ) (s : Extracting a off (suc (suc k)) hi) where
    abbrev exchanged : ℕ → A
    exchanged = swap a off (off + suc k)

    -- What stands behind the heap now is not less than any element of the heap before.
    exchanged-tail :
        (i j : ℕ)
        → off ≤ i
        → i < off + suc (suc k)
        → off + suc k ≤ j
        → j < hi
        → Le cmp (a i) (exchanged j)
    exchanged-tail i j p q r t =
        swap-elim (λ y. Le cmp (a i) y) a off (off + suc k) j
          (λ e. root-most_at a off (suc (suc k)) i s.is_heap p q) (λ e f. absurd (omega arith))
          (λ e f. s.cross i j p q (omega arith) t)

    exchanged-head :
        (i j : ℕ)
        → off ≤ i
        → i < off + suc k
        → off + suc k ≤ j
        → j < hi
        → Le cmp (exchanged i) (exchanged j)
    exchanged-head i j p q r t =
        swap-elim (λ x. Le cmp x (exchanged j)) a off (off + suc k) i (λ e. absurd (omega arith))
          (λ e f. exchanged-tail (off + suc k) j (omega arith) (omega arith) r t)
          (λ e f. exchanged-tail i j p (omega arith) r t)

    exchanged-sorted : IsSortedIn cmp (off + suc k) hi exchanged
    exchanged-sorted i j p q r =
        swap-elim (λ x. Le cmp x (exchanged j)) a off (off + suc k) i
          (λ e. exchanged-tail off j (omega arith) (omega arith) (omega arith) r)
          (λ e f. absurd (omega arith))
          (λ e f.
            swap-elim (λ y. Le cmp (a i) y) a off (off + suc k) j (λ g. absurd (omega arith))
              (λ g h. absurd (omega arith)) (λ g h. s.sorted i j (omega arith) q r))

    exchanged-Sifts : Sifts cmp 0 (suc k) off 0 (exchanged off) exchanged
    exchanged-Sifts = record {
      from = omega arith;
      but = λ p c le child lt ne nf.
          swap-elim (λ x. Le cmp x (exchanged (off + p))) a off (off + suc k) (off + c)
            (λ e. absurd (omega arith)) (λ e f. absurd (omega arith))
            (λ e f.
              swap-elim (λ y. Le cmp (a (off + c)) y) a off (off + suc k) (off + p)
                (λ g. absurd (omega arith)) (λ g h. absurd (omega arith))
                (λ g h. s.is_heap p c le child (omega arith)));
      grand = λ p c le child m lt. absurd (omega arith);
      up = λ p le child. absurd (omega arith);
    }

    abbrev sifted : ℕ → A
    sifted = sift cmp (suc k) exchanged off 0 (suc k) (exchanged off)

    sifted-Swaps : Swaps off (off + suc k) exchanged sifted
    sifted-Swaps =
        subst
          (λ (i : ℕ).
            Swaps off (off + suc k) exchanged
              (sift cmp (suc k) exchanged off 0 (suc k) (exchanged i)))
          (omega arith) (sift_root cmp exchanged (suc k) off 0 (suc k) (omega arith))

    sifted-Extracting : Extracting sifted off (suc k) hi
    sifted-Extracting =
        let behind = λ (j : ℕ) (le : off + suc k ≤ j).
          Swaps-outside off (off + suc k) exchanged sifted j sifted-Swaps (inr le) in
        record {
          is_heap =
              sift-IsHeapFrom cmp o (suc k) 0 (suc k) off 0 (exchanged off) exchanged (omega arith)
                exchanged-Sifts;
          sorted = λ i j p q r.
              let le : off + suc k ≤ j = omega arith in
              rw (behind i p, behind j le) (exchanged-sorted i j p q r);
          cross = λ i j p q r t. rw (behind j r) (
              Swaps-All (λ x. Le cmp x (exchanged j)) off (off + suc k) exchanged sifted
                sifted-Swaps (λ x w. exchanged-head x j w.0 w.1 r t) i (p, q));
        }

  extract-IsSortedIn :
      (n : ℕ) (a : ℕ → A) (off hi : ℕ)
      → Extracting a off n hi
      → IsSortedIn cmp off hi (extract cmp n a off)
  unfolding extract
  extract-IsSortedIn zero a off hi s = λ i k p q r. s.sorted i k (omega arith) q r
  extract-IsSortedIn (suc zero) a off hi s = λ i k p q r. elim (Bool-cases (i == off)) [
    | inr t ↦ s.sorted i k (ground arith) q r
    | inl t ↦ elim (Bool-cases (k == off)) [
      | inl u ↦
          let same : i ≡ k = ground arith in
          subst (λ (j : ℕ). Le cmp (a i) (a j)) same (Le_self cmp o (a i))
      | inr u ↦ s.cross i k p (ground arith) (ground arith) r
    ]
  ]
  extract-IsSortedIn (suc (suc k)) a off hi s =
      extract-IsSortedIn (suc k) (sifted a off k hi s) off hi (sifted-Extracting a off k hi s)

  pub heap-IsSorted : (a : ℕ → A) (off n : ℕ) → IsSortedIn cmp off (off + n) (heap cmp a off n)
  unfolding heap
  heap-IsSorted a off n = extract-IsSortedIn n _ off (off + n) (record {
    is_heap = heapify-IsHeapFrom cmp o (n / 2) a off n (λ p c le child lt. absurd (omega arith));
    sorted = λ i k p q r. absurd (omega arith);
    cross = λ i k p q r t. absurd (omega arith);
  })
