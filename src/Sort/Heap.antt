-- ===== src/Sort/Heap.antt =====
-- The heap sort of a range puts it in order.
use maelys_datalog.Prelude.{
  ℕ, zero, suc, ◌+◌, ◌*◌, ◌/◌, ◌≤◌, ◌<◌, true, Ordering, ◌≡◌, ◌≢◌, inl, inr, subst, arith,
  Bool-cases, ltb, ◌==◌,
}
use maelys_datalog.Prelude.Compare.{IsOrder}
use maelys_datalog.Sort.{put, below, larger_child, sift, heapify}
use maelys_datalog.Sort.Sorted.{put-elim, Le, Le_self, Le_trans, below_Le, below_not}

-- The place `c` is below the place `p` in the heap.
abbrev pub IsChild : ℕ → ℕ → Type 0
IsChild p c = (p * 2 + 1 ≤ c) × (c ≤ p * 2 + 2)

module _ {A : Type 0} (cmp : A → A → Ordering) where
  -- From the place `r` on, no element is less than its children.
  abbrev pub IsHeapFrom : ℕ → ℕ → ℕ → (ℕ → A) → Type 0
  IsHeapFrom r n off a =
      (p c : ℕ) → r ≤ p → IsChild p c → c < n → Le cmp (a (off + c)) (a (off + p))

  -- A heap with a hole, into which `v` is to go or below which it is to go.
  pub record Sifts (r n off h : ℕ) (v : A) (a : ℕ → A) : Type 0 where
    pub from : r ≤ h
    pub but :
        (p c : ℕ) → r ≤ p → IsChild p c → c < n → h ≢ p → h ≢ c → Le cmp (a (off + c)) (a (off + p))
    pub grand :
        (p c : ℕ) → r ≤ p → IsChild p h → IsChild h c → c < n → Le cmp (a (off + c)) (a (off + p))
    pub up : (p : ℕ) → r ≤ p → IsChild p h → Le cmp v (a (off + p))

module _ {A : Type 0} (cmp : A → A → Ordering) (o : IsOrder cmp) where
  fill-IsHeapFrom :
      (r n off h : ℕ) (v : A) (a : ℕ → A)
      → Sifts cmp r n off h v a
      → ((c : ℕ) → IsChild h c → c < n → Le cmp (a (off + c)) v)
      → IsHeapFrom cmp r n off (put a (off + h) v)
  fill-IsHeapFrom r n off h v a s down p c le child lt =
      put-elim (λ x. Le cmp x (put a (off + h) v (off + p))) a (off + h) v (off + c)
        (λ e.
          put-elim (λ y. Le cmp v y) a (off + h) v (off + p) (λ f. absurd (omega arith))
            (λ f. s.up p le (omega arith, omega arith)))
        (λ e.
          put-elim (λ y. Le cmp (a (off + c)) y) a (off + h) v (off + p)
            (λ f. down c (omega arith, omega arith) lt)
            (λ f. s.but p c le child lt (λ g. omega arith) (λ g. omega arith)))

  -- The larger child is a child, and no child is greater.
  record Chosen (a : ℕ → A) (off h n c : ℕ) : Type 0 where
    child : IsChild h c
    inside : c < n
    most : (d : ℕ) → IsChild h d → d < n → Le cmp (a (off + d)) (a (off + c))

  at : (a : ℕ → A) (i j : ℕ) → i ≡ j → Le cmp (a i) (a j)
  at a i j e = subst (λ (k : ℕ). Le cmp (a i) (a k)) e (Le_self cmp o (a i))

  larger_child-Chosen :
      (a : ℕ → A) (off h n : ℕ)
      → ltb h (n / 2) ≡ true
      → Chosen a off h n (larger_child cmp a off h n)
  unfolding larger_child
  larger_child-Chosen a off h n t =
      let half : h < n / 2 = ground arith in
      elim (Bool-cases (ltb (h * 2 + 2) n)) [
        | inr u ↦
            let only : n ≤ h * 2 + 2 = ground arith in
            rw u (record {
              child = (omega arith, omega arith);
              inside = omega arith;
              most = λ d k lt. at a (off + d) (off + (h * 2 + 1)) (omega arith);
            })
        | inl u ↦
            let two : h * 2 + 2 < n = ground arith in
            elim (Bool-cases (below cmp (a (off + (h * 2 + 1))) (a (off + (h * 2 + 2))))) [
              | inl w ↦
                  rw (u, w)
                    (record {
                      child = (omega arith, omega arith);
                      inside = two;
                      most = λ d k lt. elim (Bool-cases (d == h * 2 + 2)) [
                        | inl x ↦ at a (off + d) (off + (h * 2 + 2)) (ground arith)
                        | inr x ↦
                            Le_trans cmp o _ _ _ (at a (off + d) (off + (h * 2 + 1)) (ground arith))
                              (below_Le cmp o _ _ w)
                      ];
                    })
              | inr w ↦
                  rw (u, w)
                    (record {
                      child = (omega arith, omega arith);
                      inside = omega arith;
                      most = λ d k lt. elim (Bool-cases (d == h * 2 + 1)) [
                        | inl x ↦ at a (off + d) (off + (h * 2 + 1)) (ground arith)
                        | inr x ↦
                            Le_trans cmp o _ _ _ (at a (off + d) (off + (h * 2 + 2)) (ground arith))
                              (below_not cmp o _ _ w)
                      ];
                    })
            ]
      ]

  -- The hole moves to the larger child.
  move-Sifts :
      (r n off h c : ℕ) (v : A) (a : ℕ → A)
      → Sifts cmp r n off h v a
      → Chosen a off h n c
      → Le cmp v (a (off + c))
      → Sifts cmp r n off c v (put a (off + h) (a (off + c)))
  move-Sifts r n off h c v a s ch less =
      let from = s.from in
      let child = ch.child in
      let le_child = ch.child.0 in
      let child_le = ch.child.1 in
      let inside = ch.inside in
      record {
        from = omega arith;
        but = λ p d le k lt ne nf.
            put-elim (λ x. Le cmp x (put a (off + h) (a (off + c)) (off + p))) a (off + h)
              (a (off + c)) (off + d)
              (λ e.
                put-elim (λ y. Le cmp (a (off + c)) y) a (off + h) (a (off + c)) (off + p)
                  (λ f. absurd (omega arith))
                  (λ f. s.grand p c le (omega arith, omega arith) child inside))
              (λ e.
                put-elim (λ y. Le cmp (a (off + d)) y) a (off + h) (a (off + c)) (off + p)
                  (λ f. ch.most d (omega arith, omega arith) lt)
                  (λ f. s.but p d le k lt (λ g. omega arith) (λ g. omega arith)));
        grand = λ p d le k m lt.
            put-elim (λ x. Le cmp x (put a (off + h) (a (off + c)) (off + p))) a (off + h)
              (a (off + c)) (off + d) (λ e. absurd (omega arith))
              (λ e.
                put-elim (λ y. Le cmp (a (off + d)) y) a (off + h) (a (off + c)) (off + p)
                  (λ f. s.but c d (omega arith) m lt (λ g. omega arith) (λ g. omega arith))
                  (λ f. absurd (omega arith)));
        up = λ p le k.
            put-elim (λ y. Le cmp v y) a (off + h) (a (off + c)) (off + p) (λ f. less)
              (λ f. absurd (omega arith));
      }

  pub sift-IsHeapFrom :
      (fuel r n off h : ℕ) (v : A) (a : ℕ → A)
      → n ≤ h + fuel
      → Sifts cmp r n off h v a
      → IsHeapFrom cmp r n off (sift cmp fuel a off h n v)
  unfolding sift
  sift-IsHeapFrom zero r n off h v a le s =
      fill-IsHeapFrom r n off h v a s (λ c k lt. absurd (omega arith))
  sift-IsHeapFrom (suc fuel) r n off h v a le s = elim (Bool-cases (ltb h (n / 2))) [
    | inr t ↦
        let none_below : n / 2 ≤ h = ground arith in
        rw (t, sift) (fill-IsHeapFrom r n off h v a s (λ c k lt. absurd (omega arith)))
    | inl t ↦
        let c = larger_child cmp a off h n in
        let ch = larger_child-Chosen a off h n t in
        let le_child = ch.child.0 in
        elim (Bool-cases (below cmp v (a (off + larger_child cmp a off h n)))) [
          | inr u ↦
              rw (t, sift, u)
                (fill-IsHeapFrom r n off h v a s
                  (λ d k lt. Le_trans cmp o _ _ _ (ch.most d k lt) (below_not cmp o _ _ u)))
          | inl u ↦
              rw (t, sift, u)
                (sift-IsHeapFrom fuel r n off c v (put a (off + h) (a (off + c))) (omega arith)
                  (move-Sifts r n off h c v a s ch (below_Le cmp o _ _ u)))
        ]
  ]

  pub heapify-IsHeapFrom :
      (i : ℕ) (a : ℕ → A) (off n : ℕ)
      → IsHeapFrom cmp i n off a
      → IsHeapFrom cmp 0 n off (heapify cmp i a off n)
  unfolding heapify
  heapify-IsHeapFrom zero a off n h = h
  heapify-IsHeapFrom (suc i) a off n h = heapify-IsHeapFrom i _ off n (
      sift-IsHeapFrom n i n off i (a (off + i)) a (omega arith) (record {
        from = omega arith;
        but = λ p c le k lt ne nf. h p c (omega arith) k lt;
        grand = λ p c le k m lt. absurd (omega arith);
        up = λ p le k. absurd (omega arith);
      }))

  -- The first element is the greatest: `bound` is more than the place.
  pub root-most :
      (bound : ℕ) (a : ℕ → A) (off n i : ℕ)
      → IsHeapFrom cmp 0 n off a
      → i < n
      → i < bound
      → Le cmp (a (off + i)) (a off)
  root-most zero a off n i h lt b = absurd (omega arith)
  root-most (suc bound) a off n zero h lt b = at a (off + 0) off (omega arith)
  root-most (suc bound) a off n (suc i) h lt b =
      Le_trans cmp o _ _ _ (h (i / 2) (suc i) (omega arith) (omega arith, omega arith) lt)
        (root-most bound a off n (i / 2) h (omega arith) (omega arith))
