-- ===== src/Sort/Sorted.antt =====
-- When a range of an array is in order, and what a single assignment does to it.
use maelys_datalog.Prelude.{
  ℕ, ◌≤◌, ◌<◌, true, false, Ordering, ◌≡◌, ◌≢◌, ◌⊎◌, inl, inr, refl, arith, Bool-cases, ◌==◌,
}
use maelys_datalog.Prelude.Compare.{IsOrder}
use maelys_datalog.Sort.{put, swap, below, above}
use maelys_datalog.Sort.Swapping.{Within, Swaps, done, next}

module _ {A : Type 0} where
  -- What holds of an element after an assignment.
  pub put-elim :
      (P : A → Type 0) (a : ℕ → A) (h : ℕ) (v : A) (k : ℕ)
      → (h ≡ k → P v)
      → (h ≢ k → P (a k))
      → P (put a h v k)
  put-elim P a h v k p q = elim (Bool-cases (h == k)) [
    | inl e ↦ rw e (p (ground arith))
    | inr e ↦ rw e (q (λ f. ground arith))
  ]

  pub swap-elim :
      (P : A → Type 0) (a : ℕ → A) (i j k : ℕ)
      → (j ≡ k → P (a i))
      → (j ≢ k → i ≡ k → P (a j))
      → (j ≢ k → i ≢ k → P (a k))
      → P (swap a i j k)
  unfolding swap
  swap-elim P a i j k p q r =
      put-elim P (put a i (a j)) j (a i) k p (λ e. put-elim P a i (a j) k (λ f. q e f) (λ f. r e f))

  -- Exchanges leave the places outside as they are.
  pub Swaps-outside :
      (lo hi : ℕ) (a b : ℕ → A) (k : ℕ) → Swaps lo hi a b → (k < lo) ⊎ (hi ≤ k) → b k ≡ a k
  Swaps-outside lo hi a b k done out = refl
  Swaps-outside lo hi a _ k (next {b} i j p q s) out =
      swap-elim (λ x. x ≡ a k) b i j k
        (λ e. absurd (elim out [ inl u ↦ omega arith | inr u ↦ omega arith ]))
        (λ e f. absurd (elim out [ inl u ↦ omega arith | inr u ↦ omega arith ]))
        (λ e f. Swaps-outside lo hi a b k s out)

  -- What holds of every element of the range still does.
  pub Swaps-All :
      (P : A → Type 0) (lo hi : ℕ) (a b : ℕ → A)
      → Swaps lo hi a b
      → ((k : ℕ) → Within lo hi k → P (a k))
      → (k : ℕ) → Within lo hi k
      → P (b k)
  Swaps-All P lo hi a b done all k w = all k w
  Swaps-All P lo hi a _ (next {b} i j p q s) all k w =
      let before = Swaps-All P lo hi a b s all in
      swap-elim P b i j k (λ e. before i p) (λ e f. before j q) (λ e f. before k w)

module _ {A : Type 0} (cmp : A → A → Ordering) where
  abbrev pub Le : A → A → Type 0
  Le x y = cmp x y ≢ Ordering.gt

  -- No element of the range is greater than a later one.
  abbrev pub IsSortedIn : ℕ → ℕ → (ℕ → A) → Type 0
  IsSortedIn lo hi a = (i k : ℕ) → lo ≤ i → i ≤ k → k < hi → Le (a i) (a k)

  -- The same, the place `h` left out.
  abbrev pub IsSortedBut : ℕ → ℕ → ℕ → (ℕ → A) → Type 0
  IsSortedBut lo hi h a = (i k : ℕ) → lo ≤ i → i ≤ k → k < hi → h ≢ i → h ≢ k → Le (a i) (a k)

module _ {A : Type 0} (cmp : A → A → Ordering) (o : IsOrder cmp) where
  pub Le_self : (x : A) → Le cmp x x
  Le_self x e = let same = o.self x in cc

  pub Le_trans : (x y z : A) → Le cmp x y → Le cmp y z → Le cmp x z
  Le_trans x y z h k e =
      let equal_xy = o.equal x y in
      let equal_yz = o.equal y z in
      let flips_xz = o.flips x z in
      let flips_xy = o.flips x y in
      let flips_yz = o.flips y z in
      let back = o.trans z y x in let there = o.trans x y z in ground arith

  pub below_Le : (x y : A) → below cmp x y ≡ true → Le cmp x y
  below_Le x y h e = ground arith

  pub below_not : (x y : A) → below cmp x y ≡ false → Le cmp y x
  below_not x y h e = let flips = o.flips x y in ground arith

  pub above_Le : (x y : A) → above cmp x y ≡ true → Le cmp y x
  above_Le x y h e = let flips = o.flips x y in ground arith

  pub above_not : (x y : A) → above cmp x y ≡ false → Le cmp x y
  above_not x y h e = ground arith

  -- The place is filled.
  pub fill-IsSortedIn :
      (lo hi h : ℕ) (a : ℕ → A) (v : A)
      → IsSortedBut cmp lo hi h a
      → ((i : ℕ) → lo ≤ i → i < h → Le cmp (a i) v)
      → ((k : ℕ) → h < k → k < hi → Le cmp v (a k))
      → IsSortedIn cmp lo hi (put a h v)
  fill-IsSortedIn lo hi h a v but left right i k p q r =
      put-elim (λ x. Le cmp x (put a h v k)) a h v i
        (λ e. put-elim (λ y. Le cmp v y) a h v k (λ f. Le_self v) (λ f. right k (omega arith) r))
        (λ e.
          put-elim (λ y. Le cmp (a i) y) a h v k (λ f. left i p (omega arith))
            (λ f. but i k p q r e f))
