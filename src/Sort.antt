-- ===== src/Sort.antt =====
-- The introsort that `MAELYS_DEFINE_SORT` of src/core/maelys_datalog_sort_internal.h defines for
-- a type and its comparison. An array is a function from its indices; `a + off` is the array with
-- an offset. The fuel of a `while` loop is at least the rounds that its variables allow.
pub mod Swapping
pub mod Parts
pub mod Membership
pub mod Sorted
pub mod Insertion
pub mod Heap
pub mod Extraction
pub mod Split
pub mod Ordered
pub mod Prefix
use maelys_datalog.Prelude.{
  ℕ, zero, suc, ◌+◌, ◌-◌, ◌*◌, ◌/◌, Bool, true, false, not, ◌&&◌, List, [], ◌∷◌, Ordering, length,
  ltb, leb, ◌==◌, if◌then◌else◌,
}

module _ {ℓ} {A : Type ℓ} where
  abbrev pub put : (ℕ → A) → ℕ → A → ℕ → A
  put a i v k = if i == k then v else a k

  unfoldable pub swap : (ℕ → A) → ℕ → ℕ → ℕ → A
  swap a i j = put (put a i (a j)) j (a i)

  -- The array of a list that starts with `x`.
  abbrev pub array_of : A → List A → ℕ → A
  array_of x [] i = x
  array_of x (y ∷ ys) zero = y
  array_of x (y ∷ ys) (suc i) = array_of x ys i

  -- Its first `n` elements from `off` on.
  abbrev pub list_of : (ℕ → A) → ℕ → ℕ → List A
  list_of a off zero = []
  list_of a off (suc n) = a off ∷ list_of a (suc off) n

module _ {ℓ} {A : Type ℓ} (cmp : A → A → Ordering) where
  -- `CMP(x, y) < 0` and `CMP(x, y) > 0`.
  abbrev pub below : A → A → Bool
  below x y = elim (cmp x y) [ Ordering.lt ↦ true | _ ↦ false ]

  abbrev pub above : A → A → Bool
  above x y = elim (cmp x y) [ Ordering.gt ↦ true | _ ↦ false ]

  unfoldable pub larger_child : (ℕ → A) → ℕ → ℕ → ℕ → ℕ
  larger_child a off root n =
      if ltb (root * 2 + 2) n && below (a (off + (root * 2 + 1))) (a (off + (root * 2 + 2)))
      then root * 2 + 2
      else root * 2 + 1

  unfoldable pub sift : ℕ → (ℕ → A) → ℕ → ℕ → ℕ → A → ℕ → A
  sift zero a off root n value = put a (off + root) value
  sift (suc fuel) a off root n value = elim (ltb root (n / 2)) [
    | false ↦ put a (off + root) value
    | true ↦ elim (below value (a (off + larger_child a off root n))) [
      | false ↦ put a (off + root) value
      | true ↦
          sift fuel (put a (off + root) (a (off + larger_child a off root n))) off
            (larger_child a off root n) n value
    ]
  ]

  -- The two loops of the heapsort.
  unfoldable pub heapify : ℕ → (ℕ → A) → ℕ → ℕ → ℕ → A
  heapify zero a off n = a
  heapify (suc i) a off n = heapify i (sift n a off i n (a (off + i))) off n

  unfoldable pub extract : ℕ → (ℕ → A) → ℕ → ℕ → A
  extract zero a off = a
  extract (suc zero) a off = a
  extract (suc (suc k)) a off =
      extract (suc k)
        (sift (suc k) (swap a off (off + suc k)) off 0 (suc k) (swap a off (off + suc k) off)) off

  unfoldable pub heap : (ℕ → A) → ℕ → ℕ → ℕ → A
  heap a off n = extract n (heapify (n / 2) a off n) off

  unfoldable pub order_pair : (ℕ → A) → ℕ → ℕ → ℕ → A
  order_pair a i j = if above (a i) (a j) then swap a i j else a

  unfoldable pub median : (ℕ → A) → ℕ → ℕ → ℕ → A
  median a off n =
      order_pair (order_pair (order_pair a off (off + n / 2)) (off + n / 2) (off + (n - 1))) off
        (off + n / 2)

  unfoldable pub scan_up : ℕ → (ℕ → A) → A → ℕ → ℕ
  scan_up zero a pivot lo = lo
  scan_up (suc fuel) a pivot lo = elim (below (a lo) pivot) [
    | true ↦ scan_up fuel a pivot (lo + 1)
    | false ↦ lo
  ]

  unfoldable pub scan_down : ℕ → (ℕ → A) → A → ℕ → ℕ
  scan_down zero a pivot hi = hi
  scan_down (suc fuel) a pivot hi = elim (above (a hi) pivot) [
    | true ↦ scan_down fuel a pivot (hi - 1)
    | false ↦ hi
  ]

  -- The `for (;;)` loop, which gives the array and `lo`, both counted from the array's start.
  unfoldable pub split_loop : ℕ → ℕ → (ℕ → A) → A → ℕ → ℕ → (ℕ → A) × ℕ
  split_loop zero n a pivot lo hi = (a, lo)
  split_loop (suc fuel) n a pivot lo hi =
      let up = scan_up n a pivot lo in
      let down = scan_down n a pivot hi in
      elim (leb down up) [
        | true ↦ (a, up)
        | false ↦ split_loop fuel n (swap a up down) pivot (up + 1) (down - 1)
      ]

  -- The insertion of `value` into the places below `j`.
  unfoldable pub shift : ℕ → (ℕ → A) → ℕ → A → ℕ → A
  shift zero a off value = put a off value
  shift (suc j) a off value = elim (below value (a (off + j))) [
    | true ↦ shift j (put a (off + suc j) (a (off + j))) off value
    | false ↦ put a (off + suc j) value
  ]

  -- The rounds from `i` on, of which `left` are left.
  unfoldable pub insertion : ℕ → ℕ → (ℕ → A) → ℕ → ℕ → A
  insertion zero i a off = a
  insertion (suc left) i a off = insertion left (suc i) (shift i a off (a (off + i))) off

  -- What follows the split of an array at `lo`: each part is sorted, the smaller one first.
  abbrev pub two_parts : ((ℕ → A) → ℕ → ℕ → ℕ → A) → (ℕ → A) → ℕ → ℕ → ℕ → ℕ → A
  two_parts sort_part a off lo n =
      if ltb lo (n - lo)
      then sort_part (sort_part a off lo) (off + lo) (n - lo)
      else sort_part (sort_part a (off + lo) (n - lo)) off lo

  -- `depth` falls in every round and every call.
  unfoldable pub partition : ℕ → (ℕ → A) → ℕ → ℕ → ℕ → A
  partition zero a off n = if ltb 16 n then heap a off n else insertion (n - 1) 1 a off
  partition (suc depth) a off n = elim (ltb 16 n) [
    | false ↦ insertion (n - 1) 1 a off
    | true ↦
        let m = median a off n in
        let (c, lo) = split_loop n n m (m (off + n / 2)) off (off + (n - 1)) in
        two_parts (partition depth) c off (lo - off) n
  ]

  -- One more than the index of the last inversion, or 0: the rounds from `i` on.
  unfoldable pub last_inversion : ℕ → ℕ → (ℕ → A) → ℕ → ℕ
  last_inversion zero i a end = end
  last_inversion (suc left) i a end =
      last_inversion left (suc i) a (if above (a (i - 1)) (a i) then i + 1 else end)

  unfoldable pub maximum_index : ℕ → ℕ → (ℕ → A) → ℕ → ℕ
  maximum_index zero i a top = top
  maximum_index (suc left) i a top =
      maximum_index left (suc i) a (if below (a top) (a i) then i else top)

  unfoldable pub lower_bound : ℕ → (ℕ → A) → A → ℕ → ℕ → ℕ
  lower_bound zero a top low high = low
  lower_bound (suc fuel) a top low high = elim (ltb low high) [
    | false ↦ low
    | true ↦ elim (below (a (low + (high - low) / 2)) top) [
      | true ↦ lower_bound fuel a top (low + (high - low) / 2 + 1) high
      | false ↦ lower_bound fuel a top low (low + (high - low) / 2)
    ]
  ]

  -- `depth += 2u` for every halving of `count` above 1.
  unfoldable pub depth_budget : ℕ → ℕ → ℕ
  depth_budget zero count = 0
  depth_budget (suc fuel) count = elim (ltb 1 count) [
    | false ↦ 0
    | true ↦ depth_budget fuel (count / 2) + 2
  ]

  -- How much of the array has to be sorted.
  unfoldable pub unsorted_prefix : (ℕ → A) → ℕ → ℕ → ℕ
  unsorted_prefix a n end =
      if ltb end n then lower_bound n a (a (maximum_index (end - 1) 1 a 0)) end n else n

  unfoldable pub sort_array : (ℕ → A) → ℕ → ℕ → A
  sort_array a n =
      let end = last_inversion (n - 1) 1 a 0 in
      if end == 0 then a else let m = unsorted_prefix a n end in partition (depth_budget m m) a 0 m

  -- The array as a list.
  unfoldable pub sort : List A → List A
  unfolding sort_array last_inversion unsorted_prefix lower_bound maximum_index depth_budget
      partition insertion shift split_loop scan_up scan_down median order_pair swap heap heapify
      extract sift larger_child
  sort [] = []
  sort (x ∷ xs) = list_of (sort_array (array_of x (x ∷ xs)) (length (x ∷ xs))) 0 (length (x ∷ xs))
