-- ===== src/Solver/Plan/Complete.antt =====
-- A join order that is found has every literal once, each of them safe where it stands.
use mathlib.Core.Path.{fun_ext}
use maelys_datalog.Prelude.{
  ℕ, zero, suc, ◌+◌, ◌-◌, ◌<◌, ◌≤◌, true, false, List, [], ◌∷◌, Option, none, some, ◌≡◌, ◌⊎◌, inl,
  inr, refl, sym, subst, arith, length, get_elem?, ltb, ◌==◌, if◌then◌else◌, In, Bool-cases,
  Option-cases, Checked-cases, passed, lt_of_get,
}
use maelys_datalog.Bounds.{max_body_literals}
use maelys_datalog.Solver.{Literal, Rule, Ruleset, Mask}
use maelys_datalog.Solver.Plan.{
  empty_mask, mark, union, literal_var_mask, literal_delta_eligible, literal_safe, next_literal,
  mask_at, order_loop, delta_order, build_static_join_order,
}
use maelys_datalog.Solver.Plan.Choice.{next_literal-Ready}

-- How many of the first `n` places are free.
free : ℕ → Mask → ℕ
free zero m = 0
free (suc n) m = free n m + (if m n then 0 else 1)

free_above : (n i : ℕ) (m : Mask) → n ≤ i → free n (mark m i) ≡ free n m
unfolding free
free_above zero i m h = refl
free_above (suc n) i m h = ground (arith, free_above n i m)

free-mark : (n i : ℕ) (m : Mask) → i < n → m i ≡ false → free n (mark m i) + 1 ≡ free n m
unfolding free
free-mark zero i m h k = absurd (omega arith)
free-mark (suc n) i m h k = elim (Bool-cases (i == n)) [
  | inl e ↦
      let same : i ≡ n = ground arith in
      let at_n : m n ≡ false = subst (λ (x : ℕ). m x ≡ false) same k in
      rw (e, at_n) (omega (arith, free_above n i m))
  | inr e ↦ rw e (omega (arith, free-mark n i m (ground arith) k))
]

free-none : (n i : ℕ) (m : Mask) → free n m ≡ 0 → i < n → m i ≡ true
unfolding free
free-none zero i m h k = absurd (omega arith)
free-none (suc n) i m h k = elim (Bool-cases (m n)) [
  | inl t ↦ elim (Bool-cases (i == n)) [
    | inl e ↦ let same : n ≡ i = ground arith in subst (λ (x : ℕ). m x ≡ true) same t
    | inr e ↦ free-none n i m (let q = rw t at h in omega arith) (ground arith)
  ]
  | inr t ↦ absurd (let q = rw t at h in omega arith)
]

free_empty : (n : ℕ) → free n empty_mask ≡ n
unfolding free
free_empty zero = refl
free_empty (suc n) = omega (arith, free_empty n)

-- Along the order, every literal is safe for the variables bound before it.
abbrev pub SafeAlong : Rule → Mask → List ℕ → Type 0
SafeAlong rule bound [] = Unit
SafeAlong rule bound (i ∷ order) =
    ((l : Literal) × (get_elem? rule.body i ≡ some l) × (literal_safe rule l bound ≡ true))
    × SafeAlong rule (union bound (mask_at rule i)) order

-- Every place of the body stands in the order, which is as long as the body, and each literal is
-- safe where it stands.
pub record IsOrder (rule : Rule) (order : List ℕ) : Type 0 where
  pub every : (i : ℕ) → i < length rule.body → In i order
  pub as_long : length order ≡ length rule.body
  pub safe : SafeAlong rule empty_mask order

-- What the loop finds from a state on.
record Finds (rule : Rule) (left : ℕ) (planned bound : Mask) (order : List ℕ) : Type 0 where
  every : (i : ℕ) → i < length rule.body → (planned i ≡ true) ⊎ In i order
  as_long : length order ≡ left
  safe : SafeAlong rule bound order

order_loop-Finds :
    (left : ℕ) (r : Ruleset) (rule : Rule) (planned bound : Mask) (order : List ℕ)
    → free (length rule.body) planned ≡ left
    → order_loop left r rule planned bound ≡ passed order
    → Finds rule left planned bound order
unfolding order_loop
order_loop-Finds zero r rule planned bound order f h =
    let e : [] ≡ order = ground arith in
    subst (Finds rule 0 planned bound) e (record {
      every = λ i lt. inl (free-none (length rule.body) i planned f lt);
      as_long = refl;
      safe = tt;
    })
order_loop-Finds (suc left) r rule planned bound order f h =
    elim (Checked-cases (next_literal r rule planned bound)) [
      | inl (rc, e) ↦ absurd (cc (rw (e, order_loop) at h))
      | inr (i, e) ↦
          let ready = next_literal-Ready r rule planned bound i e in
          let lt = lt_of_get rule.body i ready.literal ready.place in
          let q = rw (e, order_loop) at h in
          elim (Checked-cases
            (order_loop left r rule (mark planned i) (union bound (mask_at rule i)))) [
              | inl (rc, k) ↦ absurd (cc (rw k at q))
              | inr (rest, k) ↦
                  let eq : i ∷ rest ≡ order = let p = rw k at q in ground arith in
                  let ih =
                    order_loop-Finds left r rule (mark planned i) (union bound (mask_at rule i))
                      rest
                      (omega (arith, free-mark (length rule.body) i planned lt ready.unplanned))
                      k in
                  subst (Finds rule (suc left) planned bound) eq (record {
                    every = λ j below. elim (ih.every j below) [
                      | inr m ↦ inr (inr m)
                      | inl marked ↦ elim (Bool-cases (i == j)) [
                        | inl same ↦ inr (inl (let e : i ≡ j = ground arith in sym e))
                        | inr other ↦ inl (rw other at marked)
                      ]
                    ];
                    as_long = omega (arith, ih.as_long);
                    safe = ((ready.literal, ready.place, ready.safe), ih.safe);
                  })
            ]
    ]

safe_atom :
    (r : Ruleset) (rule : Rule) (l : Literal) (bound : Mask)
    → literal_delta_eligible r l ≡ true
    → literal_safe rule l bound ≡ true
unfolding literal_delta_eligible literal_safe
safe_atom r rule l bound h = ground arith

-- The literal that reads the last facts, if there is one, comes first.
abbrev pub StartsWith : Option ℕ → List ℕ → Type 0
StartsWith none order = Unit
StartsWith (some i) order = (rest : List ℕ) × (order ≡ i ∷ rest)

bound_first :
    (rule : Rule) (i : ℕ) (l : Literal)
    → get_elem? rule.body i ≡ some l
    → literal_var_mask l ≡ union empty_mask (mask_at rule i)
bound_first rule i l e = rw (e, mask_at) (fun_ext (λ j. refl))

delta_order-IsOrder :
    (r : Ruleset) (rule : Rule) (i : ℕ) (order : List ℕ)
    → delta_order r rule i ≡ passed order
    → IsOrder rule order × StartsWith (some i) order
unfolding delta_order
delta_order-IsOrder r rule i order h = elim (Option-cases (get_elem? rule.body i)) [
  | inl e ↦ absurd (cc (rw (e, delta_order) at h))
  | inr (l, e) ↦
      let lt = lt_of_get rule.body i l e in
      elim (Bool-cases (literal_delta_eligible r l)) [
        | inr t ↦ absurd (cc (rw (e, delta_order, t) at h))
        | inl t ↦
            let q = rw (e, delta_order, t) at h in
            elim (Checked-cases
              (order_loop (length rule.body - 1) r rule (mark empty_mask i) (literal_var_mask l))) [
                | inl (rc, k) ↦ absurd (cc (rw k at q))
                | inr (rest, k) ↦
                    let eq : i ∷ rest ≡ order = let p = rw k at q in ground arith in
                    let ih =
                      order_loop-Finds (length rule.body - 1) r rule (mark empty_mask i)
                        (literal_var_mask l) rest
                        (omega (
                          arith,
                          free-mark (length rule.body) i empty_mask lt refl,
                          free_empty (length rule.body),
                        ))
                        k in
                    (
                      subst (IsOrder rule) eq (record {
                        every = λ j below. elim (ih.every j below) [
                          | inr m ↦ inr m
                          | inl marked ↦ elim (Bool-cases (i == j)) [
                            | inl same ↦ inl (let e : i ≡ j = ground arith in sym e)
                            | inr other ↦ absurd (cc (rw other at marked))
                          ]
                        ];
                        as_long = omega (arith, ih.as_long);
                        safe = (
                          (l, e, safe_atom r rule l empty_mask t),
                          subst (λ m. SafeAlong rule m rest) (bound_first rule i l e) ih.safe,
                        );
                      }),
                      (rest, sym eq),
                    )
              ]
      ]
]

by_delta :
    (r : Ruleset) (rule : Rule) (delta : Option ℕ) (order : List ℕ)
    → (elim delta [
      | none ↦ order_loop (length rule.body) r rule empty_mask empty_mask
      | some i ↦ delta_order r rule i
    ])
      ≡ passed order
    → IsOrder rule order × StartsWith delta order
by_delta r rule none order h =
    let f =
      order_loop-Finds (length rule.body) r rule empty_mask empty_mask order
        (free_empty (length rule.body)) h in
    (
      record {
        every = λ i lt. elim (f.every i lt) [ inl e ↦ absurd (cc (e)) | inr m ↦ m ];
        as_long = f.as_long;
        safe = f.safe;
      },
      tt,
    )
by_delta r rule (some i) order h = delta_order-IsOrder r rule i order h

-- Whatever a planner module answers: where an order is found for a rule, every literal of its body
-- stands in it, it is as long as the body, each literal is safe where it stands, with the
-- variables that the literals before it bind, and the delta literal, if there is one, comes first.
pub build_static_join_order-IsOrder :
    (r : Ruleset) (rule : Rule) (delta : Option ℕ) (order : List ℕ)
    → build_static_join_order r rule delta ≡ passed order
    → IsOrder rule order × StartsWith delta order
unfolding build_static_join_order
build_static_join_order-IsOrder r rule delta order h =
    elim (Bool-cases (ltb max_body_literals (length rule.body))) [
      | inl long ↦ absurd (cc (rw long at h))
      | inr short ↦ by_delta r rule delta order (rw short at h)
    ]
