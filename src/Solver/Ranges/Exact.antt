-- ===== src/Solver/Ranges/Exact.antt =====
-- The ranges that are built for a snapshot cut out exactly the facts of each predicate.
use mathlib.Core.List.{append_assoc, append-nil}
use maelys_datalog.Prelude.{
  ℕ, zero, suc, ◌+◌, ◌≤◌, ◌<◌, false, ◌||◌, List, [], ◌∷◌, ◌++◌, Option, none, some, ◌≡◌, ◌≢◌, ◌↔◌,
  inl, inr, refl, sym, ap, ◌∙◌, subst, arith, length, take, drop, ltb, leb, ◌==◌, In, Bool-cases,
  passed, In-append, In-append_left, In-append_right, drop-length, take-drop, length-append,
  length-drop,
}
use maelys_datalog.Bounds.{max_predicates}
use maelys_datalog.Fact.{Fact}
use maelys_datalog.FactSet.{FactSet, count}
use maelys_datalog.Solver.{PredRange, View}
use maelys_datalog.Solver.Ranges.{
  run_length, set_range, falls, ranges_loop, no_ranges, build_edb_ranges, slice_of, edb_slice,
}

-- The facts of a run have its predicate, and the next one has another.
run-predicate :
    (pid : ℕ) (fs : List Fact) (g : Fact)
    → In g (take (run_length pid fs) fs)
    → g.predicate_id ≡ pid
unfolding run_length
run-predicate pid [] g m = absurd m
run-predicate pid (f ∷ fs) g m = elim (Bool-cases (f.predicate_id == pid)) [
  | inr other ↦ absurd (rw (other, run_length) at m)
  | inl same ↦
      elim (let n : In g (f ∷ take (run_length pid fs) fs) = rw (same, run_length) at m in n) [
        | inl e ↦ subst (λ x. x.predicate_id ≡ pid) (sym e) (ground arith)
        | inr n ↦ run-predicate pid fs g n
      ]
]

abbrev HeadIsNot : ℕ → List Fact → Type 0
HeadIsNot pid [] = Unit
HeadIsNot pid (f ∷ fs) = f.predicate_id ≢ pid

run-stops : (pid : ℕ) (fs : List Fact) → HeadIsNot pid (drop (run_length pid fs) fs)
unfolding run_length
run-stops pid [] = tt
run-stops pid (f ∷ fs) = elim (Bool-cases (f.predicate_id == pid)) [
  | inr other ↦ rw (other, run_length) (λ e. ground arith)
  | inl same ↦ rw (same, run_length) (run-stops pid fs)
]

-- The ranges cut out of `all` the facts of `pre`, by predicate.
abbrev Covers : List Fact → List Fact → (ℕ → PredRange) → Type 0
Covers all pre ranges =
    (pid : ℕ) (f : Fact) → In f (slice_of all (ranges pid)) ↔ (In f pre × (f.predicate_id ≡ pid))

-- What is known of the facts before the rest.
abbrev Before : Option ℕ → List Fact → List Fact → Type 0
Before none pre rest = (f : Fact) → In f pre → ⊥
Before (some p) pre rest = ((f : Fact) → In f pre → f.predicate_id ≤ p) × HeadIsNot p rest

Before-lt :
    (previous : Option ℕ) (pre : List Fact) (f : Fact) (fs : List Fact)
    → Before previous pre (f ∷ fs)
    → falls previous f.predicate_id ≡ false
    → (g : Fact) → In g pre
    → g.predicate_id < f.predicate_id
Before-lt none pre f fs b h g m = absurd (b g m)
Before-lt (some p) pre f fs b h g m = let le = b.0 g m in let ne = b.1 in ground arith

module _ (all pre : List Fact) (f : Fact) (fs : List Fact) (eq : all ≡ pre ++ (f ∷ fs)) where
  abbrev run : List Fact
  run = f ∷ take (run_length f.predicate_id fs) fs

  abbrev rest : List Fact
  rest = drop (run_length f.predicate_id fs) fs

  slice_of-run :
      slice_of all (record { begin = length pre; count = suc (run_length f.predicate_id fs) }) ≡ run
  slice_of-run = rw eq (rw (drop-length pre (f ∷ fs)) refl)

  split_again : all ≡ (pre ++ run) ++ rest
  split_again =
      eq
      ∙ ap (λ l. pre ++ (f ∷ l)) (sym (take-drop (run_length f.predicate_id fs) fs))
      ∙ sym (append_assoc pre run rest)

  In-run : (g : Fact) → In g run → g.predicate_id ≡ f.predicate_id
  In-run g (inl e) = subst (λ x. x.predicate_id ≡ f.predicate_id) (sym e) refl
  In-run g (inr m) = run-predicate f.predicate_id fs g m

  Covers-run :
      (ranges : ℕ → PredRange)
      → Covers all pre ranges
      → ((g : Fact) → In g pre → g.predicate_id < f.predicate_id)
      → Covers all (pre ++ run) (
          set_range ranges f.predicate_id
            (record { begin = length pre; count = suc (run_length f.predicate_id fs) }))
  Covers-run ranges c lt pid g = elim (Bool-cases (f.predicate_id == pid)) [
    | inl same ↦
        let e : f.predicate_id ≡ pid = ground arith in
        rw same (
          λ m. let n = subst (In g) slice_of-run m in (In-append_right pre run g n, In-run g n ∙ e),
          λ (m, k). elim (In-append pre run g m) [
            | inl n ↦ absurd (let l = lt g n in omega arith)
            | inr n ↦ subst (In g) (sym slice_of-run) n
          ],
        )
    | inr other ↦ rw other (
      λ m. let (n, k) = (c pid g).0 m in (In-append_left pre run g n, k),
      λ (m, k). elim (In-append pre run g m) [
        | inl n ↦ (c pid g).1 (n, k)
        | inr n ↦ absurd (let l = In-run g n in ground arith)
      ],
    )
  ]

  Before-run :
      ((g : Fact) → In g pre → g.predicate_id < f.predicate_id)
      → Before (some f.predicate_id) (pre ++ run) rest
  Before-run lt = (
    λ g m. elim (In-append pre run g m) [
      | inl n ↦ let l = lt g n in omega arith
      | inr n ↦ let l = In-run g n in omega arith
    ],
    run-stops f.predicate_id fs,
  )

-- All the facts have a predicate below the bound.
abbrev pub Bounded : List Fact → Type 0
Bounded fs = (f : Fact) → In f fs → f.predicate_id < max_predicates

passed_inj : {A : Type 0} {x y : A} → passed x ≡ passed y → x ≡ y
passed_inj h = cc

length_run : (pid : ℕ) (fs : List Fact) → length (take (run_length pid fs) fs) ≡ run_length pid fs
unfolding run_length
length_run pid [] = refl
length_run pid (f ∷ fs) = elim (Bool-cases (f.predicate_id == pid)) [
  | inl t ↦ rw (t, run_length) (ap suc (length_run pid fs))
  | inr t ↦ rw (t, run_length) refl
]

ranges_loop-Covers :
    (fuel : ℕ) (all pre fs : List Fact) (i : ℕ) (previous : Option ℕ) (ranges out : ℕ → PredRange)
    → all ≡ pre ++ fs
    → length fs ≤ fuel
    → i ≡ length pre
    → Before previous pre fs
    → Covers all pre ranges
    → Bounded pre
    → ranges_loop fuel fs i previous ranges ≡ passed out
    → Covers all all out × Bounded all
unfolding ranges_loop
ranges_loop-Covers fuel all pre [] i previous ranges out eq enough at_i before c bounded h =
    let e : ranges ≡ out = passed_inj h in
    let whole : pre ≡ all = sym (eq ∙ append-nil pre) in
    (
      subst (λ r. Covers all all r) e (subst (λ p. Covers all p ranges) whole c),
      subst Bounded whole bounded,
    )
ranges_loop-Covers zero all pre (f ∷ fs) i previous ranges out eq enough at_i before c bounded h =
    absurd (omega arith)
ranges_loop-Covers (suc fuel) all pre (f ∷ fs) i previous ranges out eq enough at_i before c bounded
      h =
    let n = run_length f.predicate_id fs in
    let pid = f.predicate_id in
    elim (Bool-cases
      (leb max_predicates pid || falls previous pid || ltb 65535 i || ltb 65535 (suc n))) [
        | inl t ↦ absurd (cc (rw (t, ranges_loop) at h))
        | inr t ↦
            let lt = Before-lt previous pre f fs before (ground arith) in
            let below : pid < max_predicates = ground arith in
            ranges_loop-Covers fuel all (pre ++ run all pre f fs eq) (rest all pre f fs eq)
              (i + suc n) (some pid) (set_range ranges pid (record { begin = i; count = suc n }))
              out (split_again all pre f fs eq) (omega (arith, length-drop {0} n fs))
              (omega (arith, length-append {0} pre (run all pre f fs eq), length_run pid fs))
              (Before-run all pre f fs eq lt)
              (subst
                (λ (x : ℕ).
                  Covers all (pre ++ run all pre f fs eq)
                    (set_range ranges pid (record { begin = x; count = suc n })))
                (sym at_i) (Covers-run all pre f fs eq ranges c lt))
              (λ g m. elim (In-append pre (run all pre f fs eq) g m) [
                | inl k ↦ bounded g k
                | inr k ↦ let e = In-run all pre f fs eq g k in omega arith
              ])
              (rw (t, ranges_loop) at h)
      ]

no_ranges-Covers : (all : List Fact) → Covers all [] no_ranges
no_ranges-Covers all pid f = (λ m. absurd m, λ (m, k). absurd m)

pub build_edb_ranges-Bounded :
    (snapshot : FactSet) (ranges : ℕ → PredRange)
    → build_edb_ranges snapshot ≡ passed ranges
    → Covers snapshot.facts snapshot.facts ranges × Bounded snapshot.facts
unfolding build_edb_ranges
build_edb_ranges-Bounded s ranges h = elim (Bool-cases s.sorted) [
  | inr t ↦ absurd (cc (rw (t, build_edb_ranges) at h))
  | inl t ↦
      ranges_loop-Covers (count s) s.facts [] s.facts 0 none no_ranges ranges refl (omega arith)
        refl (λ f m. m) (no_ranges-Covers s.facts) (λ f m. absurd m) (rw (t, build_edb_ranges) at h)
]

-- Where the ranges of a snapshot are built, the slice of any predicate number holds exactly the
-- facts of the snapshot that have that predicate; the snapshot need not be known to be sorted.
pub edb_slice_exact :
    (v : View)
    → build_edb_ranges v.edb_snapshot ≡ passed v.edb_ranges
    → (pid : ℕ) (f : Fact)
    → In f (edb_slice v pid) ↔ (In f v.edb_snapshot.facts × (f.predicate_id ≡ pid))
unfolding edb_slice
edb_slice_exact v h pid f =
    let (covers, bounded) = build_edb_ranges-Bounded v.edb_snapshot v.edb_ranges h in
    elim (Bool-cases (leb max_predicates pid)) [
      | inl t ↦ rw t (λ m. absurd m, λ (m, e). absurd (let b = bounded f m in ground arith))
      | inr t ↦ rw t (covers pid f)
    ]
