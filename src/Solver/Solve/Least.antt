-- ===== src/Solver/Solve/Least.antt =====
-- The rounds end in the least set of derived facts: it lies in every set that is closed under the
-- rules, and what follows from it is in it or among the facts given.
use maelys_datalog.Solver.Derive.Runs.{IsMarked}
use maelys_datalog.Prelude.{
  sym, false, length, length-append, ◌≤◌, ◌∙◌, arith, ap, ◌++◌, ℕ, zero, suc, true, List, [], ◌∷◌,
  some, ◌≡◌, ◌⊎◌, inl, inr, refl, subst, In, In-append, In-append_left, In-append_right, Bool-cases,
}
use maelys_datalog.Bounds.{max_depth}
use maelys_datalog.Fact.{Fact}
use maelys_datalog.Solver.{Rule, View, Work}
use maelys_datalog.Solver.Derive.{fact_in_base}
use maelys_datalog.Solver.Matching.{Bindings, instantiate_fact}
use maelys_datalog.Solver.Solve.{
  solved, first_rules, delta_rules, accept, emptied, has_no_facts, rounds, empty_work, solve_rounds,
}
use maelys_datalog.Solver.Solve.Chains.{IsReadable}
use maelys_datalog.Solver.Solve.Delta.{
  Kind_mono, Splits, satisfied_splits, DrawsAll, IsClosed-same, IsClosed-back, drawn_same,
  drawn_back,
}
use maelys_datalog.Solver.Solve.Meaning.{Facts, Satisfies, IsClosed, IsPlain}
use maelys_datalog.Solver.Solve.Reading.{IsFlat, Accepted}
use maelys_datalog.Solver.Solve.Rounds.{
  Solved-cases, solved_inj, AnyConsequence, FirstConsequence, DeltaConsequence, first_rules-Adds,
  delta_rules-Adds,
}
use maelys_datalog.Solver.Solve.Rules.{Adds}

-- What holds between the rounds: the consequences of the earlier facts are accepted, and what is
-- accepted is in every closed set.
record Between (v : View) (prev : Facts) : Type 1 where
  flat : IsFlat v
  readable : IsReadable v
  splits : Splits v prev
  drawn : DrawsAll v prev (Accepted v)
  within : (X : Facts) → IsClosed v X → (f : Fact) → In f v.accepted → X f

Consequence-closed :
    (v : View) (X : Facts)
    → IsClosed v X
    → ((f : Fact) → In f v.accepted → X f)
    → (f : Fact) → AnyConsequence v v.the_ruleset.rules f
    → X f
Consequence-closed v X closed below f (rule, m, (s, sat, h)) =
    closed rule m s f (λ i l e. Kind_mono l.kind v (Accepted v) X rule s l below (sat i l e)) h

-- The state after a round that adds the consequences.
accepted-Between :
    (v : View) (w x : Work) (C : Fact → Type 0)
    → IsFlat v
    → IsReadable v
    → ((X : Facts) → IsClosed v X → (f : Fact) → In f v.accepted → X f)
    → w.merged ≡ []
    → Adds v (AnyConsequence v v.the_ruleset.rules) C w x
    → ((rule : Rule)
        → In rule v.the_ruleset.rules
        → (s : Bindings) (f : Fact) → Satisfies v (Accepted v) rule s
        → instantiate_fact s rule.head ≡ some f
        → (fact_in_base v f ≡ true) ⊎ (In f v.accepted ⊎ C f))
    → Between (accept v x) (Accepted v)
accepted-Between v w x C flat readable within empty adds next =
    let from_empty = λ (f : Fact) (m : In f w.merged). subst (In f) empty m in
    record {
      flat = record {
        unstratified = flat.unstratified;
        ranges = flat.ranges;
        delta_accepted = λ f m. In-append_right v.accepted x.merged f m;
      };
      readable = record {
        policy = readable.policy;
        snapshot = readable.snapshot;
        derived = λ f m. elim (In-append v.accepted x.merged f m) [
          | inl n ↦ readable.derived f n
          | inr n ↦ elim (adds.known f n) [ inl o ↦ absurd (from_empty f o) | inr k ↦ k ]
        ];
      };
      splits = λ f m. In-append v.accepted x.merged f m;
      drawn = drawn_back v x (Accepted v) (Accepted (accept v x)) (λ rule i s f sat h.
          elim (next rule i s f sat h) [
            | inl base ↦ inl base
            | inr (inl n) ↦ inr (In-append_left v.accepted x.merged f n)
            | inr (inr c) ↦ elim (adds.complete f c) [
              | inl base ↦ inl base
              | inr (inl n) ↦ inr (In-append_left v.accepted x.merged f n)
              | inr (inr n) ↦ inr (In-append_right v.accepted x.merged f n)
            ]
          ]);
      within = λ X closed f m. elim (In-append v.accepted x.merged f m) [
        | inl n ↦ within X (IsClosed-same v x X closed) f n
        | inr n ↦ elim (adds.sound f n) [
          | inl o ↦ absurd (from_empty f o)
          | inr c ↦
              let c0 = IsClosed-same v x X closed in Consequence-closed v X c0 (within X c0) f c
        ]
      ];
    }

-- What follows from the accepted facts follows from the earlier ones, or draws on the delta.
next-DeltaConsequence :
    (v : View) (prev : Facts)
    → Between v prev
    → (rule : Rule) → In rule v.the_ruleset.rules
    → (s : Bindings) (f : Fact) → Satisfies v (Accepted v) rule s
    → instantiate_fact s rule.head ≡ some f
    → (fact_in_base v f ≡ true) ⊎ (In f v.accepted ⊎ DeltaConsequence v v.the_ruleset.rules f)
next-DeltaConsequence v prev b rule m s f sat h =
    elim (satisfied_splits v prev b.splits rule s sat) [
      | inl earlier ↦ elim (b.drawn rule m s f earlier h) [
        | inl base ↦ inl base
        | inr n ↦ inr (inl n)
      ]
      | inr (i, l, e, (t, d)) ↦ inr (inr (rule, m, i, l, e, t, (s, sat, (l, e, d), h)))
    ]

-- The set lies in every set that is closed under the rules, and what follows from it by a rule is
-- in it or among the facts of the ruleset and the snapshot.
pub record IsLeast (v : View) (Y : Facts) : Type 1 where
  pub within : (X : Facts) → IsClosed v X → (f : Fact) → Y f → X f
  pub closed : DrawsAll v Y Y

-- What the rounds end with besides: no mark on facts that are not sorted, and room for them.
pub record IsFinished (u : View) : Type 0 where
  pub mark : u.idb_sorted ≡ true → u.accepted ≡ []
  pub room : length u.accepted ≤ u.idb_capacity
  pub open' : u.finalized ≡ false

-- What the rounds from `v` and `w` on end in.
pub record Ends (v : View) (w : Work) (u : View) : Type 1 where
  pub least : IsLeast v (Accepted u)
  pub finished : IsMarked v w → v.idb_sorted ≡ w.idb_sorted → v.finalized ≡ false → IsFinished u
  pub same_capacity : u.idb_capacity ≡ v.idb_capacity

accept-IsMarked : (v : View) (x : Work) → IsMarked v x → IsMarked (accept v x) (emptied x)
accept-IsMarked v x k = record {
  blank = λ q. let (a, m) = k.blank q in (ap (λ fs. fs ++ x.merged) a ∙ m, refl);
  room = omega (arith, length-append v.accepted x.merged, k.room);
}

no_facts-empty : (fs : List Fact) (f : Fact) → has_no_facts fs ≡ true → In f fs → ⊥
no_facts-empty [] f h m = m
no_facts-empty (x ∷ fs) f h m = cc

rounds-Ends :
    (left : ℕ) (v : View) (prev : Facts) (w : Work) (u : View)
    → Between v prev
    → w.merged ≡ []
    → ((rule : Rule) → In rule v.the_ruleset.rules → IsPlain rule)
    → rounds left v w ≡ solved u
    → Ends v w u
unfolding rounds
rounds-Ends zero v prev w u b empty plain h = absurd (cc (h))
rounds-Ends (suc left) v prev w u b empty plain h = elim (Bool-cases (has_no_facts v.delta)) [
  | inl t ↦
      let e : v ≡ u = solved_inj (rw (t, rounds) at h) in
      subst (λ x. Ends v w x) e
        (record {
          least = record {
            within = b.within;
            closed = λ rule m s f sat k. elim (next-DeltaConsequence v prev b rule m s f sat k) [
              | inl base ↦ inl base
              | inr (inl n) ↦ inr n
              | inr (inr (r, n, i, l, q, t2, (s2, sat2, (l2, e2, (def, q2, k2, g, d, inst)), h2))) ↦
                  absurd (no_facts-empty v.delta g t d)
            ];
          };
          finished = λ k same unfinished. record {
            mark = λ q. (k.blank (sym same ∙ q)).0;
            room = omega (arith, k.room);
            open' = unfinished;
          };
          same_capacity = refl;
        })
  | inr t ↦ elim (Solved-cases (delta_rules v v.the_ruleset.rules w)) [
    | inl (rc, reason, e) ↦ absurd (cc (rw (t, rounds, e) at h))
    | inr (x, e) ↦
        let adds = delta_rules-Adds v b.flat b.readable v.the_ruleset.rules w x plain e in
        let after =
          accepted-Between v w x (DeltaConsequence v v.the_ruleset.rules) b.flat b.readable b.within
            empty adds (next-DeltaConsequence v prev b) in
        let rest =
          rounds-Ends left (accept v x) (Accepted v) (emptied x) u after refl plain
            (rw (t, rounds, e) at h) in
        let least = rest.least in
        record {
          least = record {
            within = λ X c. least.within X (IsClosed-back v x X c);
            closed = drawn_same v x (Accepted u) (Accepted u) least.closed;
          };
          finished = λ k same unfinished.
              rest.finished (accept-IsMarked v x (adds.keeps k)) refl unfinished;
          same_capacity = rest.same_capacity;
        }
  ]
]

-- The rounds that start in `v`, without facts accepted. Where they succeed, every accepted fact is
-- in each set that is closed under the rules, and the head that follows by a rule from the
-- accepted facts is accepted or stands among the facts of the ruleset and the snapshot; the facts
-- have room, and are not marked as sorted unless there are none.
pub solve_rounds-Ends :
    (v u : View)
    → IsFlat v
    → IsReadable v
    → v.accepted ≡ []
    → ((rule : Rule) → In rule v.the_ruleset.rules → IsPlain rule)
    → v.finalized ≡ false
    → solve_rounds v ≡ solved u
    → IsLeast v (Accepted u) × IsFinished u × (u.idb_capacity ≡ v.idb_capacity)
unfolding solve_rounds
solve_rounds-Ends v u flat readable start plain unfinished h =
    elim (Solved-cases (first_rules v v.the_ruleset.rules empty_work)) [
      | inl (rc, reason, e) ↦ absurd (cc (rw (e, solve_rounds) at h))
      | inr (x, e) ↦
          let adds = first_rules-Adds v flat readable v.the_ruleset.rules empty_work x plain e in
          let none_before : (f : Fact) → In f v.accepted → ⊥ = λ f m. subst (In f) start m in
          let after =
            accepted-Between v empty_work x (FirstConsequence v v.the_ruleset.rules) flat readable
              (λ X c f m. absurd (none_before f m)) refl adds
              (λ rule m s f sat k. inr (inr (rule, m, (s, sat, tt, k)))) in
          let rest =
            rounds-Ends max_depth (accept v x) (Accepted v) (emptied x) u after refl plain
              (rw (e, solve_rounds) at h) in
          let least = rest.least in
          let marked : IsMarked v empty_work = record {
            blank = λ q. (start, refl);
            room = omega (arith, ap length start);
          } in
          (
            record {
              within = λ X c. least.within X (IsClosed-back v x X c);
              closed = drawn_same v x (Accepted u) (Accepted u) least.closed;
            },
            rest.finished (accept-IsMarked v x (adds.keeps marked)) refl unfinished,
            rest.same_capacity,
          )
    ]
