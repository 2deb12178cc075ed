-- ===== src/Solver/Solve/Result.antt =====
-- The solve of an EDB as a whole: the checks lead to a state from which the rounds start, and the end
-- of a solve succeeds on what the rounds end in, and keeps its facts.
use maelys_datalog.Prelude.{
  ℕ, Rc, ok, ap, invalid_argument, if◌then◌else◌, ◌∙◌, false, true, List, [], ◌∷◌, ◌≡◌, ◌↔◌, inl,
  inr, refl, sym, subst, arith, In, Bool-cases,
}
use maelys_datalog.Fact.{Fact}
use maelys_datalog.Solver.{deny_none, Rule, Ruleset, View}
use maelys_datalog.Edb.{Edb, fact_count}
use maelys_datalog.FactSet.{FactSet}
use maelys_datalog.Registry.{Registry}
use maelys_datalog.Bounds.{max_edb_facts}
use maelys_datalog.Prelude.{not, ◌||◌, ltb, and_true, Checked-cases}
use maelys_datalog.Solver.Ranges.{build_edb_ranges}
use maelys_datalog.Solver.Matching.{facts_structurally_valid, fact_structurally_valid}
use maelys_datalog.Solver.Solve.{
  solve_loaded, failed, idb_final, sort_result, dedup_result, begin_solve, finalize, solve_once_run,
  filters_structurally_valid,
}
use maelys_datalog.Solver.Solve.{solved, solve_rounds}
use maelys_datalog.Solver.Solve.Chains.{IsReadable}
use maelys_datalog.Solver.Solve.Delta.{Kind_mono}
use maelys_datalog.Solver.Solve.Meaning.{Facts, IsPlain}
use maelys_datalog.Solver.Solve.Reading.{IsFlat, Accepted}
use maelys_datalog.Solver.Solve.Least.{IsLeast, IsFinished, solve_rounds-Ends}
use maelys_datalog.Solver.Solve.Rounds.{Solved-cases, solved_inj}
use maelys_datalog.FactSet.Order.{IsSorted, IsStrict}
use maelys_datalog.FactSet.Sorting.{fact_set_sort, fact_set_sort-IsSorted}
use maelys_datalog.FactSet.{fact_set_dedup}
use maelys_datalog.FactSet.Dedup.{fact_set_dedup-IsStrict}

facts_valid-In :
    (r : Registry) (fs : List Fact) (f : Fact)
    → facts_structurally_valid r fs ≡ true
    → In f fs
    → fact_structurally_valid r f ≡ true
unfolding facts_structurally_valid
facts_valid-In r [] f h m = absurd m
facts_valid-In r (g ∷ fs) f h m =
    let parts = and_true (fact_structurally_valid r g) (facts_structurally_valid r fs) h in
    elim m [
      | inl e ↦ subst (λ x. fact_structurally_valid r x ≡ true) (sym e) parts.0
      | inr n ↦ facts_valid-In r fs f parts.1 n
    ]

-- The state that the checks lead to.
record Starts (r : Ruleset) (e : Edb) (capacity : ℕ) (v : View) : Type 0 where
  same_ruleset : v.the_ruleset ≡ r
  same_snapshot : v.edb_snapshot ≡ e.fact_set
  same_symbols : v.symbols ≡ e.symbols
  flat : IsFlat v
  readable : IsReadable v
  nothing : v.accepted ≡ []
  unfinished : v.finalized ≡ false
  same_capacity : v.idb_capacity ≡ capacity

begin_solve-Starts :
    (r : Ruleset) (e : Edb) (capacity : ℕ) (v : View)
    → begin_solve r e capacity ≡ solved v
    → Starts r e capacity v
unfolding begin_solve
begin_solve-Starts r e capacity v h = elim (Bool-cases (filters_structurally_valid r)) [
  | inr t ↦ absurd (cc (rw (begin_solve, t) at h))
  | inl t ↦ elim (Bool-cases (not e.immutable || not e.fact_set.sorted)) [
    | inl a ↦ absurd (cc (rw (begin_solve, t, a) at h))
    | inr a ↦ elim (Bool-cases (ltb max_edb_facts (fact_count e))) [
      | inl b ↦ absurd (cc (rw (begin_solve, t, a, b) at h))
      | inr b ↦
          elim (Bool-cases (
            ltb e.fact_set.capacity (fact_count e)
            || not (facts_structurally_valid r.registry e.fact_set.facts))) [
              | inl c ↦ absurd (cc (rw (begin_solve, t, a, b, c) at h))
              | inr c ↦ elim (Checked-cases (build_edb_ranges e.fact_set)) [
                | inl (rc, d) ↦ absurd (cc (rw (begin_solve, t, a, b, c, d) at h))
                | inr (ranges, d) ↦
                    elim (Bool-cases (facts_structurally_valid r.registry r.facts)) [
                      | inr k ↦ absurd (cc (rw (begin_solve, t, a, b, c, d, k) at h))
                      | inl k ↦
                          subst (Starts r e capacity)
                            (solved_inj (rw (begin_solve, t, a, b, c, d, k) at h))
                            (record {
                              same_ruleset = refl;
                              same_snapshot = refl;
                              same_symbols = refl;
                              flat = record {
                                unstratified = refl;
                                ranges = d;
                                delta_accepted = λ f m. m;
                              };
                              readable = record {
                                policy = λ f m. facts_valid-In r.registry r.facts f k m;
                                snapshot = λ f m.
                                    facts_valid-In r.registry e.fact_set.facts f (ground arith) m;
                                derived = λ f m. absurd m;
                              };
                              nothing = refl;
                              unfinished = refl;
                              same_capacity = refl;
                            })
                    ]
              ]
            ]
    ]
  ]
]

-- What a set that is sorted and without duplicates has of the facts that were derived.
pub record IsResult (u : View) (t : FactSet) : Type 0 where
  pub strict : IsStrict t.facts
  pub members : (f : Fact) → In f t.facts ↔ In f u.accepted
  pub marked : t.sorted ≡ true
  pub same_capacity : t.capacity ≡ u.idb_capacity

dedup_result-ok : (a : Rc × FactSet) (s : FactSet) → a ≡ (ok, s) → dedup_result a ≡ solved s
dedup_result-ok a s e = rw e refl

sort_result-ok :
    (a : Rc × FactSet) (s : FactSet) → a ≡ (ok, s) → sort_result a ≡ dedup_result (fact_set_dedup s)
sort_result-ok a s e = rw e refl

-- The end of a solve that is finished succeeds.
finalize-IsResult :
    (u : View) → IsFinished u → (t : FactSet) × (finalize u ≡ solved t) × IsResult u t
unfolding finalize
finalize-IsResult u h =
    let (s, e, sorted, members, marked, capacity) =
      fact_set_sort-IsSorted (idb_final u) h.room (λ q. subst IsSorted (sym (h.mark q)) tt) in
    let (t, k, strict, same, capacity', marked') = fact_set_dedup-IsStrict s marked sorted in
    (
      t,
      rw h.open' (sort_result-ok (fact_set_sort (idb_final u)) s e ∙ dedup_result-ok _ t k),
      record {
        strict = strict;
        members =
            λ f. let (a, b) = same f in let (c, d) = members f in (λ m. c (a m), λ m. b (d m));
        marked = marked';
        same_capacity = capacity' ∙ capacity;
      },
    )

-- The same set under another description.
IsLeast-same : (v : View) (X Y : Facts) → ((f : Fact) → Y f ↔ X f) → IsLeast v X → IsLeast v Y
IsLeast-same v X Y same least = record {
  within = λ Z closed f y. least.within Z closed f ((same f).0 y);
  closed = λ rule m s f sat h.
      elim (least.closed rule m s f
        (λ i l e. Kind_mono l.kind v Y X rule s l (λ g y. (same g).0 y) (sat i l e)) h) [
          | inl base ↦ inl base
          | inr x ↦ inr ((same f).1 x)
        ];
}

loaded_run :
    (r : Ruleset) (e : Edb) (capacity : ℕ)
    → r.loaded ≡ true
    → solve_once_run r e capacity ≡ solve_loaded r e capacity
unfolding solve_once_run
loaded_run r e capacity h =
    ap (λ b. if not b then failed invalid_argument deny_none else solve_loaded r e capacity) h

not_loaded_run :
    (r : Ruleset) (e : Edb) (capacity : ℕ)
    → r.loaded ≡ false
    → solve_once_run r e capacity ≡ failed invalid_argument deny_none
unfolding solve_once_run
not_loaded_run r e capacity h =
    ap (λ b. if not b then failed invalid_argument deny_none else solve_loaded r e capacity) h

-- A solve without negation and aggregates, of rules that are plain. Where it succeeds, there is a
-- view with the given ruleset, facts and symbols for which the facts of the result are the least:
-- each is in every set that is closed under the rules, and the head that follows by a rule from
-- them is one of them or stands among the facts of the ruleset and the EDB.
pub solve_once_run-IsLeast :
    (r : Ruleset) (e : Edb) (capacity : ℕ) (result : FactSet)
    → ((rule : Rule) → In rule r.rules → IsPlain rule)
    → solve_once_run r e capacity ≡ solved result
    → (v : View) × (v.the_ruleset ≡ r)
      × (v.edb_snapshot ≡ e.fact_set)
      × (v.symbols ≡ e.symbols)
      × IsLeast v (λ f. In f result.facts)
unfolding solve_loaded
solve_once_run-IsLeast r e capacity result plain h = elim (Bool-cases r.loaded) [
  | inr missing ↦ absurd (cc (not_loaded_run r e capacity missing, h))
  | inl loaded ↦
      let run = sym (loaded_run r e capacity loaded) ∙ h in
      elim (Solved-cases (begin_solve r e capacity)) [
        | inl (rc, reason, k) ↦ absurd (cc (rw (solve_loaded, k) at run))
        | inr (v, k) ↦ elim (Solved-cases (solve_rounds v)) [
          | inl (rc, reason, q) ↦ absurd (cc (rw (solve_loaded, k, q) at run))
          | inr (u, q) ↦
              let s = begin_solve-Starts r e capacity v k in
              let (least, finished, same) =
                solve_rounds-Ends v u s.flat s.readable s.nothing
                  (λ rule m. plain rule (subst (λ x. In rule x.rules) s.same_ruleset m))
                  s.unfinished q in
              let (t, done, is_result) = finalize-IsResult u finished in
              let ends : t ≡ result = solved_inj (sym done ∙ (rw (solve_loaded, k, q) at run)) in
              (
                v,
                s.same_ruleset,
                s.same_snapshot,
                s.same_symbols,
                subst (λ x. IsLeast v (λ f. In f x.facts)) ends
                    (IsLeast-same v (Accepted u) (λ f. In f t.facts) is_result.members least),
              )
        ]
      ]
]

-- A solve without negation and aggregates, of rules that are plain. Where its checks pass and its
-- rounds succeed, so does its end: the result is strictly increasing and marked as sorted, has
-- exactly the facts that the rounds derived, and the capacity asked for.
pub solve_once_run-IsStrict :
    (r : Ruleset) (e : Edb) (capacity : ℕ) (v u : View)
    → ((rule : Rule) → In rule r.rules → IsPlain rule)
    → r.loaded ≡ true
    → begin_solve r e capacity ≡ solved v
    → solve_rounds v ≡ solved u
    → (t : FactSet) × (solve_once_run r e capacity ≡ solved t)
      × IsStrict t.facts
      × ((f : Fact) → In f t.facts ↔ In f u.accepted)
      × (t.sorted ≡ true)
      × (t.capacity ≡ capacity)
unfolding solve_loaded
solve_once_run-IsStrict r e capacity v u plain loaded k q =
    let s = begin_solve-Starts r e capacity v k in
    let (least, finished, same) =
      solve_rounds-Ends v u s.flat s.readable s.nothing
        (λ rule m. plain rule (subst (λ x. In rule x.rules) s.same_ruleset m)) s.unfinished q in
    let (t, done, h) = finalize-IsResult u finished in
    (
      t,
      loaded_run r e capacity loaded ∙ rw (solve_loaded, k, q) done,
      h.strict,
      h.members,
      h.marked,
      h.same_capacity ∙ same ∙ s.same_capacity,
    )
