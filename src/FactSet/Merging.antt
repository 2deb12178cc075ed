-- ===== src/FactSet/Merging.antt =====
-- The merge loop computes the union within the bounds, and refuses exactly what exceeds them.
use maelys_datalog.Prelude.{
  ℕ, zero, suc, ◌+◌, ◌≤◌, ◌<◌, Bool, true, List, [], ◌∷◌, ◌++◌, ◌≡◌, ◌↔◌, ◌⊎◌, inl, inr, refl, sym,
  subst, ap, ◌∙◌, ◌==◌, if◌then◌else◌, arith, length, length-append, Rc, ok, In, All, All-concat,
  Option-cases,
}
use mathlib.Core.List.{append_assoc, append-nil}
use maelys_datalog.Bounds.{max_predicates, max_idb_facts, max_facts_per_pred}
use maelys_datalog.Fact.{Fact}
use maelys_datalog.FactSet.{
  FactSet, count, Merge, emit, choose, written, publish, merge_loop, empty_merge,
  fact_set_merge_delta,
}
use maelys_datalog.FactSet.Order.{IsStrict}
use maelys_datalog.FactSet.Union.{
  union, fresh_count, In-union, union-IsStrict, length-union, IsStrict-unique,
}

abbrev pub count_pred : ℕ → List Fact → ℕ
count_pred p [] = 0
count_pred p (f ∷ fs) = if f.predicate_id == p then suc (count_pred p fs) else count_pred p fs

pub count_pred-append :
    (p : ℕ) (fs gs : List Fact) → count_pred p (fs ++ gs) ≡ count_pred p fs + count_pred p gs
count_pred-append p [] gs = omega arith
count_pred-append p (f ∷ fs) gs = ground (arith, count_pred-append p fs gs)

-- The bounds that the merge enforces on its result.
pub record Fits (capacity : ℕ) (fs : List Fact) : Type 0 where
  pub capacity_bound : length fs ≤ capacity
  pub idb_bound : length fs ≤ max_idb_facts
  pub predicate_bound : (p : ℕ) → count_pred p fs ≤ max_facts_per_pred
  pub known : All (λ f. f.predicate_id < max_predicates) fs

All-append-left : (P : Fact → Type 0) (fs gs : List Fact) → All P (fs ++ gs) → All P fs
All-append-left P [] gs h = tt
All-append-left P (f ∷ fs) gs h = (h.0, All-append-left P fs gs h.1)

All-last : (P : Fact → Type 0) (fs : List Fact) (g : Fact) → All P (fs ++ g ∷ []) → P g
All-last P [] g h = h.0
All-last P (f ∷ fs) g h = All-last P fs g h.1

Fits-prefix : (capacity : ℕ) (fs gs : List Fact) → Fits capacity (fs ++ gs) → Fits capacity fs
Fits-prefix capacity fs gs h = record {
  capacity_bound = omega (arith, length-append fs gs, h.capacity_bound);
  idb_bound = omega (arith, length-append fs gs, h.idb_bound);
  predicate_bound = λ p. omega (arith, count_pred-append p fs gs, h.predicate_bound p);
  known = All-append-left _ fs gs h.known;
}

-- The counters of the loop count what it wrote.
abbrev Counts : Merge → Type 0
Counts m = (p : ℕ) → m.per_pred p ≡ count_pred p m.out

-- The end of a round: go on after a success, and stop at a failure.
abbrev after : (Merge → Rc × Merge) → Rc → Merge → Rc × Merge
after k rc m = elim rc [ ok ↦ k m | failed ↦ (failed, m) ]

after_ok :
    (k : Merge → Rc × Merge) (rc : Rc) (m m' : Merge)
    → after k rc m ≡ (ok, m')
    → (rc ≡ ok) × (k m ≡ (ok, m'))
after_ok k ok m m' h = (refl, h)
after_ok k rc m m' h = cc (ap (λ p. p.0) h)

module _ (capacity : ℕ) where
  -- What a round that passes its checks leaves.
  record Emitted (m m' : Merge) (src : Fact) (from_delta : Bool) : Type 0 where
    out : m'.out ≡ m.out ++ src ∷ []
    counts : Counts m'
    fits : Fits capacity m'.out
    inserted : m'.inserted ≡ m.inserted + (if from_delta then 1 else 0)

  emit-passes :
      (m m' : Merge) (src : Fact) (from_delta : Bool)
      → emit capacity m src from_delta ≡ (ok, m')
      → (written m src from_delta ≡ m')
        × (src.predicate_id < max_predicates)
        × (length m.out < capacity)
        × (length m.out < max_idb_facts)
        × (m.per_pred src.predicate_id < max_facts_per_pred)
  unfolding emit
  emit-passes m m' src from_delta h = ground arith

  written-Emitted :
      (m : Merge) (src : Fact) (from_delta : Bool)
      → Counts m
      → Fits capacity m.out
      → src.predicate_id < max_predicates
      → length m.out < capacity
      → length m.out < max_idb_facts
      → m.per_pred src.predicate_id < max_facts_per_pred
      → Emitted m (written m src from_delta) src from_delta
  written-Emitted m src from_delta c f known room idb pred = record {
    out = refl;
    counts = λ p. ground (arith, c p, count_pred-append p m.out (src ∷ []));
    fits = record {
      capacity_bound = omega (arith, length-append m.out (src ∷ []));
      idb_bound = omega (arith, length-append m.out (src ∷ []));
      predicate_bound =
          λ p. ground (arith, c p, f.predicate_bound p, count_pred-append p m.out (src ∷ []));
      known = All-concat (λ g. g.predicate_id < max_predicates) m.out src f.known known;
    };
    inserted = ground arith;
  }

  emit-Emitted :
      (m m' : Merge) (src : Fact) (from_delta : Bool)
      → Counts m
      → Fits capacity m.out
      → emit capacity m src from_delta ≡ (ok, m')
      → Emitted m m' src from_delta
  emit-Emitted m m' src from_delta c f h =
      let (e, known, room, idb, pred) = emit-passes m m' src from_delta h in
      subst (λ w. Emitted m w src from_delta) e
        (written-Emitted m src from_delta c f known room idb pred)

  emit-ok :
      (m : Merge) (src : Fact) (from_delta : Bool)
      → Counts m
      → Fits capacity (m.out ++ src ∷ [])
      → (emit capacity m src from_delta).0 ≡ ok
  unfolding emit
  emit-ok m src from_delta c f = ground (
    arith,
    c src.predicate_id,
    length-append m.out (src ∷ []),
    count_pred-append src.predicate_id m.out (src ∷ []),
    f.predicate_bound src.predicate_id,
    All-last (λ g. g.predicate_id < max_predicates) m.out src f.known,
  )

  -- What the loop leaves when it succeeds.
  record Merged (m m' : Merge) (n : ℕ) (cs ds : List Fact) : Type 0 where
    pub out : m'.out ≡ m.out ++ union n cs ds
    pub fits : Fits capacity m'.out
    pub inserted : m'.inserted ≡ m.inserted + fresh_count n cs ds

  Merged-nil :
      (m : Merge) (n : ℕ) (cs ds : List Fact)
      → Fits capacity m.out
      → union n cs ds ≡ []
      → fresh_count n cs ds ≡ 0
      → Merged m m n cs ds
  Merged-nil m n cs ds f e k = record {
    out = rw e (sym (append-nil m.out));
    fits = f;
    inserted = omega arith;
  }

  rounds-Merged :
      (n : ℕ) (cs ds : List Fact) (m m' : Merge)
      → Counts m
      → Fits capacity m.out
      → merge_loop n capacity cs ds m ≡ (ok, m')
      → Merged m m' n cs ds
  unfolding merge_loop union fresh_count
  rounds-Merged zero cs ds m m' c f h =
      subst (λ w. Merged m w zero cs ds) (ap (λ p. p.1) h) (Merged-nil m zero cs ds f refl refl)
  rounds-Merged (suc n) cs ds m m' c f h = elim (Option-cases (choose cs ds)) [
    | inl e ↦
        subst (λ w. Merged m w (suc n) cs ds) (ap (λ p. p.1) (rw (e, merge_loop) at h))
          (Merged-nil m (suc n) cs ds f (rw (e, union)) (rw (e, fresh_count)))
    | inr (r, e) ↦
        let m1 = (emit capacity m r.src r.from_delta).1 in
        let (passed, rest) =
          after_ok (merge_loop n capacity r.current r.delta) (emit capacity m r.src r.from_delta).0
            m1 m' (rw (e, merge_loop) at h) in
        let em = emit-Emitted m m1 r.src r.from_delta c f (λ i. (passed i, m1)) in
        let ih = rounds-Merged n r.current r.delta m1 m' em.counts em.fits rest in
        record {
          out =
              ih.out
              ∙ ap (λ l. l ++ union n r.current r.delta) em.out
              ∙ append_assoc m.out (r.src ∷ []) (union n r.current r.delta)
              ∙ rw (e, union) refl;
          fits = ih.fits;
          inserted = rw (e, fresh_count) (omega (arith, em.inserted, ih.inserted));
        }
  ]

  rounds-ok :
      (n : ℕ) (cs ds : List Fact) (m : Merge)
      → Counts m
      → Fits capacity (m.out ++ union n cs ds)
      → (merge_loop n capacity cs ds m).0 ≡ ok
  unfolding merge_loop union
  rounds-ok zero cs ds m c f = refl
  rounds-ok (suc n) cs ds m c f = elim (Option-cases (choose cs ds)) [
    | inl e ↦ rw (e, merge_loop) refl
    | inr (r, e) ↦
        let m1 = (emit capacity m r.src r.from_delta).1 in
        let regroup : (m.out ++ r.src ∷ []) ++ union n r.current r.delta
            ≡ m.out ++ union (suc n) cs ds =
          append_assoc m.out (r.src ∷ []) (union n r.current r.delta) ∙ rw (e, union) refl in
        let all = subst (Fits capacity) (sym regroup) f in
        let next = Fits-prefix capacity (m.out ++ r.src ∷ []) (union n r.current r.delta) all in
        let passed = emit-ok m r.src r.from_delta c next in
        let em =
          emit-Emitted m m1 r.src r.from_delta c (Fits-prefix capacity m.out (r.src ∷ []) next)
            (λ i. (passed i, m1)) in
        rw (e, merge_loop)
          (rw passed (
            rounds-ok n r.current r.delta m1 em.counts
              (subst (λ l. Fits capacity (l ++ union n r.current r.delta)) (sym em.out) all)))
  ]

-- The union of two sets that the merge is to compute.
abbrev pub merged : FactSet → FactSet → List Fact
merged current delta = union (count current + count delta) current.facts delta.facts

Fits-nil : (capacity : ℕ) → Fits capacity []
Fits-nil capacity = record {
  capacity_bound = omega arith;
  idb_bound = omega arith;
  predicate_bound = λ p. omega arith;
  known = tt;
}

module _ (current delta : FactSet) (capacity inserted : ℕ) where
  abbrev run : Rc × Merge
  run = merge_loop (count current + count delta) capacity current.facts delta.facts empty_merge

  merge_delta-run :
      current.sorted ≡ true
      → delta.sorted ≡ true
      → fact_set_merge_delta current delta capacity inserted ≡ publish current inserted run.0 run.1
  unfolding fact_set_merge_delta
  merge_delta-run c d = rw (c, d) refl

  publish-code : (rc : Rc) (m : Merge) → (publish current inserted rc m).0 ≡ rc
  publish-code ok m = refl
  publish-code rc m = refl

  merge_delta-code :
      current.sorted ≡ true
      → delta.sorted ≡ true
      → (fact_set_merge_delta current delta capacity inserted).0 ≡ run.0
  merge_delta-code c d = ap (λ t. t.0) (merge_delta-run c d) ∙ publish-code run.0 run.1

  run-Merged :
      run.0 ≡ ok
      → Merged capacity empty_merge run.1 (count current + count delta) current.facts delta.facts
  run-Merged h =
      rounds-Merged capacity (count current + count delta) current.facts delta.facts empty_merge
        run.1 (λ p. refl) (Fits-nil capacity) (λ i. (h i, run.1))

  merge_delta-ok_merged :
      current.sorted ≡ true
      → delta.sorted ≡ true
      → ((fact_set_merge_delta current delta capacity inserted).0 ≡ ok)
        ↔ Fits capacity (merged current delta)
  merge_delta-ok_merged c d = (
    λ h. let m = run-Merged (sym (merge_delta-code c d) ∙ h) in subst (Fits capacity) m.out m.fits,
    λ f.
        merge_delta-code c d
        ∙ rounds-ok capacity (count current + count delta) current.facts delta.facts empty_merge
            (λ p. refl) f,
  )

  -- On two strictly ordered sets that are marked as sorted, and for the strictly ordered list of
  -- the facts of both, `maelys_datalog_fact_set_merge_delta` returns OK exactly if this list fits the
  -- merge capacity, the bound on derived facts and the bound on each predicate, and has known
  -- predicates only.
  pub merge_delta-ok_iff :
      current.sorted ≡ true
      → delta.sorted ≡ true
      → IsStrict current.facts
      → IsStrict delta.facts
      → (u : List Fact) → IsStrict u
      → ((f : Fact) → In f u ↔ (In f current.facts ⊎ In f delta.facts))
      → ((fact_set_merge_delta current delta capacity inserted).0 ≡ ok) ↔ Fits capacity u
  merge_delta-ok_iff c d sc sd u su members =
      let n = count current + count delta in
      let same : merged current delta ≡ u =
        IsStrict-unique (merged current delta) u
          (union-IsStrict n current.facts delta.facts (omega arith) sc sd) su
          (λ f.
            let (out, back) = In-union n current.facts delta.facts f (omega arith) in
            let (left, right) = members f in (λ m. right (out m), λ m. back (left m))) in
      subst (λ l. ((fact_set_merge_delta current delta capacity inserted).0 ≡ ok) ↔ Fits capacity l)
        same (merge_delta-ok_merged c d)

  -- What a successful merge leaves in the set.
  pub record IsUnion (t : FactSet) (new : ℕ) : Type 0 where
    pub strict : IsStrict t.facts
    pub members : (f : Fact) → In f t.facts ↔ (In f current.facts ⊎ In f delta.facts)
    pub new_facts : count t ≡ count current + new
    pub same_capacity : t.capacity ≡ current.capacity
    pub marked : t.sorted ≡ true

  -- On strictly ordered sets, where `maelys_datalog_fact_set_merge_delta` returns OK the set is
  -- strictly ordered, holds exactly the facts of the two sets, and has grown by the inserted count.
  pub merge_delta-IsUnion :
      current.sorted ≡ true
      → delta.sorted ≡ true
      → IsStrict current.facts
      → IsStrict delta.facts
      → (t : FactSet) (new : ℕ)
      → fact_set_merge_delta current delta capacity inserted ≡ (ok, t, new)
      → IsUnion t new
  merge_delta-IsUnion c d sc sd t new h =
      let n = count current + count delta in
      let done = sym (merge_delta-code c d) ∙ ap (λ r. r.0) h in
      let m = run-Merged done in
      let result =
        sym (ap (λ rc. publish current inserted rc run.1) done) ∙ sym (merge_delta-run c d) ∙ h in
      subst (λ (r : Rc × FactSet × ℕ). IsUnion r.1 r.2) result
        (record {
          strict =
              subst IsStrict (sym m.out)
                (union-IsStrict n current.facts delta.facts (omega arith) sc sd);
          members = λ f.
              subst (λ l. In f l ↔ (In f current.facts ⊎ In f delta.facts)) (sym m.out)
                (In-union n current.facts delta.facts f (omega arith));
          new_facts = omega (
            arith,
            ap (length) m.out,
            m.inserted,
            length-union n current.facts delta.facts (omega arith),
          );
          same_capacity = refl;
          marked = refl;
        })
