-- ===== src/FactSet/Union.antt =====
-- The merge of a delta into the current facts.
use maelys_datalog.Prelude.{
  ℕ, zero, suc, ◌+◌, ◌≤◌, ◌<◌, true, false, List, [], ◌∷◌, none, some, Ordering, ◌≡◌, ◌↔◌, ◌⊎◌, inl,
  inr, refl, arith, length, if◌then◌else◌, ap, Option-cases, All-of_In, In, All, All-In, All-map,
  some_inj, subst, sym, ◌∙◌,
}
use maelys_datalog.Fact.{Fact, fact_cmp}
use maelys_datalog.FactSet.{Round, choose}
use maelys_datalog.FactSet.Order.{
  IsStrict, fact_cmp_self, fact_cmp-equal, fact_cmp_trans, fact_cmp-flips,
}

-- The union of two ordered lists, each fact once.
unfoldable pub union : ℕ → List Fact → List Fact → List Fact
union zero cs ds = []
union (suc n) cs ds = elim (choose cs ds) [ none ↦ [] | some r ↦ r.src ∷ union n r.current r.delta ]

-- What one round takes off the two lists.
pub record Takes (cs ds : List Fact) (r : Round) : Type 0 where
  pub shorter : length r.current + length r.delta < length cs + length ds
  pub members : (f : Fact) → (In f cs ⊎ In f ds) ↔ ((f ≡ r.src) ⊎ (In f r.current ⊎ In f r.delta))
  pub strict : IsStrict cs → IsStrict ds → IsStrict r.current × IsStrict r.delta
  pub least :
      IsStrict cs
      → IsStrict ds
      → (f : Fact) → In f r.current ⊎ In f r.delta
      → fact_cmp r.src f ≡ Ordering.lt
  pub taken : length r.current + (if r.from_delta then 0 else 1) ≡ length cs
  pub fresh : IsStrict cs → IsStrict ds → (r.from_delta ≡ true) ↔ (In r.src cs → ⊥)

pub choose-none : (cs ds : List Fact) → choose cs ds ≡ none → (cs ≡ []) × (ds ≡ [])
unfolding choose
choose-none [] [] h = (refl, refl)
choose-none [] (d ∷ ds) h = cc
choose-none (c ∷ cs) [] h = cc
choose-none (c ∷ cs) (d ∷ ds) h = ground arith

abbrev Below : Fact → List Fact → Type 0
Below f = All (λ g. fact_cmp f g ≡ Ordering.lt)

-- A fact below all of a list does not stand in it.
Below-fresh : (f : Fact) (gs : List Fact) → Below f gs → In f gs → ⊥
Below-fresh f gs h m =
    let lt = All-In (λ g. fact_cmp f g ≡ Ordering.lt) gs f h m in cc (lt, fact_cmp_self f)

Below-cons :
    (f g : Fact) (gs : List Fact)
    → fact_cmp f g ≡ Ordering.lt
    → IsStrict (g ∷ gs)
    → Below f (g ∷ gs)
Below-cons f g gs lt s = (
  lt,
  All-map (λ h. fact_cmp g h ≡ Ordering.lt) (λ h. fact_cmp f h ≡ Ordering.lt) gs
      (λ h. fact_cmp_trans f g h lt) s.0,
)

Below-either :
    (f : Fact) (cs ds : List Fact)
    → Below f cs
    → Below f ds
    → (g : Fact) → In g cs ⊎ In g ds
    → fact_cmp f g ≡ Ordering.lt
Below-either f cs ds hc hd g (inl m) = All-In (λ g. fact_cmp f g ≡ Ordering.lt) cs g hc m
Below-either f cs ds hc hd g (inr m) = All-In (λ g. fact_cmp f g ≡ Ordering.lt) ds g hd m

Takes-current :
    (c : Fact) (cs ds : List Fact)
    → (IsStrict ds → Below c ds)
    → Takes (c ∷ cs) ds (record { src = c; from_delta = false; current = cs; delta = ds })
Takes-current c cs ds below = record {
  shorter = omega arith;
  members = λ f. ground arith;
  strict = λ s t. (s.1, t);
  least = λ s t. Below-either c cs ds s.0 (below t);
  taken = omega arith;
  fresh = λ s t. (λ e. cc, λ no'. absurd (no' (inl refl)));
}

Takes-delta :
    (d : Fact) (cs ds : List Fact)
    → (IsStrict cs → Below d cs)
    → Takes cs (d ∷ ds) (record { src = d; from_delta = true; current = cs; delta = ds })
Takes-delta d cs ds below = record {
  shorter = omega arith;
  members = λ f. ground arith;
  strict = λ s t. (s, t.1);
  least = λ s t. Below-either d cs ds (below s) t.0;
  taken = omega arith;
  fresh = λ s t. (λ e. Below-fresh d cs (below s), λ _. refl);
}

Takes-both :
    (c : Fact) (cs ds : List Fact)
    → Takes (c ∷ cs) (c ∷ ds) (record { src = c; from_delta = false; current = cs; delta = ds })
Takes-both c cs ds = record {
  shorter = omega arith;
  members = λ f. ground arith;
  strict = λ s t. (s.1, t.1);
  least = λ s t. Below-either c cs ds s.0 t.0;
  taken = omega arith;
  fresh = λ s t. (λ e. cc, λ no'. absurd (no' (inl refl)));
}

pub choose-Takes : (cs ds : List Fact) (r : Round) → choose cs ds ≡ some r → Takes cs ds r
unfolding choose
choose-Takes [] [] r h = cc
choose-Takes [] (d ∷ ds) r h =
    subst (Takes [] (d ∷ ds)) (some_inj h) (Takes-delta d [] ds (λ _. tt))
choose-Takes (c ∷ cs) [] r h =
    subst (Takes (c ∷ cs) []) (some_inj h) (Takes-current c cs [] (λ _. tt))
choose-Takes (c ∷ cs) (d ∷ ds) r h = go (fact_cmp c d) refl
  where
    go : (o : Ordering) → fact_cmp c d ≡ o → Takes (c ∷ cs) (d ∷ ds) r
    go Ordering.eq e =
        let same = fact_cmp-equal c d e in
        subst (Takes (c ∷ cs) (d ∷ ds)) (some_inj (rw (e, choose) at h))
          (rw (← same) (Takes-both c cs ds))
    go Ordering.lt e =
        subst (Takes (c ∷ cs) (d ∷ ds)) (some_inj (rw (e, choose) at h))
          (Takes-current c cs (d ∷ ds) (Below-cons c d ds e))
    go Ordering.gt e =
        subst (Takes (c ∷ cs) (d ∷ ds)) (some_inj (rw (e, choose) at h))
          (Takes-delta d (c ∷ cs) ds (Below-cons d c cs (ground (arith, fact_cmp-flips c d))))

-- How many facts of the union come from the delta alone.
unfoldable pub fresh_count : ℕ → List Fact → List Fact → ℕ
fresh_count zero cs ds = 0
fresh_count (suc n) cs ds = elim (choose cs ds) [
  | none ↦ 0
  | some r ↦ (if r.from_delta then 1 else 0) + fresh_count n r.current r.delta
]

pub In-union :
    (n : ℕ) (cs ds : List Fact) (f : Fact)
    → length cs + length ds ≤ n
    → In f (union n cs ds) ↔ (In f cs ⊎ In f ds)
unfolding union
In-union zero [] [] f h = (inl, λ m. ground arith)
In-union zero (c ∷ cs) ds f h = absurd (omega arith)
In-union zero [] (d ∷ ds) f h = absurd (omega arith)
In-union (suc n) cs ds f h = elim (Option-cases (choose cs ds)) [
  | inl e ↦
      let (ce, de) = choose-none cs ds e in
      rw (e, union) (rw (ce, de) (λ m. absurd m, λ m. ground arith))
  | inr (r, e) ↦
      let t = choose-Takes cs ds r e in
      let shorter = t.shorter in
      let ih = In-union n r.current r.delta f (omega arith) in
      let members = t.members f in rw (e, union) (ground arith)
]

pub union-IsStrict :
    (n : ℕ) (cs ds : List Fact)
    → length cs + length ds ≤ n
    → IsStrict cs
    → IsStrict ds
    → IsStrict (union n cs ds)
unfolding union
union-IsStrict zero cs ds h s t = tt
union-IsStrict (suc n) cs ds h s t = elim (Option-cases (choose cs ds)) [
  | inl e ↦ rw (e, union) tt
  | inr (r, e) ↦
      let takes = choose-Takes cs ds r e in
      let shorter = takes.shorter in
      let (sc, sd) = takes.strict s t in
      rw (e, union)
        (
          All-of_In (λ g. fact_cmp r.src g ≡ Ordering.lt) (union n r.current r.delta)
              (λ g m. takes.least s t g ((In-union n r.current r.delta g (omega arith)).0 m)),
          union-IsStrict n r.current r.delta (omega arith) sc sd,
        )
]

-- A strictly ordered list is given by its members.
pub IsStrict-unique :
    (xs ys : List Fact) → IsStrict xs → IsStrict ys → ((f : Fact) → In f xs ↔ In f ys) → xs ≡ ys
IsStrict-unique [] [] s t h = refl
IsStrict-unique [] (y ∷ ys) s t h = absurd ((h y).1 (inl refl))
IsStrict-unique (x ∷ xs) [] s t h = absurd ((h x).0 (inl refl))
IsStrict-unique (x ∷ xs) (y ∷ ys) s t h =
    let same = first_same x y xs ys s t h in
    let rest = IsStrict-unique xs ys s.1 t.1 (λ f. (
      tail_in x y xs ys s same (λ g. (h g).0) f,
      tail_in y x ys xs t (sym same) (λ g. (h g).1) f,
    )) in
    ap2_cons same rest
  where
    -- The first elements are each other's least.
    first_same :
        (x y : Fact) (xs ys : List Fact)
        → IsStrict (x ∷ xs)
        → IsStrict (y ∷ ys)
        → ((f : Fact) → In f (x ∷ xs) ↔ In f (y ∷ ys))
        → x ≡ y
    first_same x y xs ys s t h = elim ((h x).0 (inl refl)) [
      | inl e ↦ e
      | inr m ↦ elim ((h y).1 (inl refl)) [
        | inl e ↦ sym e
        | inr n ↦
            let less = All-In (λ g. fact_cmp y g ≡ Ordering.lt) ys x t.0 m in
            let more = All-In (λ g. fact_cmp x g ≡ Ordering.lt) xs y s.0 n in
            absurd (cc (fact_cmp_trans x y x more less, fact_cmp_self x))
      ]
    ]

    tail_in :
        (x y : Fact) (xs ys : List Fact)
        → IsStrict (x ∷ xs)
        → x ≡ y
        → ((g : Fact) → In g (x ∷ xs) → In g (y ∷ ys))
        → (f : Fact) → In f xs
        → In f ys
    tail_in x y xs ys s same h f m = elim (h f (inr m)) [
      | inr n ↦ n
      | inl e ↦ absurd (Below-fresh x xs s.0 (subst (λ g. In g xs) (e ∙ sym same) m))
    ]

    ap2_cons : {x y : Fact} {xs ys : List Fact} → x ≡ y → xs ≡ ys → (x ∷ xs) ≡ (y ∷ ys)
    ap2_cons e k = cc

pub length-union :
    (n : ℕ) (cs ds : List Fact)
    → length cs + length ds ≤ n
    → length (union n cs ds) ≡ length cs + fresh_count n cs ds
unfolding union fresh_count
length-union zero [] [] h = omega arith
length-union zero (c ∷ cs) ds h = absurd (omega arith)
length-union zero [] (d ∷ ds) h = absurd (omega arith)
length-union (suc n) cs ds h = elim (Option-cases (choose cs ds)) [
  | inl e ↦
      let (ce, de) = choose-none cs ds e in rw (e, union, fresh_count) (omega (arith, ap length ce))
  | inr (r, e) ↦
      let t = choose-Takes cs ds r e in
      let shorter = t.shorter in
      let taken = t.taken in
      let ih = length-union n r.current r.delta (omega arith) in
      rw (e, union, fresh_count) (ground arith)
]
