-- ===== src/Edb/Batch.antt =====
-- A batch of identifiers is inserted as a whole or not at all.
use maelys_datalog.Prelude.{
  Checked-cases, ℕ, suc, ◌+◌, ◌≤◌, List, [], ◌∷◌, ◌≡◌, ◌≢◌, ◌↔◌, ◌⊎◌, inl, inr, refl, ◌∙◌, ap, sym,
  subst, arith, length, length-append, In, Bytes, Rc, ok, refused, passed, ◌>>◌, >>=-passed,
}
use maelys_datalog.Bounds.{max_arity, max_edb_facts, max_facts_per_pred}
use maelys_datalog.Fact.{Term, Fact}
use maelys_datalog.Registry.{registry_find, registry_get}
use maelys_datalog.Edb.{
  Edb, facts, fact_count, fact_capacity, edb_predicate, append_fact, edb_add_fact, add_rows,
  symbol_rows, validate_symbol_id, validate_symbol_ids, validate_edb_symbol_batch_target,
  edb_add_symbol_id_facts, after_check,
}
use maelys_datalog.Edb.Invariant.{
  IsValid, IsTarget, passed-IsTarget, Accepts, refuses, present, appends, add_fact-Added,
  edb_add_fact-IsValid,
}
use maelys_datalog.Edb.Insert.{edb_add_fact-ok_iff, In-add_fact}

-- The facts of a batch.
abbrev pub row_facts : ℕ → List (List Term) → List Fact
row_facts pid [] = []
row_facts pid (row ∷ rows) = (record { predicate_id = pid; terms = row }) ∷ row_facts pid rows

-- There is room for `n` facts of predicate `pid`.
pub record HasRoom (e : Edb) (predicate : Bytes) (arity pid n : ℕ) : Type 0 where
  pub small : arity ≤ max_arity
  pub target : IsTarget e predicate arity pid
  pub capacity_left : fact_count e + n ≤ fact_capacity e
  pub room_left : fact_count e + n ≤ max_edb_facts
  pub predicate_left : e.facts_per_pred pid + n ≤ max_facts_per_pred

abbrev pub HaveArity : ℕ → List (List Term) → Type 0
HaveArity arity [] = Unit
HaveArity arity (row ∷ rows) = (length row ≡ arity) × HaveArity arity rows

-- The target is given by the registry, and by whether the EDB is finalized.
pub IsTarget-same :
    (e e' : Edb) (predicate : Bytes) (arity pid : ℕ)
    → e'.immutable ≡ e.immutable
    → e'.registry ≡ e.registry
    → IsTarget e predicate arity pid
    → IsTarget e' predicate arity pid
IsTarget-same e e' predicate arity pid i r t = record {
  open' = i ∙ t.open';
  found = ap (λ x. registry_find x predicate arity) r ∙ t.found;
  def = t.def;
  declared = ap (λ x. registry_get x pid) r ∙ t.declared;
  is_edb = t.is_edb;
  not_policy = t.not_policy;
}

add_fact-symbols :
    (e : Edb) (predicate : Bytes) (row : List Term)
    → (edb_add_fact e predicate row).1.symbols ≡ e.symbols
add_fact-symbols e predicate row = elim (add_fact-Added e predicate row) [
  | refuses rc h s ↦ rw s refl
  | present f a c s ↦ rw s refl
  | appends f a c s ↦ rw s refl
]

module _ (predicate : Bytes) (arity pid : ℕ) where
  HasRoom-Accepts :
      (e : Edb) (row : List Term) (n : ℕ)
      → length row ≡ arity
      → HasRoom e predicate arity pid (suc n)
      → Accepts e predicate row (record { predicate_id = pid; terms = row })
  HasRoom-Accepts e row n len r = record {
    small = omega (arith, r.small);
    target = subst (λ (n : ℕ). IsTarget e predicate n pid) (sym len) r.target;
    terms_are = refl;
    capacity_left = omega (arith, r.capacity_left);
    room_left = omega (arith, r.room_left);
    predicate_left = omega (arith, r.predicate_left);
  }

  HasRoom-less :
      (e : Edb) (n : ℕ) → HasRoom e predicate arity pid (suc n) → HasRoom e predicate arity pid n
  HasRoom-less e n r = record {
    small = r.small;
    target = r.target;
    capacity_left = omega (arith, r.capacity_left);
    room_left = omega (arith, r.room_left);
    predicate_left = omega (arith, r.predicate_left);
  }

  HasRoom-add_fact :
      (e : Edb) (row : List Term) (n : ℕ)
      → length row ≡ arity
      → HasRoom e predicate arity pid (suc n)
      → HasRoom (edb_add_fact e predicate row).1 predicate arity pid n
  HasRoom-add_fact e row n len r = elim (add_fact-Added e predicate row) [
    | refuses rc h s ↦ rw s (HasRoom-less e n r)
    | present f a c s ↦ rw s (HasRoom-less e n r)
    | appends f a c s ↦ rw s (record {
      small = r.small;
      target = IsTarget-same e (append_fact e f) predicate arity pid refl refl r.target;
      capacity_left = omega (arith, length-append (facts e) (f ∷ []), r.capacity_left);
      room_left = omega (arith, length-append (facts e) (f ∷ []), r.room_left);
      predicate_left = ground (arith, r.predicate_left);
    })
  ]

  -- What inserting rows that have room leaves.
  pub record AllAdded (e : Edb) (rows : List (List Term)) (r : Rc × Edb) : Type 0 where
    pub succeeds : r.0 ≡ ok
    pub valid : IsValid r.1
    pub symbols_kept : r.1.symbols ≡ e.symbols
    pub members : (g : Fact) → In g (facts r.1) ↔ (In g (row_facts pid rows) ⊎ In g (facts e))

  pub add_rows-AllAdded :
      (rows : List (List Term)) (e : Edb)
      → IsValid e
      → HaveArity arity rows
      → HasRoom e predicate arity pid (length rows)
      → AllAdded e rows (add_rows e predicate rows)
  unfolding add_rows
  add_rows-AllAdded [] e v h r = record {
    succeeds = refl;
    valid = v;
    symbols_kept = refl;
    members = λ g. (inr, λ m. elim m [ inl a ↦ absurd a | inr m ↦ m ]);
  }
  add_rows-AllAdded (row ∷ rows) e v h r =
      let a = HasRoom-Accepts e row (length rows) h.0 r in
      let f : Fact = record { predicate_id = pid; terms = row } in
      let done = (edb_add_fact-ok_iff e predicate row).1 (f, a) in
      let ih =
        add_rows-AllAdded rows (edb_add_fact e predicate row).1
          (edb_add_fact-IsValid e predicate row v) h.1
          (HasRoom-add_fact e row (length rows) h.0 r) in
      rw (done, add_rows)
        (record {
          succeeds = ih.succeeds;
          valid = ih.valid;
          symbols_kept = ih.symbols_kept ∙ add_fact-symbols e predicate row;
          members = λ g. ground (arith, ih.members g, In-add_fact e predicate row f g v a);
        })

batch_target-HasRoom :
    (e : Edb) (predicate : Bytes) (arity n : ℕ)
    → validate_edb_symbol_batch_target e predicate arity n ≡ passed tt
    → (pid : ℕ) × HasRoom e predicate arity pid n
unfolding validate_edb_symbol_batch_target
batch_target-HasRoom e predicate arity n h =
    elim (Checked-cases (edb_predicate e predicate arity)) [
      | inl (rc, t) ↦ absurd (ground arith)
      | inr (pid, t) ↦ (
        pid,
        record {
          small = ground arith;
          target = passed-IsTarget e predicate arity pid t;
          capacity_left = ground arith;
          room_left = ground arith;
          predicate_left = ground arith;
        },
      )
    ]

target-ne-ok :
    (e : Edb) (predicate : Bytes) (arity n : ℕ) (rc : Rc)
    → validate_edb_symbol_batch_target e predicate arity n ≡ refused rc
    → rc ≢ ok
unfolding validate_edb_symbol_batch_target edb_predicate
target-ne-ok e predicate arity n rc h = ground arith

ids-ne-ok : (e : Edb) (ids : List ℕ) (rc : Rc) → validate_symbol_ids e ids ≡ refused rc → rc ≢ ok
unfolding validate_symbol_ids validate_symbol_id
ids-ne-ok e [] rc h = cc
ids-ne-ok e (id ∷ ids) rc h = ground (arith, ids-ne-ok e ids rc)

symbol_rows-HaveArity : (ids : List ℕ) → HaveArity 1 (symbol_rows ids)
symbol_rows-HaveArity [] = tt
symbol_rows-HaveArity (id ∷ ids) = (omega arith, symbol_rows-HaveArity ids)

length-symbol_rows : (ids : List ℕ) → length (symbol_rows ids) ≡ length ids
length-symbol_rows [] = refl
length-symbol_rows (id ∷ ids) = ap suc (length-symbol_rows ids)

-- How a batch for a predicate ends: an error leaves the EDB as it was, a batch without rows as well,
-- and otherwise all its facts are added, with the identifier that the registry has for the
-- predicate.
pub data Outcome (e : Edb) (predicate : Bytes) (arity : ℕ) (rows : List (List Term)) (r : Rc × Edb)
    : Type 0 where
  rejected : r.0 ≢ ok → r.1 ≡ e → Outcome e predicate arity rows r
  empty : rows ≡ [] → r ≡ (ok, e) → Outcome e predicate arity rows r
  inserted :
      (pid : ℕ)
      → IsTarget e predicate arity pid
      → r.0 ≡ ok
      → IsValid r.1
      → r.1.symbols ≡ e.symbols
      → ((g : Fact) → In g (facts r.1) ↔ (In g (row_facts pid rows) ⊎ In g (facts e)))
      → Outcome e predicate arity rows r

pub refused-ne-ok :
    (e : Edb) (predicate : Bytes) (arity n : ℕ) (ids : List ℕ) (rc : Rc)
    → (validate_edb_symbol_batch_target e predicate arity n >> validate_symbol_ids e ids)
      ≡ refused rc
    → rc ≢ ok
refused-ne-ok e predicate arity n ids rc h =
    elim (Checked-cases (validate_edb_symbol_batch_target e predicate arity n)) [
      | inl (rc', t) ↦
          let same : rc' ≡ rc = cc (rw t at h) in
          rw (← same) (target-ne-ok e predicate arity n rc' t)
      | inr (u, t) ↦ ids-ne-ok e ids rc (rw t at h)
    ]

-- Non-empty batches are checked as a whole first.
pub checked_rows-Outcome :
    (e : Edb) (predicate : Bytes) (arity : ℕ) (ids : List ℕ) (rows : List (List Term))
    → IsValid e
    → HaveArity arity rows
    → Outcome e predicate arity rows (
        after_check e
          (validate_edb_symbol_batch_target e predicate arity (length rows)
            >> validate_symbol_ids e ids)
          (add_rows e predicate rows))
checked_rows-Outcome e predicate arity ids rows v h =
    elim (Checked-cases (
      validate_edb_symbol_batch_target e predicate arity (length rows)
      >> validate_symbol_ids e ids)) [
        | inl (rc, t) ↦
            rw t (rejected (refused-ne-ok e predicate arity (length rows) ids rc t) refl)
        | inr (u, t) ↦
            let (w, target, _) =
              >>=-passed (validate_edb_symbol_batch_target e predicate arity (length rows))
                (λ _. validate_symbol_ids e ids) t in
            let (pid, room) = batch_target-HasRoom e predicate arity (length rows) target in
            let all = add_rows-AllAdded predicate arity pid rows e v h room in
            rw t (inserted pid room.target all.succeeds all.valid all.symbols_kept all.members)
      ]

-- `maelys_datalog_edb_add_symbol_id_facts` on a valid EDB returns an error and leaves the EDB as it
-- was, or returns OK: an empty batch leaves the EDB as it was, and for another the predicate is a
-- declared EDB predicate of arity 1, the EDB is not finalized, and exactly the facts of this
-- predicate with the identifiers of the batch are added; there is no partial insertion.
pub edb_add_symbol_id_facts-Outcome :
    (e : Edb) (predicate : Bytes) (ids : List ℕ)
    → IsValid e
    → Outcome e predicate 1 (symbol_rows ids) (edb_add_symbol_id_facts e predicate ids)
unfolding edb_add_symbol_id_facts
edb_add_symbol_id_facts-Outcome e predicate [] v = empty refl refl
edb_add_symbol_id_facts-Outcome e predicate (id ∷ ids) v =
    subst
      (λ n. Outcome e predicate 1 (symbol_rows (id ∷ ids)) (
        after_check e
          (validate_edb_symbol_batch_target e predicate 1 n >> validate_symbol_ids e (id ∷ ids))
          (add_rows e predicate (symbol_rows (id ∷ ids)))))
      (length-symbol_rows (id ∷ ids))
      (checked_rows-Outcome e predicate 1 (id ∷ ids) (symbol_rows (id ∷ ids)) v
        (symbol_rows-HaveArity (id ∷ ids)))
