-- ===== src/Edb.antt =====
-- The extensional database, src/core/maelys_datalog_edb.c from `maelys_datalog_edb_init` on.
-- `facts` is the pool up to `fact_count`, which `fact_set.facts` and `fact_set.count` name once
-- more; the symbol table and the registry behind its pointers are fields.
pub mod Invariant
pub mod Insert
pub mod Batch
pub mod Text
pub mod TextBatch
use mathlib.Core.Bool.{cond}
use maelys_datalog.Prelude.{
  ℕ, zero, suc, ◌+◌, ◌-◌, Bool, true, false, not, ◌&&◌, ◌||◌, List, [], ◌∷◌, ◌++◌, Option, none,
  some, length, ltb, leb, ◌==◌, if◌then◌else◌, Bytes, Rc, ok, invalid_argument, invalid_field,
  invalid_state, forbidden, payload_too_large, Checked, refused, passed, ◌>>=◌, ◌>>◌,
}
use maelys_datalog.Bounds.{max_arity, max_edb_facts, max_facts_per_pred}
use maelys_datalog.Fact.{Term, symbol, Fact}
use maelys_datalog.FactSet.{FactSet, bump, fact_set_init, fact_set_contains}
use maelys_datalog.Registry.{
  Registry, Entry, kind_edb, kind_policy_fact, has_flag, registry_find, registry_get,
  registry_atom_allowed,
}
use maelys_datalog.Symbols.{SymbolTable, symbol_intern, symbol_id_is_valid}

pub record Edb : Type 0 where
  pub fact_set : FactSet
  pub facts_per_pred : ℕ → ℕ
  pub immutable : Bool
  pub symbols : SymbolTable
  pub registry : Registry

abbrev pub facts : Edb → List Fact
facts e = e.fact_set.facts

abbrev pub fact_count : Edb → ℕ
fact_count e = length e.fact_set.facts

abbrev pub fact_capacity : Edb → ℕ
fact_capacity e = e.fact_set.capacity

unfoldable pub edb_init : ℕ → SymbolTable → Registry → Edb
unfolding fact_set_init
edb_init capacity symbols registry = record {
  fact_set = fact_set_init capacity;
  facts_per_pred = λ _. 0;
  immutable = false;
  symbols = symbols;
  registry = registry;
}

unfoldable pub edb_clear : Edb → Edb
edb_clear e = record e {
  fact_set = record { facts = []; capacity = e.fact_set.capacity; sorted = true };
  facts_per_pred = λ _. 0;
  immutable = false;
}

pub edb_contains : Edb → Fact → Bool
edb_contains e fact = fact_set_contains e.fact_set fact

abbrev pub refuse_if : Bool → Rc → Checked (Unit {0})
refuse_if b rc = cond b (refused rc) (passed tt)

abbrev pub or_refuse : {A : Type 0} → Option A → Rc → Checked A
or_refuse none rc = refused rc
or_refuse (some a) rc = passed a

-- The lookup of an EDB predicate that `validate_fact` and the two `validate_edb_symbol_…` targets
-- share: it must be declared, not be a policy fact, and be an EDB predicate.
unfoldable pub edb_predicate : Edb → Bytes → ℕ → Checked ℕ
edb_predicate e predicate arity = do
  refuse_if e.immutable invalid_state
  pid ← or_refuse (registry_find e.registry predicate arity) invalid_field
  def ← or_refuse (registry_get e.registry pid) invalid_field
  refuse_if (has_flag def.kind_flags kind_policy_fact) forbidden
  refuse_if (not (has_flag def.kind_flags kind_edb)) invalid_field
  passed pid

abbrev pub is_full : Edb → Bool
is_full e = leb (fact_capacity e) (fact_count e) || leb max_edb_facts (fact_count e)

abbrev pub is_pred_full : Edb → ℕ → Bool
is_pred_full e pid = leb max_facts_per_pred (e.facts_per_pred pid)

unfoldable pub validate_fact : Edb → Bytes → List Term → Checked Fact
validate_fact e predicate terms = do
  refuse_if (ltb max_arity (length terms)) invalid_argument
  pid ← edb_predicate e predicate (length terms)
  refuse_if (is_full e) payload_too_large
  refuse_if (is_pred_full e pid) payload_too_large
  passed (record { predicate_id = pid; terms = terms })

-- The write at the end of `add_fact`.
abbrev pub append_fact : Edb → Fact → Edb
append_fact e f = record e {
  fact_set = record { facts = facts e ++ f ∷ []; capacity = e.fact_set.capacity; sorted = false };
  facts_per_pred = bump e.facts_per_pred f.predicate_id;
}

unfoldable pub edb_add_fact : Edb → Bytes → List Term → Rc × Edb
edb_add_fact e predicate terms = elim (validate_fact e predicate terms) [
  | refused rc ↦ (rc, e)
  | passed f ↦ if edb_contains e f then (ok, e) else (ok, append_fact e f)
]

unfoldable pub validate_edb_symbol_target : Edb → Bytes → ℕ → Checked (Unit {0})
validate_edb_symbol_target e predicate arity = do
  refuse_if (arity == 0 || ltb max_arity arity) invalid_argument
  edb_predicate e predicate arity
  passed tt

unfoldable pub validate_edb_symbol_batch_target : Edb → Bytes → ℕ → ℕ → Checked (Unit {0})
validate_edb_symbol_batch_target e predicate arity count = do
  refuse_if (arity == 0 || ltb max_arity arity) invalid_argument
  pid ← edb_predicate e predicate arity
  refuse_if
      (ltb (fact_capacity e) (fact_count e)
        || ltb max_edb_facts (fact_count e)
        || ltb max_facts_per_pred (e.facts_per_pred pid))
      payload_too_large
  refuse_if (ltb (fact_capacity e - fact_count e) count) payload_too_large
  refuse_if (ltb (max_edb_facts - fact_count e) count) payload_too_large
  refuse_if (ltb (max_facts_per_pred - e.facts_per_pred pid) count) payload_too_large
  passed tt

unfoldable pub validate_edb_symbol_capacity : Edb → Bytes → ℕ → Checked (Unit {0})
validate_edb_symbol_capacity e predicate arity = do
  refuse_if (is_full e) payload_too_large
  pid ← or_refuse (registry_find e.registry predicate arity) invalid_field
  refuse_if (is_pred_full e pid) payload_too_large

unfoldable pub validate_symbol_id : Edb → ℕ → Checked (Unit {0})
validate_symbol_id e id = refuse_if (not (symbol_id_is_valid e.symbols id)) invalid_argument

-- The code, the EDB with its symbol table, and `*out_id`, 0 where it is not written.
unfoldable pub edb_intern_runtime_symbol : Edb → Bytes → Rc × Edb × ℕ
edb_intern_runtime_symbol e text =
    if e.immutable
    then (invalid_state, e, 0)
    else let (rc, symbols, id) = symbol_intern e.symbols text in
      (rc, record e { symbols = symbols }, id)

-- Go on behind a check.
abbrev pub after_check : {A : Type 0} → Edb → Checked A → Rc × Edb → Rc × Edb
after_check e (refused rc) next = (rc, e)
after_check e (passed _) next = next

unfoldable pub edb_add_symbol_id_fact : Edb → Bytes → ℕ → Rc × Edb
edb_add_symbol_id_fact e predicate value =
    after_check e
      (validate_edb_symbol_target e predicate 1
        >> validate_symbol_id e value
        >> validate_edb_symbol_capacity e predicate 1)
      (edb_add_fact e predicate (symbol value ∷ []))

unfoldable pub edb_add_symbol_ids_fact : Edb → Bytes → ℕ → ℕ → Rc × Edb
edb_add_symbol_ids_fact e predicate left right =
    after_check e
      (validate_edb_symbol_target e predicate 2
        >> validate_symbol_id e left
        >> validate_symbol_id e right
        >> validate_edb_symbol_capacity e predicate 2)
      (edb_add_fact e predicate (symbol left ∷ symbol right ∷ []))

-- The first loop of a batch.
unfoldable pub validate_symbol_ids : Edb → List ℕ → Checked (Unit {0})
validate_symbol_ids e [] = passed tt
validate_symbol_ids e (id ∷ ids) = validate_symbol_id e id >> validate_symbol_ids e ids

-- The second loop, which stops at the first failure.
unfoldable pub add_rows : Edb → Bytes → List (List Term) → Rc × Edb
add_rows e predicate [] = (ok, e)
add_rows e predicate (row ∷ rows) =
    let (rc, e') = edb_add_fact e predicate row in
    elim rc [ ok ↦ add_rows e' predicate rows | failed ↦ (failed, e') ]

abbrev pub symbol_row : ℕ → List Term
symbol_row id = symbol id ∷ []

abbrev pub symbol_rows : List ℕ → List (List Term)
symbol_rows [] = []
symbol_rows (id ∷ ids) = symbol_row id ∷ symbol_rows ids

unfoldable pub edb_add_symbol_id_facts : Edb → Bytes → List ℕ → Rc × Edb
edb_add_symbol_id_facts e predicate [] = (ok, e)
edb_add_symbol_id_facts e predicate (id ∷ ids) =
    after_check e
      (validate_edb_symbol_batch_target e predicate 1 (length (id ∷ ids))
        >> validate_symbol_ids e (id ∷ ids))
      (add_rows e predicate (symbol_rows (id ∷ ids)))
