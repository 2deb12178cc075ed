-- ===== src/Tests/Database.antt =====
-- The extensional database.
use maelys_datalog.Prelude.{true, List, [], ◌∷◌, ◌≡◌, ◌↔◌, ◌⊎◌, refl, arith, same_bytes, ok}
use maelys_datalog.Prelude.Integer.{pos}
use maelys_datalog.Fact.{Term, integer, Fact}
use maelys_datalog.Registry.{registry_find, find_from, registry_add, entry_named, valid_kind_flags}
use maelys_datalog.Symbols.{symbol_table_init}
use maelys_datalog.Symbols.Intern.{symbol_table_init-IsValid}
use maelys_datalog.Edb.{
  Edb, edb_init, edb_contains, edb_add_fact, edb_predicate, symbol_rows, edb_add_symbol_id_facts,
}
use maelys_datalog.Edb.Invariant.{IsValid, Accepts, edb_add_fact-IsValid}
use maelys_datalog.Edb.Insert.{edb_add_fact-ok_iff, edb_add_fact-contains, edb_init-IsValid}
use maelys_datalog.Edb.Batch.{Outcome, edb_add_symbol_id_facts-Outcome}
use maelys_datalog.Edb.Text.{edb_add_runtime_symbol_facts}
use maelys_datalog.Edb.TextBatch.{TextOutcome, edb_add_runtime_symbol_facts-TextOutcome}
use maelys_datalog.Tests.Names.{user_entry, user, role, with_user}

abbrev start : Edb
start = edb_init 8 symbol_table_init with_user

start-IsValid : IsValid start
start-IsValid = edb_init-IsValid 8 symbol_table_init with_user

abbrev seven : List Term
seven = integer (pos 7) ∷ []

abbrev user_seven : Fact
user_seven = record { predicate_id = 0; terms = seven }

start-Accepts : Accepts start user seven user_seven
unfolding edb_init edb_predicate with_user registry_find find_from registry_add entry_named
    valid_kind_flags same_bytes
start-Accepts = record {
  small = omega arith;
  target = record {
    open' = refl;
    found = refl;
    def = user_entry;
    declared = refl;
    is_edb = refl;
    not_policy = refl;
  };
  terms_are = refl;
  capacity_left = omega arith;
  room_left = omega arith;
  predicate_left = omega arith;
}

edb_add_fact-IsValid_example : IsValid (edb_add_fact start user seven).1
edb_add_fact-IsValid_example = edb_add_fact-IsValid start user seven start-IsValid

edb_add_fact-ok_iff_example :
    ((edb_add_fact start user seven).0 ≡ ok) ↔ ((f : Fact) × Accepts start user seven f)
edb_add_fact-ok_iff_example = edb_add_fact-ok_iff start user seven

edb_add_fact-contains_example :
    (edb_contains (edb_add_fact start user seven).1 user_seven ≡ true)
    ↔ ((user_seven ≡ user_seven) ⊎ (edb_contains start user_seven ≡ true))
edb_add_fact-contains_example =
    edb_add_fact-contains start user seven user_seven user_seven start-IsValid start-Accepts

edb_add_symbol_id_facts-Outcome_example :
    Outcome start user 1
      (symbol_rows (1 ∷ 2 ∷ []))
      (edb_add_symbol_id_facts start user (1 ∷ 2 ∷ []))
edb_add_symbol_id_facts-Outcome_example =
    edb_add_symbol_id_facts-Outcome start user (1 ∷ 2 ∷ []) start-IsValid

edb_add_runtime_symbol_facts-TextOutcome_example :
    TextOutcome start user
      (role ∷ user ∷ [])
      (edb_add_runtime_symbol_facts start user (role ∷ user ∷ []))
unfolding edb_init
edb_add_runtime_symbol_facts-TextOutcome_example =
    edb_add_runtime_symbol_facts-TextOutcome start user (role ∷ user ∷ []) start-IsValid
      symbol_table_init-IsValid
