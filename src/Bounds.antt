-- ===== src/Bounds.antt =====
-- The bounds of src/core/maelys_datalog_types.h, in the default SMALL profile.
use maelys_datalog.Prelude.{ℕ}

abbrev pub max_arity : ℕ
max_arity = 4

abbrev pub max_predicates : ℕ
max_predicates = 128

abbrev pub max_edb_facts : ℕ
max_edb_facts = 1024

abbrev pub max_idb_facts : ℕ
max_idb_facts = 1024

abbrev pub max_facts_per_pred : ℕ
max_facts_per_pred = 64

abbrev pub max_atoms : ℕ
max_atoms = 256

-- The size of the name arrays in src/core/maelys_datalog_predicate_registry.h.
abbrev pub name_bytes : ℕ
name_bytes = 64

abbrev pub max_string_bytes : ℕ
max_string_bytes = 1024

abbrev pub max_symbols : ℕ
max_symbols = 512

abbrev pub symbol_index_buckets : ℕ
symbol_index_buckets = 1024

abbrev pub string_pool_bytes : ℕ
string_pool_bytes = 32768

abbrev pub max_token_bytes : ℕ
max_token_bytes = 1024

abbrev pub max_int : ℕ
max_int = 2147483647

abbrev pub max_strata : ℕ
max_strata = 4

abbrev pub max_rule_variables : ℕ
max_rule_variables = 32

abbrev pub max_arith_expr_nodes : ℕ
max_arith_expr_nodes = 32

abbrev pub max_body_literals : ℕ
max_body_literals = 8

abbrev pub named_variable_count : ℕ
named_variable_count = 26

abbrev pub max_rule_facts : ℕ
max_rule_facts = 128

-- The rounds of the solver.
abbrev pub max_depth : ℕ
max_depth = 10

abbrev pub max_filter_programs : ℕ
max_filter_programs = 128

abbrev pub filter_pattern_pool_bytes : ℕ
filter_pattern_pool_bytes = 8192

abbrev pub max_filter_pattern_bytes : ℕ
max_filter_pattern_bytes = 256

abbrev pub max_filter_evaluations : ℕ
max_filter_evaluations = 8192

abbrev pub max_filter_cost_units : ℕ
max_filter_cost_units = 1048576
