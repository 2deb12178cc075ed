-- ===== src/Lib.antt =====
-- The verification library of Maelys Datalog.
--
-- The program compiles policies written as Datalog rules, holds the facts of a request in an
-- extensional database (EDB), and computes the derived facts and a decision. This library models
-- the data that everything else stands on, how it is kept, and the solve of the rules:
--   Bounds     the limits of the SMALL profile, src/core/maelys_datalog_types.h
--   Fact       terms, facts and their order, src/core/maelys_datalog_types.h,
--              src/core/maelys_datalog_term_internal.h, `maelys_datalog_fact_cmp`
--   FactSet    sorted arrays of facts, src/core/maelys_datalog_edb.c
--   Registry   the declared predicates, src/core/maelys_datalog_predicate_registry.c
--   Symbols    the interned texts, src/core/maelys_datalog_symbol_table.c
--   Edb        the extensional database, src/core/maelys_datalog_edb.c, which looks predicates up
--              in the registry, interns texts in the symbol table and keeps its facts in a fact set
--   Validate   terms, atoms and expressions of a rule, src/compiler/maelys_datalog_validate.c
--   Query      which predicates a query may ask for, src/core/maelys_datalog_query.c
--   Strata     stratification of the rules, src/compiler/maelys_datalog_validate.c
--   Solver     rules and the state of a solve, src/core/maelys_datalog_solver.c, in these parts:
--     Solver.Matching    bindings and the match of an atom with a fact
--     Solver.Comparing   comparisons and 64-bit arithmetic
--     Solver.Filters     filter literals, with src/core/maelys_datalog_filter.c
--     Solver.Ranges      the slices of the EDB snapshot by predicate
--     Solver.Aggregates  count, min, max and sum over a frozen stratum
--     Solver.Derive      the application of a rule along a join order
--     Solver.Plan        the static join order
--     Solver.Solve       the semi-naive rounds of `solve_once_run`, which plans each rule, applies
--                        it, sorts what was derived and removes the duplicates
--   Sort       the introsort, src/core/maelys_datalog_sort_internal.h: Sort.Membership (with
--              Swapping and Parts) is about what it keeps, Sort.Prefix (with Insertion, Heap,
--              Extraction, Split and Ordered) about the order that it leaves
--   Decision   the decision from three queries, src/core/maelys_datalog_decision.c
--   Utf8       the UTF-8 validator, common/maelys_utf8.c; Utf8.Encoding has the encoding of scalar
--              values that it is compared with
--   Lexer      the lexer of policies, src/core/maelys_datalog_lexer.c, which validates its text first
--   Tests      runs at concrete inputs
-- A definition has the name of its C function without the prefix `maelys_datalog_` (`edb_add_fact`
-- for `maelys_datalog_edb_add_fact`). A struct is a record; an array with its count is a list; an
-- array indexed by a bounded number (the counters of predicates, the buckets of the index) is a
-- function. A function that writes through pointers returns its result code with the new values,
-- and what an error leaves is the value it returns then. Text is a list of bytes, without its
-- terminator.
--
-- Bounds and fuel: the numbers are those of the SMALL profile. The merge of two fact sets has as
-- much fuel as facts to take, a binary search as many rounds as there are elements, and the probing
-- of the symbol table the 1024 buckets that the source counts as well; the passes of the
-- stratification are the 129 that the source stops at; the loops of the lexer that the source ends
-- by `return` have one more than the bytes left, and each round reads a byte. An expression has at
-- most 32 nodes and is evaluated to depth 33; the rounds of a solve are at most the 10 of
-- MAX_DEPTH, after which the source fails as well; a scan, a sift or a partition of the sort has
-- the number of elements or the depth that the source counts. The hash and the strata are computed
-- modulo 2 ^ 32; other numbers stay below the bounds of their types by the invariants proved.
--
-- Parameters: the evaluation of a filter and the choice of a join planner are callbacks that a host
-- registers, so the ruleset carries them as functions. The solve is that of a prepared workspace,
-- which borrows the EDB; a term has one of the four known kinds.
--
-- Not modelled: calls with null pointers, a call whose `*out_result` is taken already, and the
-- allocation of memory; the loop over the strata of
-- a solve with negation or aggregates (the literals themselves are modelled), the queries on its
-- result, the proof nodes and premises recorded for explanations, and the texts of diagnostics;
-- `maelys_datalog_edb_finalize` and `maelys_datalog_edb_add_fact_indexed`; the safety of variables
-- and the checks of literals in a rule; the parser, the runtime and the public API; the vendored
-- JSON library.
pub mod Prelude
pub mod Bounds
pub mod Sort
pub mod Fact
pub mod FactSet
pub mod Registry
pub mod Symbols
pub mod Edb
pub mod Validate
pub mod Query
pub mod Decision
pub mod Strata
pub mod Solver
pub mod Utf8
pub mod Lexer
pub mod Tests
