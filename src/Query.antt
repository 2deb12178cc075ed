-- ===== src/Query.antt =====
-- Which predicates a query may ask for, src/core/maelys_datalog_query.c.
pub mod Permission
use maelys_datalog.Prelude.{
  ℕ, Bool, true, false, not, ◌&&◌, ◌||◌, List, [], ◌∷◌, Option, none, some, ◌==◌, if◌then◌else◌,
  Bytes, same_bytes, Rc, invalid_field, Checked, refused, passed,
}
use maelys_datalog.Registry.{Registry, registry_find, registry_get, has_flag, kind_query}

-- `maelys_datalog_query_whitelist_entry_t`.
pub record QueryWhitelistEntry : Type 0 where
  pub name : Bytes
  pub arity : ℕ

-- The fields of a ruleset that a query reads.
pub record QueryRules : Type 0 where
  pub registry : Registry
  pub query_whitelist : List QueryWhitelistEntry
  pub enforces_query_whitelist : Bool

-- The loop of `whitelist_contains`.
unfoldable pub contains_from : List QueryWhitelistEntry → Bytes → ℕ → Bool
contains_from [] predicate arity = false
contains_from (w ∷ ws) predicate arity =
    if w.arity == arity && same_bytes w.name predicate
    then true
    else contains_from ws predicate arity

unfoldable pub query_whitelist_contains : QueryRules → Bytes → ℕ → Bool
query_whitelist_contains r predicate arity = contains_from r.query_whitelist predicate arity

-- The code, or `*out_pid`.
unfoldable pub validate_query_predicate : QueryRules → Bytes → ℕ → Checked ℕ
validate_query_predicate r predicate arity =
    if r.enforces_query_whitelist && not (query_whitelist_contains r predicate arity)
    then refused Rc.forbidden
    else elim (registry_find r.registry predicate arity) [
      | none ↦ refused invalid_field
      | some pid ↦ elim (registry_get r.registry pid) [
        | none ↦ refused invalid_field
        | some def ↦
            if not (has_flag def.kind_flags kind_query) then refused invalid_field else passed pid
      ]
    ]
