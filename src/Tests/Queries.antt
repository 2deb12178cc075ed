-- ===== src/Tests/Queries.antt =====
-- Queries.
use maelys_datalog.Prelude.{true, [], ◌∷◌, ◌≡◌, ◌↔◌, refl, some, In, same_bytes, passed}
use maelys_datalog.Registry.{
  Entry, registry_find, registry_get, registry_add, find_from, entry_named, valid_kind_flags,
  has_flag, kind_query,
}
use maelys_datalog.Query.{
  QueryRules, validate_query_predicate, query_whitelist_contains, contains_from,
}
use maelys_datalog.Query.Permission.{validate_query_predicate-passed}
use maelys_datalog.Tests.Names.{user, with_user}

abbrev rules : QueryRules
rules = record {
  registry = with_user;
  query_whitelist = (record { name = user; arity = 1 }) ∷ [];
  enforces_query_whitelist = true;
}

lets_user : validate_query_predicate rules user 1 ≡ passed 0
unfolding validate_query_predicate query_whitelist_contains contains_from with_user registry_find
    find_from registry_add entry_named valid_kind_flags same_bytes
lets_user = refl

validate_query_predicate-passed_example : (validate_query_predicate rules user 1 ≡ passed 0) ↔ (
    (rules.enforces_query_whitelist ≡ true
      → In (record { name = user; arity = 1 }) rules.query_whitelist)
    × (registry_find rules.registry user 1 ≡ some 0)
    × ((d : Entry) × (registry_get rules.registry 0 ≡ some d)
        × (has_flag d.kind_flags kind_query ≡ true)))
validate_query_predicate-passed_example = validate_query_predicate-passed rules user 1 0
