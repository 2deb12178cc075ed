-- ===== src/Query/Permission.antt =====
-- What a query that is let through has been checked for.
use maelys_datalog.Prelude.{
  ℕ, true, ◌&&◌, List, [], ◌∷◌, some, ◌≡◌, ◌↔◌, inl, inr, refl, ap, arith, ◌==◌, Bytes, same_bytes,
  same_bytes_iff, In, passed, and_true, ==_iff, sym, Bool-cases, Option-cases,
}
use maelys_datalog.Registry.{Entry, registry_find, registry_get, has_flag, kind_query}
use maelys_datalog.Query.{
  QueryWhitelistEntry, QueryRules, contains_from, query_whitelist_contains,
  validate_query_predicate,
}

-- The test of one entry.
is_entry_iff :
    (w : QueryWhitelistEntry) (predicate : Bytes) (arity : ℕ)
    → ((w.arity == arity && same_bytes w.name predicate) ≡ true)
      ↔ (record { name = predicate; arity = arity } ≡ w)
is_entry_iff w predicate arity = (
  λ h.
      let (a, b) = and_true (w.arity == arity) (same_bytes w.name predicate) h in
      let same_arity = (==_iff w.arity arity).0 a in
      let same_name = (same_bytes_iff w.name predicate).0 b in cc,
  λ e.
      let same_arity : w.arity ≡ arity = sym (ap (λ (x : QueryWhitelistEntry). x.arity) e) in
      let same_name : w.name ≡ predicate = sym (ap (λ (x : QueryWhitelistEntry). x.name) e) in
      let a = (==_iff w.arity arity).1 same_arity in
      let b = (same_bytes_iff w.name predicate).1 same_name in rw (a, b) refl,
)

pub contains_from_iff :
    (ws : List QueryWhitelistEntry) (predicate : Bytes) (arity : ℕ)
    → (contains_from ws predicate arity ≡ true) ↔ In (record { name = predicate; arity = arity }) ws
unfolding contains_from
contains_from_iff [] predicate arity = (λ h. cc, λ m. absurd m)
contains_from_iff (w ∷ ws) predicate arity =
    elim (Bool-cases (w.arity == arity && same_bytes w.name predicate)) [
      | inl e ↦ rw e (λ h. inl ((is_entry_iff w predicate arity).0 e), λ m. refl)
      | inr e ↦ rw e (
        λ h. inr ((contains_from_iff ws predicate arity).0 h),
        λ m. elim m [
          | inl same ↦ cc (e, (is_entry_iff w predicate arity).1 same)
          | inr m' ↦ (contains_from_iff ws predicate arity).1 m'
        ],
      )
    ]

-- `maelys_datalog_validate_query_predicate` lets a query through with an identifier exactly if the
-- whitelist, where it is enforced, has the name with the arity, and the registry has the predicate
-- under that identifier, marked as one to query.
pub validate_query_predicate-passed :
    (r : QueryRules) (predicate : Bytes) (arity pid : ℕ)
    → (validate_query_predicate r predicate arity ≡ passed pid) ↔ (
        (r.enforces_query_whitelist ≡ true
          → In (record { name = predicate; arity = arity }) r.query_whitelist)
        × (registry_find r.registry predicate arity ≡ some pid)
        × ((d : Entry) × (registry_get r.registry pid ≡ some d)
            × (has_flag d.kind_flags kind_query ≡ true)))
unfolding validate_query_predicate query_whitelist_contains
validate_query_predicate-passed r predicate arity pid =
    let listed = contains_from_iff r.query_whitelist predicate arity in
    (
      λ h. elim (Option-cases (registry_get r.registry pid)) [
        | inl n ↦ absurd (ground arith)
        | inr (d, g) ↦ (λ y. listed.0 (ground arith), ground arith, (d, g, ground arith))
      ],
      λ (w, f, (d, g, k)). elim (Bool-cases r.enforces_query_whitelist) [
        | inl y ↦ let l = listed.1 (w y) in ground arith
        | inr n ↦ ground arith
      ],
    )
