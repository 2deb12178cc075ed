-- ===== src/Tests/Names.antt =====
-- The predicate registry and the symbol table.
use maelys_datalog.Prelude.{
  ◌↔◌, ℕ, true, false, [], ◌∷◌, ◌≡◌, ◌≢◌, ◌||◌, refl, ap, arith, some, Bytes, same_bytes, ok,
  invalid_state,
}
use maelys_datalog.Registry.{
  Registry, registry_init, registry_add, registry_add_atom, registry_atom_allowed, registry_find,
  registry_get, entry_named, find_from, has_atom, valid_kind_flags, Entry,
}
use maelys_datalog.Registry.Invariant
use maelys_datalog.Registry.Lookup.{
  HasFlags, registry_find_iff, registry_add_keeps, registry_add-find,
}
use maelys_datalog.Registry.Atoms.{registry_add_atom-allowed}
use maelys_datalog.Symbols.{
  SymbolTable, symbol_table_init, symbol_intern, symbol_lookup_readonly, symbol_text, fnv1a, probe,
  look, scan,
}
use maelys_datalog.Symbols.Invariant as SymbolInvariant
use maelys_datalog.Symbols.Intern.{
  symbol_intern-IsValid, symbol_intern-text, symbol_intern_again, symbol_intern_fails,
  symbol_table_init-IsValid,
}
use maelys_datalog.Symbols.Readonly.{Answers, symbol_lookup_readonly-Answers}

-- "user" and "role".
abbrev pub user : Bytes
user = b'u' ∷ b's' ∷ b'e' ∷ b'r' ∷ []

abbrev pub role : Bytes
role = b'r' ∷ b'o' ∷ b'l' ∷ b'e' ∷ []

unfoldable pub with_user : Registry
with_user = (registry_add registry_init user 1 5).1

adds : registry_add registry_init user 1 5 ≡ (
  ok,
  record {
    defs = (record { name = user; arity = 1; kind_flags = 5 }) ∷ [];
    atoms = [];
    frozen = false;
  },
)
unfolding registry_add entry_named valid_kind_flags
adds = refl

with_user-IsValid : Invariant.IsValid with_user
unfolding with_user
with_user-IsValid =
    Invariant.registry_add-IsValid registry_init user 1 5 Invariant.registry_init-IsValid

registry_add-IsValid_example : Invariant.IsValid (registry_add with_user role 2 1).1
registry_add-IsValid_example = Invariant.registry_add-IsValid with_user role 2 1 with_user-IsValid

registry_add-find_example :
    let after = (registry_add registry_init user 1 5).1 in
    (id : ℕ) × (d : Entry) × (registry_find after user 1 ≡ some id)
    × (registry_get after id ≡ some d)
    × (d.name ≡ user)
    × (d.arity ≡ 1)
    × HasFlags d.kind_flags 5
registry_add-find_example =
    registry_add-find registry_init user 1 5 Invariant.registry_init-IsValid (ap (λ r. r.0) adds)

finds_user : registry_find with_user user 1 ≡ some 0
unfolding with_user registry_find find_from registry_add entry_named valid_kind_flags same_bytes
finds_user = refl

registry_add_keeps_example : registry_find (registry_add with_user role 2 1).1 user 1 ≡ some 0
registry_add_keeps_example = registry_add_keeps with_user role 2 1 user 1 0 finds_user

abbrev pub user_entry : Entry
user_entry = record { name = user; arity = 1; kind_flags = 5 }

has_user : registry_get with_user 0 ≡ some user_entry
unfolding with_user registry_add entry_named valid_kind_flags
has_user = refl

registry_find_iff_example :
    (registry_find with_user user 1 ≡ some 0)
    ↔ ((d : Entry) × (registry_get with_user 0 ≡ some d) × (d.name ≡ user) × (d.arity ≡ 1))
registry_find_iff_example = registry_find_iff with_user user 1 0 with_user-IsValid

allows : (registry_add_atom registry_init role).0 ≡ ok
unfolding registry_add_atom has_atom
allows = refl

registry_add_atom-allowed_example :
    registry_atom_allowed (registry_add_atom registry_init role).1 user
    ≡ (registry_atom_allowed registry_init user || same_bytes role user)
registry_add_atom-allowed_example = registry_add_atom-allowed registry_init role user allows

-- A table with one symbol.
pub with_role : SymbolTable
with_role = (symbol_intern symbol_table_init role).1

interns : (symbol_intern symbol_table_init role).0 ≡ ok
unfolding symbol_intern probe look fnv1a
interns = refl

pub with_role-IsValid : SymbolInvariant.IsValid with_role
unfolding with_role
with_role-IsValid = symbol_intern-IsValid symbol_table_init role symbol_table_init-IsValid

symbol_intern-IsValid_example : SymbolInvariant.IsValid (symbol_intern with_role user).1
symbol_intern-IsValid_example = symbol_intern-IsValid with_role user with_role-IsValid

symbol_intern-text_example :
    let (rc, after, id) = symbol_intern symbol_table_init role in
    (symbol_text after id ≡ some role)
    × ((old : ℕ) (x : Bytes)
        → symbol_text symbol_table_init old ≡ some x
        → symbol_text after old ≡ some x)
symbol_intern-text_example =
    symbol_intern-text symbol_table_init role symbol_table_init-IsValid interns

symbol_intern_again_example :
    let (rc, after, id) = symbol_intern symbol_table_init role in
    symbol_intern after role ≡ (ok, after, id)
symbol_intern_again_example =
    symbol_intern_again symbol_table_init role symbol_table_init-IsValid interns

symbol_intern_fails_example :
    ((symbol_intern with_role user).0 ≢ invalid_state)
    × ((symbol_intern with_role user).0 ≢ ok → (symbol_intern with_role user).1 ≡ with_role)
symbol_intern_fails_example = symbol_intern_fails with_role user with_role-IsValid

symbol_lookup_readonly-Answers_example :
    Answers with_role role (symbol_lookup_readonly with_role role)
symbol_lookup_readonly-Answers_example =
    symbol_lookup_readonly-Answers with_role role with_role-IsValid (omega arith)

looks_up : symbol_lookup_readonly with_role role ≡ (ok, 1, true)
unfolding with_role symbol_lookup_readonly symbol_intern probe look scan fnv1a same_bytes
looks_up = refl
