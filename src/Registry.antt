-- ===== src/Registry.antt =====
-- The predicate registry, src/core/maelys_datalog_predicate_registry.c and .h: declared
-- predicates with their arity and kind flags, and the atoms that a domain allows.
pub mod Invariant
pub mod Lookup
pub mod Atoms
use maelys_datalog.Prelude.{
  ℕ, zero, suc, ◌+◌, Bool, true, false, not, ◌&&◌, ◌||◌, List, [], ◌∷◌, ◌++◌, Option, none, some,
  length, get_elem?, ltb, leb, ◌==◌, if◌then◌else◌, Bytes, same_bytes, bit_and, bit_or, Rc, ok,
  invalid_argument, invalid_field, invalid_state, payload_too_large,
}
use maelys_datalog.Bounds.{max_arity, max_predicates, max_atoms, name_bytes}

-- `maelys_datalog_predicate_kind_t`.
abbrev pub kind_edb : ℕ
kind_edb = 1

abbrev pub kind_idb : ℕ
kind_idb = 2

abbrev pub kind_query : ℕ
kind_query = 4

abbrev pub kind_policy_fact : ℕ
kind_policy_fact = 8

-- `flags & flag`, as a condition.
abbrev pub has_flag : ℕ → ℕ → Bool
has_flag flags flag = not (bit_and flags flag == 0)

pub record Entry : Type 0 where
  pub name : Bytes
  pub arity : ℕ
  pub kind_flags : ℕ

pub record Registry : Type 0 where
  pub defs : List Entry
  pub atoms : List Bytes
  pub frozen : Bool

abbrev pub registry_init : Registry
registry_init = record { defs = []; atoms = []; frozen = false }

unfoldable pub valid_kind_flags : ℕ → Bool
valid_kind_flags kind_flags =
    kind_flags == kind_edb
    || kind_flags == bit_or kind_edb kind_query
    || kind_flags == kind_policy_fact
    || kind_flags == bit_or kind_policy_fact kind_query
    || kind_flags == kind_idb
    || kind_flags == bit_or kind_query kind_idb

-- `*s` is the terminator.
abbrev pub is_empty : Bytes → Bool
is_empty [] = true
is_empty (_ ∷ _) = false

-- The entry of that name that the loop of `add` stops at.
unfoldable pub entry_named : List Entry → Bytes → Option Entry
entry_named [] name = none
entry_named (d ∷ ds) name = if same_bytes d.name name then some d else entry_named ds name

unfoldable pub registry_add : Registry → Bytes → ℕ → ℕ → Rc × Registry
registry_add r name arity kind_flags =
    if is_empty name || ltb max_arity arity || not (valid_kind_flags kind_flags)
    then (invalid_argument, r)
    else if r.frozen
    then (invalid_state, r)
    else elim (entry_named r.defs name) [
      | some d ↦
          if not (d.arity == arity)
          then (invalid_field, r)
          else if d.kind_flags == kind_flags || bit_or d.kind_flags kind_flags == d.kind_flags
          then (ok, r)
          else (invalid_field, r)
      | none ↦
          if leb max_predicates (length r.defs)
          then (payload_too_large, r)
          else if leb name_bytes (length name)
          then (invalid_field, r)
          else (
            ok,
            record r {
              defs =
                  r.defs ++ (record { name = name; arity = arity; kind_flags = kind_flags } ∷ []);
            },
          )
    ]

-- `add_builtin` and `add_domain` are `add` under other names.
pub registry_add_manifest_predicate : Registry → Bytes → ℕ → ℕ → Rc × Registry
registry_add_manifest_predicate r name arity kind_flags =
    if has_flag kind_flags (bit_or kind_edb kind_policy_fact)
    then (invalid_field, r)
    else registry_add r name arity kind_flags

unfoldable pub has_atom : List Bytes → Bytes → Bool
has_atom [] atom = false
has_atom (a ∷ as') atom = same_bytes a atom || has_atom as' atom

unfoldable pub registry_add_atom : Registry → Bytes → Rc × Registry
registry_add_atom r atom =
    if is_empty atom
    then (invalid_argument, r)
    else if r.frozen
    then (invalid_state, r)
    else if has_atom r.atoms atom
    then (ok, r)
    else if leb max_atoms (length r.atoms)
    then (payload_too_large, r)
    else if leb name_bytes (length atom)
    then (invalid_field, r)
    else (ok, record r { atoms = r.atoms ++ atom ∷ [] })

unfoldable pub registry_atom_allowed : Registry → Bytes → Bool
registry_atom_allowed r atom = not (is_empty atom) && has_atom r.atoms atom

unfoldable pub registry_freeze : Registry → Rc × Registry
registry_freeze r = (ok, record r { frozen = true })

pub registry_is_frozen : Registry → Bool
registry_is_frozen r = r.frozen

-- The loop of `find` from entry `i` on.
unfoldable pub find_from : ℕ → List Entry → Bytes → ℕ → Option ℕ
find_from i [] name arity = none
find_from i (d ∷ ds) name arity =
    if d.arity == arity && same_bytes d.name name then some i else find_from (suc i) ds name arity

unfoldable pub registry_find : Registry → Bytes → ℕ → Option ℕ
registry_find r name arity = find_from 0 r.defs name arity

abbrev pub registry_get : Registry → ℕ → Option Entry
registry_get r id = get_elem? r.defs id
