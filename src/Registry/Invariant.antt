-- ===== src/Registry/Invariant.antt =====
-- What every registry built by the operations satisfies.
use maelys_datalog.Prelude.{
  ℕ, ◌≤◌, ◌<◌, true, false, List, [], ◌∷◌, ◌++◌, none, ◌≡◌, ◌≢◌, arith, length, length-append,
  Bytes, same_bytes_iff, ◌⊎◌, inl, inr, All, All-concat,
}
use maelys_datalog.Bounds.{max_arity, max_predicates, name_bytes}
use maelys_datalog.Registry.{
  Entry, Registry, registry_init, valid_kind_flags, is_empty, entry_named, registry_add,
}

-- A declared predicate fits its arrays.
pub record IsEntry (d : Entry) : Type 0 where
  pub named : d.name ≢ []
  pub short : length d.name < name_bytes
  pub small : d.arity ≤ max_arity
  pub flags : valid_kind_flags d.kind_flags ≡ true

abbrev pub IsDistinct : List Entry → Type 0
IsDistinct [] = Unit
IsDistinct (d ∷ ds) = All (λ e. d.name ≢ e.name) ds × IsDistinct ds

pub record IsValid (r : Registry) : Type 0 where
  pub room : length r.defs ≤ max_predicates
  pub entries : All IsEntry r.defs
  pub distinct : IsDistinct r.defs

pub entry_named-none :
    (ds : List Entry) (name : Bytes) → entry_named ds name ≡ none → All (λ d. d.name ≢ name) ds
unfolding entry_named
entry_named-none [] name h = tt
entry_named-none (d ∷ ds) name h =
    (λ e. ground (arith, same_bytes_iff d.name name), entry_named-none ds name (ground arith))

IsDistinct-concat :
    (ds : List Entry) (e : Entry)
    → IsDistinct ds
    → All (λ d. d.name ≢ e.name) ds
    → IsDistinct (ds ++ e ∷ [])
IsDistinct-concat [] e h k = (tt, tt)
IsDistinct-concat (d ∷ ds) e h k =
    (All-concat (λ x. d.name ≢ x.name) ds e h.0 k.0, IsDistinct-concat ds e h.1 k.1)

abbrev pub entry : Bytes → ℕ → ℕ → Entry
entry name arity kind_flags = record { name = name; arity = arity; kind_flags = kind_flags }

abbrev pub with_entry : Registry → Entry → Registry
with_entry r d = record r { defs = r.defs ++ d ∷ [] }

-- What `add` has checked when it writes an entry.
pub record MayAppend (r : Registry) (d : Entry) : Type 0 where
  pub is_entry : IsEntry d
  pub unfrozen : r.frozen ≡ false
  pub fresh : entry_named r.defs d.name ≡ none
  pub room : length r.defs < max_predicates

is_empty-false : (name : Bytes) → is_empty name ≡ false → name ≢ []
is_empty-false [] h = cc
is_empty-false (c ∷ cs) h = λ e. cc

module _ (r : Registry) (name : Bytes) (arity kind_flags : ℕ) where
  append-or_keep :
      ((registry_add r name arity kind_flags).1 ≡ r)
      ⊎ (((registry_add r name arity kind_flags).1 ≡ with_entry r (entry name arity kind_flags))
          × (is_empty name ≡ false)
          × (arity ≤ max_arity)
          × (valid_kind_flags kind_flags ≡ true)
          × (r.frozen ≡ false)
          × (entry_named r.defs name ≡ none)
          × (length r.defs < max_predicates)
          × (length name < name_bytes))
  unfolding registry_add
  append-or_keep = ground arith

  -- The registry after `add` is the old one, or has one more entry that passed the checks.
  pub registry_add-cases :
      ((registry_add r name arity kind_flags).1 ≡ r)
      ⊎ (((registry_add r name arity kind_flags).1 ≡ with_entry r (entry name arity kind_flags))
          × MayAppend r (entry name arity kind_flags))
  registry_add-cases = elim append-or_keep [
    | inl e ↦ inl e
    | inr (e, nonempty, small, flags, unfrozen, fresh, room, short) ↦ inr (
      e,
      record {
        is_entry = record {
          named = is_empty-false name nonempty;
          short = short;
          small = small;
          flags = flags;
        };
        unfrozen = unfrozen;
        fresh = fresh;
        room = room;
      },
    )
  ]

with_entry-IsValid :
    (r : Registry) (d : Entry) → IsValid r → MayAppend r d → IsValid (with_entry r d)
with_entry-IsValid r d v may = record {
  room = omega (arith, length-append r.defs (d ∷ []));
  entries = All-concat IsEntry r.defs d v.entries may.is_entry;
  distinct = IsDistinct-concat r.defs d v.distinct (entry_named-none r.defs d.name may.fresh);
}

-- `maelys_datalog_predicate_registry_add` keeps the registry valid, whatever it returns: at most
-- 128 predicates, with distinct names that fit, arities up to 4 and one of the six combinations
-- of kind flags.
pub registry_add-IsValid :
    (r : Registry) (name : Bytes) (arity kind_flags : ℕ)
    → IsValid r
    → IsValid (registry_add r name arity kind_flags).1
registry_add-IsValid r name arity kind_flags v = elim (registry_add-cases r name arity kind_flags) [
  | inl e ↦ rw e v
  | inr (e, may) ↦ rw e (with_entry-IsValid r (entry name arity kind_flags) v may)
]

pub registry_init-IsValid : IsValid registry_init
registry_init-IsValid = record { room = omega arith; entries = tt; distinct = tt }
