-- ===== src/Registry/Lookup.antt =====
-- `find` and `get` against `add`: identifiers are stable, and what was added is found.
use maelys_datalog.Prelude.{
  ◌↔◌, ℕ, zero, suc, ◌+◌, Bool, true, ◌&&◌, List, [], ◌∷◌, ◌++◌, none, some, ◌≡◌, ◌≢◌, ◌⊎◌, inl,
  inr, refl, sym, subst, arith, length, ◌==◌, get_elem?, Bool-cases, Option-cases, get-last, Bytes,
  same_bytes, same_bytes_iff, same_bytes_self, bit_or, ok, All, All-In, In-get, some_inj,
}
use maelys_datalog.Registry.{
  Entry, Registry, valid_kind_flags, entry_named, registry_add, find_from, registry_find,
  registry_get,
}
use maelys_datalog.Registry.Invariant.{
  IsDistinct, IsValid, entry, with_entry, registry_add-cases, entry_named-none,
}

abbrev fits : Bytes → ℕ → Entry → Bool
fits name arity d = d.arity == arity && same_bytes d.name name

fits-eq :
    (name : Bytes) (arity : ℕ) (d : Entry)
    → fits name arity d ≡ true
    → (d.name ≡ name) × (d.arity ≡ arity)
fits-eq name arity d h = ground (arith, same_bytes_iff d.name name)

-- The identifier that the loop returns is that of an entry with the name and the arity.
find_from-get :
    (ds : List Entry) (i : ℕ) (name : Bytes) (arity : ℕ) {id : ℕ}
    → find_from i ds name arity ≡ some id
    → (k : ℕ) × (d : Entry) × (id ≡ i + k)
      × (get_elem? ds k ≡ some d)
      × (d.name ≡ name)
      × (d.arity ≡ arity)
unfolding find_from
find_from-get [] i name arity h = cc
find_from-get (d ∷ ds) i name arity h = elim (Bool-cases (fits name arity d)) [
  | inl e ↦
      let (n, a) = fits-eq name arity d e in
      (0, d, omega (arith, some_inj (rw (e, find_from) at h)), refl, n, a)
  | inr e ↦
      let (k, d', eq, at, n, a) = find_from-get ds (suc i) name arity (rw (e, find_from) at h) in
      (suc k, d', omega arith, at, n, a)
]

-- Entries behind a found one do not change what is found.
find_from-append :
    (ds es : List Entry) (i : ℕ) (name : Bytes) (arity : ℕ) {id : ℕ}
    → find_from i ds name arity ≡ some id
    → find_from i (ds ++ es) name arity ≡ some id
unfolding find_from
find_from-append [] es i name arity h = cc
find_from-append (d ∷ ds) es i name arity h = elim (Bool-cases (fits name arity d)) [
  | inl e ↦ rw (e, find_from) (rw (e, find_from) at h)
  | inr e ↦ rw (e, find_from) (find_from-append ds es (suc i) name arity (rw (e, find_from) at h))
]

-- Behind entries of other names the new entry is found at its place.
find_from-new :
    (ds : List Entry) (d : Entry) (i : ℕ)
    → All (λ e. e.name ≢ d.name) ds
    → find_from i (ds ++ d ∷ []) d.name d.arity ≡ some (i + length ds)
unfolding find_from
find_from-new [] d i h = ground (arith, same_bytes_self d.name)
find_from-new (e ∷ ds) d i h =
    ground (arith, same_bytes_iff e.name d.name, find_from-new ds d (suc i) h.1)

-- What `maelys_datalog_predicate_registry_find` returns is the identifier of an entry with the
-- name and the arity asked for.
pub registry_find-get :
    (r : Registry) (name : Bytes) (arity : ℕ) {id : ℕ}
    → registry_find r name arity ≡ some id
    → (d : Entry) × (registry_get r id ≡ some d) × (d.name ≡ name) × (d.arity ≡ arity)
unfolding registry_find
registry_find-get r name arity {id} h =
    let (k, d, eq, at, n, a) = find_from-get r.defs 0 name arity h in
    let same : id ≡ k = omega (arith, eq) in
    (d, subst (λ i. registry_get r i ≡ some d) (sym same) at, n, a)

find_from_complete :
    (ds : List Entry) (i k : ℕ) (d : Entry)
    → IsDistinct ds
    → get_elem? ds k ≡ some d
    → find_from i ds d.name d.arity ≡ some (i + k)
unfolding find_from
find_from_complete [] i k d s h = cc
find_from_complete (e ∷ ds) i zero d s h = ground (arith, same_bytes_self d.name)
find_from_complete (e ∷ ds) i (suc k) d s h =
    let other = All-In (λ x. e.name ≢ x.name) ds d s.0 (In-get ds k d h) in
    ground (arith, same_bytes_iff e.name d.name, find_from_complete ds (suc i) k d s.1 h)

-- In a valid registry an entry is found under its own identifier, by its name and arity.
registry_get-find :
    (r : Registry) (id : ℕ) (d : Entry)
    → IsValid r
    → registry_get r id ≡ some d
    → registry_find r d.name d.arity ≡ some id
unfolding registry_find
registry_get-find r id d v h = ground (arith, find_from_complete r.defs 0 id d v.distinct h)

-- In a valid registry `find` returns an identifier for a name and an arity exactly if `get` gives
-- under this identifier an entry with the name and the arity.
pub registry_find_iff :
    (r : Registry) (name : Bytes) (arity id : ℕ)
    → IsValid r
    → (registry_find r name arity ≡ some id)
      ↔ ((d : Entry) × (registry_get r id ≡ some d) × (d.name ≡ name) × (d.arity ≡ arity))
registry_find_iff r name arity id v = (
  λ h. registry_find-get r name arity h,
  λ (d, at, n, a). rw (← n, ← a) (registry_get-find r id d v at),
)

-- `add` changes no identifier: whatever was found before is found after it, under the same one.
pub registry_add_keeps :
    (r : Registry) (name : Bytes) (arity kind_flags : ℕ) (other : Bytes) (n id : ℕ)
    → registry_find r other n ≡ some id
    → registry_find (registry_add r name arity kind_flags).1 other n ≡ some id
unfolding registry_find
registry_add_keeps r name arity kind_flags other n id h =
    elim (registry_add-cases r name arity kind_flags) [
      | inl e ↦ rw e h
      | inr (e, may) ↦ rw e (find_from-append r.defs (entry name arity kind_flags ∷ []) 0 other n h)
    ]

entry_named-some :
    (ds : List Entry) (name : Bytes) (d : Entry)
    → entry_named ds name ≡ some d
    → (d.name ≡ name) × (k : ℕ) × (get_elem? ds k ≡ some d)
unfolding entry_named
entry_named-some [] name d h = cc
entry_named-some (e ∷ ds) name d h = elim (Bool-cases (same_bytes e.name name)) [
  | inl s ↦
      let same : e ≡ d = some_inj (rw (s, entry_named) at h) in
      (rw (← same) ((same_bytes_iff e.name name).0 s), 0, rw same)
  | inr s ↦ let (n, k, at) = entry_named-some ds name d (rw (s, entry_named) at h) in (n, suc k, at)
]

-- The flags asked for are among the flags of the entry.
abbrev pub HasFlags : ℕ → ℕ → Type 0
HasFlags flags wanted = bit_or flags wanted ≡ flags

valid_kind_flags-HasFlags : (f : ℕ) → valid_kind_flags f ≡ true → HasFlags f f
unfolding valid_kind_flags
valid_kind_flags-HasFlags f h = ground arith

-- What a successful `add` of an existing name has checked.
add_existing :
    (r : Registry) (name : Bytes) (arity kind_flags : ℕ) (d : Entry)
    → (registry_add r name arity kind_flags).0 ≡ ok
    → entry_named r.defs name ≡ some d
    → (d.arity ≡ arity)
      × ((d.kind_flags ≡ kind_flags) ⊎ HasFlags d.kind_flags kind_flags)
      × (valid_kind_flags kind_flags ≡ true)
      × ((registry_add r name arity kind_flags).1 ≡ r)
unfolding registry_add
add_existing r name arity kind_flags d h e = ground arith

add_new :
    (r : Registry) (name : Bytes) (arity kind_flags : ℕ)
    → (registry_add r name arity kind_flags).0 ≡ ok
    → entry_named r.defs name ≡ none
    → ((registry_add r name arity kind_flags).1 ≡ with_entry r (entry name arity kind_flags))
      × (valid_kind_flags kind_flags ≡ true)
unfolding registry_add
add_new r name arity kind_flags h e = ground arith

find-new :
    (r : Registry) (d : Entry)
    → entry_named r.defs d.name ≡ none
    → registry_find (with_entry r d) d.name d.arity ≡ some (length r.defs)
unfolding registry_find
find-new r d e = ground (arith, find_from-new r.defs d 0 (entry_named-none r.defs d.name e))

-- After `maelys_datalog_predicate_registry_add` returns OK on a valid registry, `find` succeeds for
-- the name and arity, and the entry under that identifier has them and all the flags asked for.
pub registry_add-find :
    (r : Registry) (name : Bytes) (arity kind_flags : ℕ)
    → IsValid r
    → (registry_add r name arity kind_flags).0 ≡ ok
    → let after = (registry_add r name arity kind_flags).1 in
      (id : ℕ) × (d : Entry) × (registry_find after name arity ≡ some id)
      × (registry_get after id ≡ some d)
      × (d.name ≡ name)
      × (d.arity ≡ arity)
      × HasFlags d.kind_flags kind_flags
registry_add-find r name arity kind_flags v h = elim (Option-cases (entry_named r.defs name)) [
  | inl e ↦
      let (new, flags) = add_new r name arity kind_flags h e in
      rw new (
        length r.defs,
        entry name arity kind_flags,
        find-new r (entry name arity kind_flags) e,
        get-last r.defs (entry name arity kind_flags),
        refl,
        refl,
        valid_kind_flags-HasFlags kind_flags flags,
      )
  | inr (d, e) ↦
      let (a, flags, valid, same) = add_existing r name arity kind_flags d h e in
      let (n, id, at) = entry_named-some r.defs name d e in
      rw same (
        id,
        d,
        rw (← n, ← a) (registry_get-find r id d v at),
        at,
        n,
        a,
        elim flags [ inl s ↦ rw s (valid_kind_flags-HasFlags kind_flags valid) | inr s ↦ s ],
      )
]
