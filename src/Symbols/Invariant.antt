-- ===== src/Symbols/Invariant.antt =====
-- What every symbol table that the operations build satisfies.
use maelys_datalog.Prelude.{
  ℕ, zero, suc, ◌+◌, ◌%◌, ◌≤◌, ◌<◌, none, some, ◌≡◌, ◌≢◌, refl, arith, length, get_elem?,
  if◌then◌else◌, ◌==◌, Bytes, Bool-cases, inl, inr,
}
use maelys_datalog.Bounds.{max_string_bytes, max_symbols, symbol_index_buckets, string_pool_bytes}
use maelys_datalog.Symbols.{Entry, SymbolTable, used, count, slice, home, look, fnv1a, update}

-- The bucket `d` steps behind `start`.
abbrev pub place : ℕ → ℕ → ℕ
place start d = (start + d) % symbol_index_buckets

-- The probing of `text` has gone over `d` buckets.
abbrev pub Passed : SymbolTable → ℕ → Bytes → ℕ → ℕ → Type 0
Passed t h text start d = (k : ℕ) → k < d → look t h text (place start k) ≡ none

-- The buckets below `n` in use.
unfoldable pub occupied : ℕ → (ℕ → ℕ) → ℕ
occupied zero index = 0
occupied (suc n) index = (if index n == 0 then 0 else 1) + occupied n index

pub occupied-vacant :
    (n : ℕ) (index : ℕ → ℕ) → occupied n index < n → (b : ℕ) × (b < n) × (index b ≡ 0)
unfolding occupied
occupied-vacant zero index h = absurd (omega arith)
occupied-vacant (suc n) index h = elim (Bool-cases (index n == 0)) [
  | inl e ↦ (n, omega arith, ground arith)
  | inr e ↦ let (b, lt, v) = occupied-vacant n index (ground arith) in (b, omega arith, v)
]

occupied-update_above :
    (n : ℕ) (index : ℕ → ℕ) (b v : ℕ) → n ≤ b → occupied n (update index b v) ≡ occupied n index
unfolding occupied
occupied-update_above zero index b v h = refl
occupied-update_above (suc n) index b v h = ground (arith, occupied-update_above n index b v)

pub occupied-update :
    (n : ℕ) (index : ℕ → ℕ) (b v : ℕ)
    → b < n
    → index b ≡ 0
    → v ≢ 0
    → occupied n (update index b v) ≡ suc (occupied n index)
unfolding occupied
occupied-update zero index b v h e w = absurd (omega arith)
occupied-update (suc n) index b v h e w = elim (Bool-cases (b == n)) [
  | inl same ↦ ground (arith, occupied-update_above n index b v)
  | inr other ↦ ground (arith, occupied-update n index b v)
]

-- An entry lies in the pool with its terminator, and carries its hash.
pub record IsEntry (storage : Bytes) (e : Entry) : Type 0 where
  pub within : e.offset + e.len + 1 ≤ length storage
  pub hashed : e.hash ≡ fnv1a (slice storage e)
  pub short : e.len ≤ max_string_bytes

-- The index leads to entry `i`: its bucket is at distance `d` from the home of its hash, and no
-- bucket on the way is empty.
pub record IsIndexed (index : ℕ → ℕ) (h i : ℕ) : Type 0 where
  pub distance : ℕ
  pub near : distance < symbol_index_buckets
  pub points : index (place (home h) distance) ≡ suc i
  pub full : (k : ℕ) → k < distance → index (place (home h) k) ≢ 0

pub record IsValid (t : SymbolTable) : Type 0 where
  pub pool : used t ≤ string_pool_bytes
  pub room : count t ≤ max_symbols
  pub entry : (i : ℕ) (e : Entry) → get_elem? t.entries i ≡ some e → IsEntry t.storage e
  pub distinct :
      (i j : ℕ) (e f : Entry)
      → get_elem? t.entries i ≡ some e
      → get_elem? t.entries j ≡ some f
      → slice t.storage e ≡ slice t.storage f
      → i ≡ j
  pub bounded : (b : ℕ) → t.index b ≤ count t
  pub indexed : (i : ℕ) (e : Entry) → get_elem? t.entries i ≡ some e → IsIndexed t.index e.hash i
  pub load : occupied symbol_index_buckets t.index ≡ count t
