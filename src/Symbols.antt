-- ===== src/Symbols.antt =====
-- The symbol table, src/core/maelys_datalog_symbol_table.c and .h: texts in one byte pool, an
-- entry for each, and an open-addressing index of 1024 buckets from hashes to entries.
-- The pool up to `used` is the list `storage`, the entries up to `count` are a list, and the
-- bucket array is a function, of which only the places below 1024 are used.
pub mod Slice
pub mod Probing
pub mod Invariant
pub mod Intern
pub mod Readonly
use maelys_datalog.Prelude.{
  ℕ, zero, suc, ◌+◌, ◌-◌, ◌*◌, ◌%◌, ◌^◌, Bool, true, false, not, ◌&&◌, ◌||◌, List, [], ◌∷◌, ◌++◌,
  Option, none, some, length, get_elem?, take, drop, ltb, leb, ◌==◌, if◌then◌else◌, Bytes,
  same_bytes, bit_xor, Rc, ok, invalid_argument, invalid_state, payload_too_large,
}
use maelys_datalog.Bounds.{max_string_bytes, max_symbols, symbol_index_buckets, string_pool_bytes}

-- `h ^= s[i]; h *= 16777619u;` on a `uint32_t`.
unfoldable pub fnv1a_from : ℕ → Bytes → ℕ
fnv1a_from h [] = h
fnv1a_from h (c ∷ cs) = fnv1a_from (bit_xor h c * 16777619 % 2 ^ 32) cs

unfoldable pub fnv1a : Bytes → ℕ
fnv1a s = fnv1a_from 2166136261 s

pub record Entry : Type 0 where
  pub hash : ℕ
  pub offset : ℕ
  pub len : ℕ

pub record SymbolTable : Type 0 where
  pub storage : Bytes
  pub entries : List Entry
  pub index : ℕ → ℕ

abbrev pub used : SymbolTable → ℕ
used t = length t.storage

abbrev pub count : SymbolTable → ℕ
count t = length t.entries

abbrev pub symbol_table_init : SymbolTable
symbol_table_init = record { storage = []; entries = []; index = λ _. 0 }

-- The bytes from `storage + offset`.
abbrev pub slice : Bytes → Entry → Bytes
slice storage e = take e.len (drop e.offset storage)

-- `entries[i].len == len && memcmp(storage + entries[i].offset, text, len) == 0`.
abbrev pub holds : Bytes → Entry → Bytes → Bool
holds storage e text = e.len == length text && same_bytes (slice storage e) text

-- A mask with 1024 - 1 is the remainder.
abbrev pub home : ℕ → ℕ
home h = h % symbol_index_buckets

abbrev pub next_bucket : ℕ → ℕ
next_bucket bucket = (bucket + 1) % symbol_index_buckets

-- How the probing loop ends: at the entry of the text, at an empty bucket, or in a state that
-- the table should never be in.
pub data Probe : Type 0 where
  found : ℕ → Probe
  vacant : ℕ → Probe
  broken : Probe

-- What one round sees at a bucket.
unfoldable pub look : SymbolTable → ℕ → Bytes → ℕ → Option Probe
look t h text bucket =
    if t.index bucket == 0
    then some (vacant bucket)
    else elim (get_elem? t.entries (t.index bucket - 1)) [
      | none ↦ some broken
      | some e ↦
          if e.hash == h && holds t.storage e text then some (found (t.index bucket - 1)) else none
    ]

-- The `while` loop; the fuel is what is left of `++probes >= 1024`.
unfoldable pub probe : SymbolTable → ℕ → Bytes → ℕ → ℕ → Probe
probe t h text zero bucket = broken
probe t h text (suc fuel) bucket = elim (look t h text bucket) [
  | none ↦ probe t h text fuel (next_bucket bucket)
  | some end ↦ end
]

abbrev pub update : (ℕ → ℕ) → ℕ → ℕ → ℕ → ℕ
update f b v i = if b == i then v else f i

-- The new entry and its bucket. The casts to narrower integers keep the values, which the bounds
-- of the table and its static assertions limit.
abbrev pub insert : SymbolTable → ℕ → Bytes → ℕ → SymbolTable
insert t h text bucket = record {
  storage = t.storage ++ (text ++ 0 ∷ []);
  entries = t.entries ++ (record { hash = h; offset = used t; len = length text } ∷ []);
  index = update t.index bucket (count t + 1);
}

-- The code, the table and `*out_id`, which is 0, the invalid identifier, where it is not written.
unfoldable pub symbol_intern : SymbolTable → Bytes → Rc × SymbolTable × ℕ
symbol_intern t text =
    if ltb max_string_bytes (length text)
    then (invalid_argument, t, 0)
    else elim (probe t (fnv1a text) text symbol_index_buckets (home (fnv1a text))) [
      | broken ↦ (invalid_state, t, 0)
      | found i ↦ (ok, t, i + 1)
      | vacant bucket ↦
          if leb max_symbols (count t)
          then (payload_too_large, t, 0)
          else if ltb (string_pool_bytes - used t) (length text + 1)
          then (payload_too_large, t, 0)
          else (ok, insert t (fnv1a text) text bucket, count t + 1)
    ]

-- The linear scan of a short table, from entry `i` on.
unfoldable pub scan : Bytes → ℕ → List Entry → Bytes → Option ℕ
scan storage i [] text = none
scan storage i (e ∷ es) text = if holds storage e text then some i else scan storage (suc i) es text

-- The code, `*out_id` and `*out_found`.
unfoldable pub symbol_lookup_readonly : SymbolTable → Bytes → Rc × ℕ × Bool
symbol_lookup_readonly t text =
    if ltb max_string_bytes (length text)
    then (invalid_argument, 0, false)
    else if leb (count t) (length text)
    then elim (scan t.storage 0 t.entries text) [
      | none ↦ (ok, 0, false)
      | some i ↦ (ok, i + 1, true)
    ]
    else elim (probe t (fnv1a text) text symbol_index_buckets (home (fnv1a text))) [
      | broken ↦ (invalid_state, 0, false)
      | found i ↦ (ok, i + 1, true)
      | vacant bucket ↦ (ok, 0, false)
    ]

unfoldable pub symbol_id_is_valid : SymbolTable → ℕ → Bool
symbol_id_is_valid t id = not (id == 0) && leb id (count t)

-- The text that was interned, which the source gives by a pointer to its first byte. Of a text with
-- a zero byte in it, a reader of C strings would see only what stands before that.
unfoldable pub symbol_text : SymbolTable → ℕ → Option Bytes
symbol_text t id =
    if not (symbol_id_is_valid t id)
    then none
    else elim (get_elem? t.entries (id - 1)) [ none ↦ none | some e ↦ some (slice t.storage e) ]
