-- ===== src/Utf8.antt =====
-- The UTF-8 validator, common/maelys_utf8.c.
pub mod Encoding
use maelys_datalog.Prelude.{
  ℕ, zero, suc, Bool, true, false, [], ◌∷◌, Option, none, some, ◌==◌, leb, ltb, ◌&&◌, ◌||◌, not,
  ◌*◌, ◌+◌, bit_and, if◌then◌else◌, length, drop, get_elem?, Bytes,
}

-- The bytes are below 256, so this is a test of the two high bits.
abbrev pub is_cont : ℕ → Bool
is_cont c = bit_and c 192 == 128

abbrev pub between : ℕ → ℕ → ℕ → Bool
between lo hi c = leb lo c && leb c hi

-- A test of a byte behind the first, false where the text has ended.
abbrev pub byte_at : Bytes → ℕ → (ℕ → Bool) → Bool
byte_at cs i p = elim (get_elem? cs i) [ none ↦ false | some c ↦ p c ]

abbrev pub some_if : Bool → ℕ → Option ℕ
some_if b n = if b then some n else none

-- One round: how many bytes the sequence has that starts with `c`; none where it is refused.
unfoldable pub sequence_length : ℕ → Bytes → Option ℕ
sequence_length c cs =
    if leb c 127
    then some 1
    else if between 194 223 c
    then some_if (byte_at cs 0 is_cont) 2
    else if c == 224
    then some_if (byte_at cs 0 (between 160 191) && byte_at cs 1 is_cont) 3
    else if between 225 236 c || between 238 239 c
    then some_if (byte_at cs 0 is_cont && byte_at cs 1 is_cont) 3
    else if c == 237
    then some_if (byte_at cs 0 (between 128 159) && byte_at cs 1 is_cont) 3
    else if c == 240
    then some_if (byte_at cs 0 (between 144 191) && byte_at cs 1 is_cont && byte_at cs 2 is_cont) 4
    else if between 241 243 c
    then some_if (byte_at cs 0 is_cont && byte_at cs 1 is_cont && byte_at cs 2 is_cont) 4
    else if c == 244
    then some_if (byte_at cs 0 (between 128 143) && byte_at cs 1 is_cont && byte_at cs 2 is_cont) 4
    else none

-- The loop; every round goes on by a byte at least, so the length is fuel enough.
unfoldable pub validate_from : ℕ → Bytes → Bool
validate_from fuel [] = true
validate_from zero (c ∷ cs) = false
validate_from (suc n) (c ∷ cs) = elim (sequence_length c cs) [
  | none ↦ false
  | some k ↦ validate_from n (drop k (c ∷ cs))
]

unfoldable pub utf8_validate : Bytes → Bool
utf8_validate text = validate_from (length text) text

-- The control characters that `maelys_bytes_look_textual` counts; none at a zero byte.
unfoldable pub count_controls : ℕ → Bytes → Option ℕ
count_controls controls [] = some controls
count_controls controls (c ∷ cs) =
    let is_control =
      (ltb c 32 && not (c == b'\t') && not (c == b'\n') && not (c == b'\r')) || c == 127 in
    let rest = count_controls (if is_control then controls + 1 else controls) cs in
    if c == 0 then none else rest

unfoldable pub bytes_look_textual : Bytes → Bool
bytes_look_textual text =
    if not (utf8_validate text)
    then false
    else if length text == 0
    then true
    else elim (count_controls 0 text) [
      | none ↦ false
      | some controls ↦ leb (controls * 100) (length text * 5)
    ]
