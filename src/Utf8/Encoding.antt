-- ===== src/Utf8/Encoding.antt =====
-- The texts that the UTF-8 validator accepts are the encodings of Unicode scalar values, as RFC 3629
-- gives them.
pub mod Accepted
pub mod Complete
pub mod Decode
use maelys_datalog.Prelude.{
  ℕ, zero, suc, ◌+◌, ◌*◌, ◌/◌, ◌%◌, ◌≤◌, ◌<◌, Bool, true, false, List, [], ◌∷◌, ◌++◌, ◌≡◌, ◌⊎◌,
  refl, arith, Bytes, ltb, bit_and, ◌==◌, ◌&&◌, leb, if◌then◌else◌, All,
}
use maelys_datalog.Utf8.{is_cont, between}

-- A code point that is no surrogate.
abbrev pub IsScalar : ℕ → Type 0
IsScalar u = (u < 0xd800) ⊎ ((0xe000 ≤ u) × (u < 0x110000))

unfoldable pub encode : ℕ → Bytes
encode u =
    if ltb u 0x80
    then u ∷ []
    else if ltb u 0x800
    then (192 + u / 64) ∷ (128 + u % 64) ∷ []
    else if ltb u 0x10000
    then (224 + u / 4096) ∷ (128 + u / 64 % 64) ∷ (128 + u % 64) ∷ []
    else (240 + u / 262144) ∷ (128 + u / 4096 % 64) ∷ (128 + u / 64 % 64) ∷ (128 + u % 64) ∷ []

abbrev pub encode_all : List ℕ → Bytes
encode_all [] = []
encode_all (u ∷ us) = encode u ++ encode_all us

-- The text is the encoding of scalar values.
abbrev pub IsEncoded : Bytes → Type 0
IsEncoded text = (us : List ℕ) × All IsScalar us × (text ≡ encode_all us)

abbrev pub IsByte : ℕ → Type 0
IsByte c = c < 256

module _ (p q : ℕ → Bool) where
  abbrev same_answer : Bool → Bool → Bool
  same_answer true b = b
  same_answer false true = false
  same_answer false false = true

  same_below : ℕ → Bool
  same_below zero = true
  same_below (suc n) = same_answer (p n) (q n) && same_below n

  same_below-eq : (n : ℕ) → same_below n ≡ true → (i : ℕ) → i < n → p i ≡ q i
  unfolding same_below
  same_below-eq zero e i h = absurd (omega arith)
  same_below-eq (suc n) e i h = ground (arith, same_below-eq n (ground arith) i)

-- The mask picks the bytes from 128 to 191.
pub is_cont-between : (c : ℕ) → IsByte c → is_cont c ≡ between 128 191 c
unfolding same_below
is_cont-between = same_below-eq (λ c. is_cont c) (between 128 191) 256 refl
