-- ===== src/Utf8/Encoding/Decode.antt =====
-- The scalar value that the bytes of an accepted sequence encode, and the validator as a whole.
use maelys_datalog.Prelude.{
  ℕ, zero, suc, ◌+◌, ◌-◌, ◌*◌, ◌/◌, ◌%◌, ◌≤◌, ◌<◌, true, false, [], ◌∷◌, ◌++◌, ◌≡◌, ◌≢◌, ◌↔◌, inl,
  inr, refl, ◌∙◌, arith, Bytes, ltb, ◌==◌, length, drop, Bool-cases, All, ap, Option-cases,
}
use maelys_datalog.Utf8.{sequence_length, validate_from, utf8_validate}
use maelys_datalog.Utf8.Encoding.{IsScalar, IsByte, encode, encode_all, IsEncoded}
use maelys_datalog.Utf8.Encoding.Accepted.{
  IsCont, Shape, one, two, three, four, sequence_length-Shape,
}
use maelys_datalog.Utf8.Encoding.Complete.{encode_all-accepted}

encode-one : (u : ℕ) → u < 128 → encode u ≡ u ∷ []
unfolding encode
encode-one u h = let a : ltb u 0x80 ≡ true = ground arith in rw a refl

encode-two : (u : ℕ) → 128 ≤ u → u < 2048 → encode u ≡ (192 + u / 64) ∷ (128 + u % 64) ∷ []
unfolding encode
encode-two u p q =
    let a : ltb u 0x80 ≡ false = ground arith in
    let b : ltb u 0x800 ≡ true = ground arith in rw (a, b) refl

encode-three :
    (u : ℕ)
    → 2048 ≤ u
    → u < 65536
    → encode u ≡ (224 + u / 4096) ∷ (128 + u / 64 % 64) ∷ (128 + u % 64) ∷ []
unfolding encode
encode-three u p q =
    let a : ltb u 0x80 ≡ false = ground arith in
    let b : ltb u 0x800 ≡ false = ground arith in
    let c : ltb u 0x10000 ≡ true = ground arith in rw (a, b, c) refl

encode-four :
    (u : ℕ)
    → 65536 ≤ u
    → encode u
      ≡ (240 + u / 262144) ∷ (128 + u / 4096 % 64) ∷ (128 + u / 64 % 64) ∷ (128 + u % 64) ∷ []
unfolding encode
encode-four u p =
    let a : ltb u 0x80 ≡ false = ground arith in
    let b : ltb u 0x800 ≡ false = ground arith in
    let c : ltb u 0x10000 ≡ false = ground arith in rw (a, b, c) refl

-- The text goes on with its `k`th byte behind the encoding of a scalar value.
abbrev Starts : Bytes → ℕ → Type 0
Starts text k = (u : ℕ) × IsScalar u × (text ≡ encode u ++ drop k text)

two-Starts : (c a : ℕ) (cs : Bytes) → 194 ≤ c → c < 224 → IsCont a → Starts (c ∷ a ∷ cs) 2
two-Starts c a cs p q (r, s) =
    let u = (c - 192) * 64 + (a - 128) in
    let first : 192 + u / 64 ≡ c = omega arith in
    let second : 128 + u % 64 ≡ a = omega arith in
    (u, inl (omega arith), rw (encode-two u (omega arith) (omega arith), first, second) refl)

three-Starts :
    (c a b : ℕ) (cs : Bytes)
    → 224 ≤ c
    → c < 240
    → IsCont a
    → (c ≡ 224 → 160 ≤ a)
    → (c ≡ 237 → a < 160)
    → IsCont b
    → Starts (c ∷ a ∷ b ∷ cs) 3
three-Starts c a b cs p q (r, s) low high (t, v) =
    let u = (c - 224) * 4096 + ((a - 128) * 64 + (b - 128)) in
    let first : 224 + u / 4096 ≡ c = omega arith in
    let second : 128 + u / 64 % 64 ≡ a = omega arith in
    let third : 128 + u % 64 ≡ b = omega arith in
    let large : 2048 ≤ u = elim (Bool-cases (c == 224)) [
      | inl e ↦ let k = low (ground arith) in omega arith
      | inr e ↦ let k : c ≢ 224 = ground arith in omega arith
    ] in
    let scalar : IsScalar u = elim (Bool-cases (ltb c 237)) [
      | inl e ↦ let k : c < 237 = ground arith in inl (omega arith)
      | inr e ↦ elim (Bool-cases (c == 237)) [
        | inl f ↦ let k : c ≡ 237 = ground arith in let l = high k in inl (omega arith)
        | inr f ↦ let k : 238 ≤ c = ground arith in inr (omega arith, omega arith)
      ]
    ] in
    (u, scalar, rw (encode-three u large (omega arith), first, second, third) refl)

four-Starts :
    (c a b d : ℕ) (cs : Bytes)
    → 240 ≤ c
    → c < 245
    → IsCont a
    → (c ≡ 240 → 144 ≤ a)
    → (c ≡ 244 → a < 144)
    → IsCont b
    → IsCont d
    → Starts (c ∷ a ∷ b ∷ d ∷ cs) 4
four-Starts c a b d cs p q (r, s) low high (t, v) (w, x) =
    let u = (c - 240) * 262144 + ((a - 128) * 4096 + ((b - 128) * 64 + (d - 128))) in
    let first : 240 + u / 262144 ≡ c = omega arith in
    let second : 128 + u / 4096 % 64 ≡ a = omega arith in
    let third : 128 + u / 64 % 64 ≡ b = omega arith in
    let fourth : 128 + u % 64 ≡ d = omega arith in
    let large : 65536 ≤ u = elim (Bool-cases (c == 240)) [
      | inl e ↦ let k = low (ground arith) in omega arith
      | inr e ↦ let k : c ≢ 240 = ground arith in omega arith
    ] in
    let small : u < 1114112 = elim (Bool-cases (c == 244)) [
      | inl e ↦ let k = high (ground arith) in omega arith
      | inr e ↦ let k : c ≢ 244 = ground arith in omega arith
    ] in
    (u, inr (omega arith, small), rw (encode-four u large, first, second, third, fourth) refl)

Shape-Starts : (c : ℕ) (cs : Bytes) (k : ℕ) → Shape c cs k → Starts (c ∷ cs) k
Shape-Starts c cs _ (one h) = (c, inl (omega arith), rw (encode-one c h) refl)
Shape-Starts c _ _ (two p q r) = two-Starts c _ _ p q r
Shape-Starts c _ _ (three p q r low high s) = three-Starts c _ _ _ p q r low high s
Shape-Starts c _ _ (four p q r low high s t) = four-Starts c _ _ _ _ p q r low high s t

All-drop : (k : ℕ) (text : Bytes) → All IsByte text → All IsByte (drop k text)
All-drop zero text h = h
All-drop (suc k) [] h = tt
All-drop (suc k) (c ∷ cs) h = All-drop k cs h.1

accepted-IsEncoded :
    (n : ℕ) (text : Bytes) → All IsByte text → validate_from n text ≡ true → IsEncoded text
unfolding validate_from
accepted-IsEncoded n [] h e = ([], tt, refl)
accepted-IsEncoded zero (c ∷ cs) h e = cc
accepted-IsEncoded (suc n) (c ∷ cs) h e = elim (Option-cases (sequence_length c cs)) [
  | inl s ↦ cc (rw (s, validate_from) at e)
  | inr (k, s) ↦
      let (u, scalar, starts) = Shape-Starts c cs k (sequence_length-Shape c cs k h.1 s) in
      let (us, scalars, rest) =
        accepted-IsEncoded n (drop k (c ∷ cs)) (All-drop k (c ∷ cs) h)
          (rw (s, validate_from) at e) in
      (u ∷ us, (scalar, scalars), starts ∙ ap (λ r. encode u ++ r) rest)
]

-- `maelys_utf8_validate` accepts a text of bytes exactly if it is the UTF-8 encoding of some
-- Unicode scalar values, one after the other.
pub utf8_validate-IsEncoded :
    (text : Bytes) → All IsByte text → (utf8_validate text ≡ true) ↔ IsEncoded text
unfolding utf8_validate
utf8_validate-IsEncoded text h = (
  λ e. accepted-IsEncoded (length text) text h e,
  λ (us, scalars, e). rw e (encode_all-accepted us scalars (length (encode_all us)) (omega arith)),
)
