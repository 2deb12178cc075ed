-- ===== src/Symbols/Slice.antt =====
-- Slices of the byte pool under growth.
use maelys_datalog.Prelude.{
  ℕ, zero, suc, ◌+◌, ◌≤◌, List, [], ◌∷◌, ◌++◌, ◌≡◌, refl, ap, arith, length, take, drop, Bytes,
}
use maelys_datalog.Symbols.{Entry, slice}

module _ {A : Type 0} where
  take-append : (n : ℕ) (xs ys : List A) → n ≤ length xs → take n (xs ++ ys) ≡ take n xs
  take-append zero xs ys h = refl
  take-append (suc n) [] ys h = absurd (omega arith)
  take-append (suc n) (x ∷ xs) ys h = ap (◌∷◌ x) (take-append n xs ys (omega arith))

  take-drop-append :
      (k n : ℕ) (xs ys : List A)
      → k + n ≤ length xs
      → take n (drop k (xs ++ ys)) ≡ take n (drop k xs)
  take-drop-append zero n xs ys h = take-append n xs ys (omega arith)
  take-drop-append (suc k) zero xs ys h = refl
  take-drop-append (suc k) (suc n) [] ys h = absurd (omega arith)
  take-drop-append (suc k) (suc n) (x ∷ xs) ys h = take-drop-append k (suc n) xs ys (omega arith)

  drop-length : (xs ys : List A) → drop (length xs) (xs ++ ys) ≡ ys
  drop-length [] ys = refl
  drop-length (x ∷ xs) ys = drop-length xs ys

  take-length : (xs ys : List A) → take (length xs) (xs ++ ys) ≡ xs
  take-length [] ys = refl
  take-length (x ∷ xs) ys = ap (◌∷◌ x) (take-length xs ys)

  pub length-take : (n k : ℕ) (xs : List A) → k + n ≤ length xs → length (take n (drop k xs)) ≡ n
  length-take zero zero xs h = omega arith
  length-take (suc n) zero [] h = absurd (omega arith)
  length-take (suc n) zero (x ∷ xs) h = omega (arith, length-take n zero xs (omega arith))
  length-take n (suc k) [] h = absurd (omega arith)
  length-take n (suc k) (x ∷ xs) h = length-take n k xs (omega arith)

-- A slice within the pool stays when the pool grows.
pub slice-append :
    (storage more : Bytes) (e : Entry)
    → e.offset + e.len ≤ length storage
    → slice (storage ++ more) e ≡ slice storage e
slice-append storage more e h = take-drop-append e.offset e.len storage more h

-- The slice of the bytes that were appended.
pub slice-new :
    (storage text : Bytes) (h : ℕ)
    → slice
        (storage ++ (text ++ 0 ∷ []))
        (record { hash = h; offset = length storage; len = length text })
      ≡ text
slice-new storage text h = rw (drop-length storage (text ++ 0 ∷ [])) (take-length text (0 ∷ []))
