-- ===== src/Prelude/Codes.antt =====
-- The result codes of common/maelys_errors.h that the modelled functions return, and a check
-- that ends with a code or goes on with a value.
use mathlib.Core.Path.{◌≡◌, refl}
use mathlib.Core.Logic.{◌⊎◌, inl, inr}

pub data Rc : Type 0 where
  ok invalid_argument invalid_field invalid_state : Rc
  forbidden unsupported payload_too_large internal : Rc

-- `if (rc != MAELYS_OK) return rc;` behind a check that hands on a value.
pub data Checked (A : Type 0) : Type 0 where
  refused : Rc → Checked A
  passed : A → Checked A

infixl 5 ◌>>=◌ ◌>>◌
abbrev pub ◌>>=◌ : {A B : Type 0} → Checked A → (A → Checked B) → Checked B
refused rc >>= f = refused rc
passed a >>= f = f a

abbrev pub ◌>>◌ : {A B : Type 0} → Checked A → Checked B → Checked B
m >> k = m >>= λ _. k

-- What a chain of checks that passes has passed.
pub >>=-passed :
    {A B : Type 0} (m : Checked A) (f : A → Checked B) {b : B}
    → (m >>= f) ≡ passed b
    → (a : A) × (m ≡ passed a) × (f a ≡ passed b)
>>=-passed (refused rc) f h = cc
>>=-passed (passed a) f h = (a, refl, h)

pub Checked-cases :
    {A : Type 0} (m : Checked A) → ((rc : Rc) × (m ≡ refused rc)) ⊎ ((a : A) × (m ≡ passed a))
Checked-cases (refused rc) = inl (rc, refl)
Checked-cases (passed a) = inr (a, refl)
