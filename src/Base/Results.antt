-- ===== src/Base/Results.antt =====
-- A kernel function ends by `panic`, which stops the machine, or returns.
use mathlib.Core.Path.{◌≡◌, refl}
use mathlib.Core.Bool.{Bool, true, false}

pub data Result {κ} (S : Type κ) : Type κ where
  ok : S → Result S
  panic : Result S

infixl 5 ◌>>=◌
abbrev pub ◌>>=◌ {κ ℓ} : {S : Type κ} {T : Type ℓ} → Result S → (S → Result T) → Result T
panic >>= _ = panic
ok s >>= k = k s

-- `if(b) panic(...)`
abbrev pub panic_if : Bool → Result (Unit {0})
panic_if false = ok tt
panic_if true = panic

infixl 5 ◌>>◌
abbrev pub ◌>>◌ {κ} : {T : Type κ} → Result (Unit {0}) → Result T → Result T
panic >> _ = panic
ok tt >> r = r

-- what a returning sequence did first
pub >>=-eq-ok {κ ℓ} :
    {S : Type κ} {T : Type ℓ} {t : T} (r : Result S) (k : S → Result T)
    → (r >>= k) ≡ ok t
    → (s : S) × (r ≡ ok s) × (k s ≡ ok t)
>>=-eq-ok panic k e = absurd (cc)
>>=-eq-ok (ok s) k e = (s, refl, e)
