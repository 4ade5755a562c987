-- ===== src/Print/Digits.antt =====
-- printint prints the number: its digits stand for it, and fit into the buffer of 16 characters.
use fp_sisop20_f.Base.{
  ℕ, zero, suc, ◌+◌, ◌*◌, ◌/◌, ◌^◌, ◌<◌, ◌≡◌, List, [], ◌∷◌, arith, inl, inr, Bool-cases, ◌==◌,
}
use fp_sisop20_f.Print.{digit_loop, rounds}

-- the number that digits in a base stand for, last digit first
abbrev pub value : ℕ → List ℕ → ℕ
value base [] = 0
value base (d ∷ ds) = d + base * value base ds

abbrev pub AllBelow : ℕ → List ℕ → Type 0
AllBelow base [] = Unit
AllBelow base (d ∷ ds) = (d < base) × AllBelow base ds

abbrev power : ℕ → ℕ → ℕ
power base zero = 1
power base (suc k) = base * power base k

loop_10 :
    (k x : ℕ)
    → x < power 10 k
    → (value 10 (digit_loop 10 k x) ≡ x) × AllBelow 10 (digit_loop 10 k x)
unfolding digit_loop
loop_10 zero x h = (omega arith, tt)
loop_10 (suc k) x h =
    let (v, b) = loop_10 k (x / 10) (omega arith) in
    elim (Bool-cases (x / 10 == 0)) [
      | inl e ↦ rw e (ground arith, (omega arith, tt))
      | inr e ↦ rw (e, v) (omega arith, (omega arith, b))
    ]

loop_16 :
    (k x : ℕ)
    → x < power 16 k
    → (value 16 (digit_loop 16 k x) ≡ x) × AllBelow 16 (digit_loop 16 k x)
unfolding digit_loop
loop_16 zero x h = (omega arith, tt)
loop_16 (suc k) x h =
    let (v, b) = loop_16 k (x / 16) (omega arith) in
    elim (Bool-cases (x / 16 == 0)) [
      | inl e ↦ rw e (ground arith, (omega arith, tt))
      | inr e ↦ rw (e, v) (omega arith, (omega arith, b))
    ]

-- The loop of `printint` on a 32-bit number, in base 10 and in base 16: it ends inside the buffer's 15
-- characters for digits, each is a digit of the base, and they stand for the number.
pub digit_loop_lem :
    (x : ℕ)
    → x < 2 ^ 32
    → (value 10 (digit_loop 10 rounds x) ≡ x)
      × AllBelow 10 (digit_loop 10 rounds x)
      × (value 16 (digit_loop 16 rounds x) ≡ x)
      × AllBelow 16 (digit_loop 16 rounds x)
digit_loop_lem x h =
    let (v, b) = loop_10 rounds x (omega arith) in
    let (w, c) = loop_16 rounds x (omega arith) in (v, b, w, c)
