-- ===== src/Print.antt =====
-- The formatted output of the kernel (console.c) and of the user library (printf.c). Output is the
-- list of characters, in order; the strings that pointers lead to, without their NUL, are an
-- argument, and so are the argument words behind the format.
pub mod Digits
mod Tests
use fp_sisop20_f.Base.{
  ℕ, zero, suc, ◌+◌, ◌-◌, ◌/◌, ◌%◌, ◌^◌, Bool, true, false, not, ◌&&◌, ◌||◌, List, [], ◌∷◌, ◌++◌,
  ◌==◌, ltb, leb, if◌then◌else◌,
}

-- the digits table; `ten` is the character of the digit 10
abbrev pub digit : (ten : ℕ) → ℕ → ℕ
digit ten d = if ltb d 10 then 48 + d else ten + (d - 10)

-- The do loop of `printint`: the digits of `x`, last one first, in at most `k` rounds.
unfoldable pub digit_loop : (base : ℕ) → (k : ℕ) → (x : ℕ) → List ℕ
digit_loop base zero x = []
digit_loop base (suc k) x =
    let rest = digit_loop base k (x / base) in x % base ∷ (if x / base == 0 then [] else rest)

-- the output loop, which runs backwards over the buffer
abbrev pub digits_out : (ten : ℕ) → List ℕ → List ℕ → List ℕ
digits_out ten [] out = out
digits_out ten (d ∷ ds) out = digits_out ten ds (digit ten d ∷ out)

-- whether an int with the bit pattern `x` is negative
abbrev pub is_negative : ℕ → Bool
is_negative x = leb (2 ^ 31) x

abbrev pub magnitude : Bool → ℕ → ℕ
magnitude sgn x = if sgn && is_negative x then (2 ^ 32 - x) % 2 ^ 32 else x

-- what fits into `buf` but a sign
abbrev pub rounds : ℕ
rounds = 15

unfoldable pub printint : (ten : ℕ) → (x base : ℕ) → (sgn : Bool) → List ℕ
unfolding digit_loop
printint ten x base sgn =
    let ds = digits_out ten (digit_loop base rounds (magnitude sgn x)) [] in
    if sgn && is_negative x then 45 ∷ ds else ds

-- "(null)"
abbrev pub null_string : List ℕ
null_string = 40 ∷ 110 ∷ 117 ∷ 108 ∷ 108 ∷ 41 ∷ []

abbrev pub string_at : (ℕ → List ℕ) → ℕ → List ℕ
string_at str a = if a == 0 then null_string else str a

module _ (str : ℕ → List ℕ) where
  -- The loop of `cprintf`; `percent` tells that the character before was a `%` that is not printed
  -- yet. `arg i` is the word that `argp` points to after `i` steps.
  unfoldable pub cprintf_loop : (percent : Bool) → (fmt : List ℕ) → (arg : ℕ → ℕ) → ℕ → List ℕ
  unfolding printint
  cprintf_loop percent [] arg i = []
  cprintf_loop false (c ∷ cs) arg i =
      let seen = cprintf_loop true cs arg i in
      let plain = cprintf_loop false cs arg i in if c == 37 then seen else c ∷ plain
  cprintf_loop true (c ∷ cs) arg i =
      let same = cprintf_loop false cs arg i in
      let next = cprintf_loop false cs arg (i + 1) in
      if c == 100
      then printint 97 (arg i) 10 true ++ next
      else (if (c == 120) || (c == 112)
          then printint 97 (arg i) 16 false ++ next
          else (if c == 115
              then string_at str (arg i) ++ next
              else (if c == 37 then 37 ∷ same else 37 ∷ c ∷ same)))

  -- what `cprintf` puts on the console
  unfoldable pub cprintf : (fmt : List ℕ) → (arg : ℕ → ℕ) → List ℕ
  unfolding cprintf_loop
  cprintf fmt arg = cprintf_loop false fmt arg 0

  -- The loop of `printf` of the user library, with its `state`.
  unfoldable pub printf_loop : (percent : Bool) → (fmt : List ℕ) → (ap : ℕ → ℕ) → ℕ → List ℕ
  unfolding printint
  printf_loop percent [] ap i = []
  printf_loop false (c ∷ cs) ap i =
      let seen = printf_loop true cs ap i in
      let plain = printf_loop false cs ap i in if c == 37 then seen else c ∷ plain
  printf_loop true (c ∷ cs) ap i =
      let same = printf_loop false cs ap i in
      let next = printf_loop false cs ap (i + 1) in
      if c == 100
      then printint 65 (ap i) 10 true ++ next
      else (if (c == 120) || (c == 112)
          then printint 65 (ap i) 16 false ++ next
          else (if c == 115
              then string_at str (ap i) ++ next
              else (if c == 99
                  then ap i % 256 ∷ next
                  else (if c == 37 then 37 ∷ same else 37 ∷ c ∷ same))))

  -- what `printf` writes to its descriptor
  unfoldable pub printf : (fmt : List ℕ) → (ap : ℕ → ℕ) → List ℕ
  unfolding printf_loop
  printf fmt ap = printf_loop false fmt ap 0
