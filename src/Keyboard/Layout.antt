-- ===== src/Keyboard/Layout.antt =====
-- The keyboard itself: what is printed on its keys, and what the keys of kbd.h's tables stand for.
use fp_sisop20_f.Base.{
  ℕ, ◌+◌, ◌-◌, ◌<◌, ◌≡◌, refl, ◌∙◌, arith, Bool, true, false, not, ◌&&◌, ◌||◌, zero, suc, subst,
  Bool-cases, inl, inr, List, [], ◌∷◌, ◌==◌, leb, if◌then◌else◌, get_or,
}
use fp_sisop20_f.Keyboard.{Flags, typed}
use fp_sisop20_f.Keyboard.Tables.{normalmap, shiftmap, ctlmap}

-- A key sends one code, or 0xE0 and a code.
pub data Key : Type 0 where
  plain extended : ℕ → Key

-- the place of a key in the tables
abbrev pub index : Key → ℕ
index (plain c) = c
index (extended c) = c + 128

abbrev pub code : Key → ℕ
code (plain c) = c
code (extended c) = c

-- A key has a letter, or a sign, a second one above it and one for CTL; 0 is none.
pub data Legend : Type 0 where
  letter : ℕ → Legend
  signs : (below above with_ctl : ℕ) → Legend

-- "qwertyuiop", "asdfghjkl" and "zxcvbnm", each from the code of its first key on
abbrev letters : List (ℕ × List ℕ)
letters =
    (16, 113 ∷ 119 ∷ 101 ∷ 114 ∷ 116 ∷ 121 ∷ 117 ∷ 105 ∷ 111 ∷ 112 ∷ [])
    ∷ (30, 97 ∷ 115 ∷ 100 ∷ 102 ∷ 103 ∷ 104 ∷ 106 ∷ 107 ∷ 108 ∷ [])
    ∷ (44, 122 ∷ 120 ∷ 99 ∷ 118 ∷ 98 ∷ 110 ∷ 109 ∷ [])
    ∷ []

abbrev letter_at : List (ℕ × List ℕ) → ℕ → ℕ
letter_at [] c = 0
letter_at ((first, row) ∷ rows) c =
    let a = (if leb first c then get_or row (c - first) 0 else 0) in
    let others = letter_at rows c in if a == 0 then others else a

-- code, the sign and the one above it: the row of digits, the brackets and the other signs
abbrev paired : List (ℕ × ℕ × ℕ)
paired =
    (2, 49, 33)
    ∷ (3, 50, 64)
    ∷ (4, 51, 35)
    ∷ (5, 52, 36)
    ∷ (6, 53, 37)
    ∷ (7, 54, 94)
    ∷ (8, 55, 38)
    ∷ (9, 56, 42)
    ∷ (10, 57, 40)
    ∷ (11, 48, 41)
    ∷ (12, 45, 95)
    ∷ (13, 61, 43)
    ∷ (26, 91, 123)
    ∷ (27, 93, 125)
    ∷ (39, 59, 58)
    ∷ (40, 39, 34)
    ∷ (41, 96, 126)
    ∷ (43, 92, 124)
    ∷ (51, 44, 60)
    ∷ (52, 46, 62)
    ∷ (53, 47, 63)
    -- escape, backspace, tabulator, return, space and the numeric keypad have one each
    ∷ (1, 27, 27)
    ∷ (14, 8, 8)
    ∷ (15, 9, 9)
    ∷ (28, 10, 10)
    ∷ (57, 32, 32)
    ∷ (55, 42, 42)
    ∷ (71, 55, 55)
    ∷ (72, 56, 56)
    ∷ (73, 57, 57)
    ∷ (74, 45, 45)
    ∷ (75, 52, 52)
    ∷ (76, 53, 53)
    ∷ (77, 54, 54)
    ∷ (78, 43, 43)
    ∷ (79, 49, 49)
    ∷ (80, 50, 50)
    ∷ (81, 51, 51)
    ∷ (82, 48, 48)
    ∷ (83, 46, 46)
    ∷ []

abbrev signs_at : List (ℕ × ℕ × ℕ) → (with_ctl c : ℕ) → Legend
signs_at [] x c = signs 0 0 x
signs_at ((at, below, above) ∷ ks) x c =
    let others = signs_at ks x c in if at == c then signs below above x else others

-- The keys with 0xE0 that have the same code for all three: KEY_HOME on an unused code, the arrows,
-- and the block above them.
abbrev alone : List (ℕ × ℕ)
alone =
    (72, 226)
    ∷ (80, 227)
    ∷ (75, 228)
    ∷ (77, 229)
    ∷ (73, 230)
    ∷ (81, 231)
    ∷ (23, 224)
    ∷ (79, 225)
    ∷ (82, 232)
    ∷ (83, 233)
    ∷ []

abbrev alone_at : List (ℕ × ℕ) → ℕ → Legend
alone_at [] c = signs 0 0 0
alone_at ((at, k) ∷ ks) c = let others = alone_at ks c in if at == c then signs k k k else others

-- With CTL, return is a carriage return, the backslash 28 and the slash 239.
abbrev pub legend : Key → Legend
legend (plain c) =
    let a = letter_at letters c in
    let x = (if c == 28 then 13 else (if c == 43 then 28 else (if c == 53 then 239 else 0))) in
    if a == 0 then signs_at paired x c else letter a
legend (extended c) =
    if c == 28 then signs 10 10 13 else (if c == 53 then signs 47 47 239 else alone_at alone c)

abbrev differ : Bool → Bool → Bool
differ a b = if a then not b else b

-- The character of a key: a letter with CTL is its number in the alphabet, and a capital if one of
-- SHIFT and CAPSLOCK is on, but not both. Neither lock changes a sign.
abbrev pub meaning : Legend → Flags → ℕ
meaning (letter a) s = if s.ctl then a - 96 else (if differ s.shift s.capslock then a - 32 else a)
meaning (signs below above with_ctl) s =
    if s.ctl then with_ctl else (if s.shift then above else below)

abbrev pub is_shift_key : Key → Bool
is_shift_key (plain c) = (c == 42) || (c == 54)
is_shift_key (extended c) = false

-- There are two keys for each of CTL and ALT, the right one with 0xE0.
abbrev pub is_ctl_key : Key → Bool
is_ctl_key k = code k == 29

abbrev pub is_alt_key : Key → Bool
is_alt_key k = code k == 56

abbrev pub is_plain_key : ℕ → Key → Bool
is_plain_key d (plain c) = c == d
is_plain_key d (extended c) = false

abbrev all_below : ℕ → (ℕ → Bool) → Bool
all_below zero f = true
all_below (suc n) f = let rest = all_below n f in f n && rest

all_below_lem : (n : ℕ) (f : ℕ → Bool) (d : ℕ) → all_below n f ≡ true → d < n → f d ≡ true
all_below_lem zero f d e l = absurd (omega (arith, l))
all_below_lem (suc n) f d e l = elim (Bool-cases (f n)) [
  | inr z ↦ absurd (let h = rw z at e in cc)
  | inl o ↦ elim (Bool-cases (d == n)) [
    | inl q ↦ let p : n ≡ d = ground (arith, q) in subst (λ (x : ℕ). f x ≡ true) p o
    | inr q ↦ all_below_lem n f d (rw o at e) (ground (arith, l, q))
  ]
]

abbrev with_keys : (ctl shift caps : Bool) → Flags
with_keys ctl shift caps = record {
  shift = shift;
  ctl = ctl;
  alt = false;
  capslock = caps;
  numlock = false;
  scrolllock = false;
  e0esc = false;
}

abbrev agrees : (ℕ → Key) → Flags → ℕ → Bool
agrees k s c = typed s (index (k c)) == meaning (legend (k c)) s

every_key :
    (ctl shift caps : Bool)
    → (all_below 128 (agrees plain (with_keys ctl shift caps)) ≡ true)
      × (all_below 128 (agrees extended (with_keys ctl shift caps)) ≡ true)
unfolding typed normalmap shiftmap ctlmap
every_key true true true = (refl, refl)
every_key true true false = (refl, refl)
every_key true false true = (refl, refl)
every_key true false false = (refl, refl)
every_key false true true = (refl, refl)
every_key false true false = (refl, refl)
every_key false false true = (refl, refl)
every_key false false false = (refl, refl)

same : (a b : ℕ) → (a == b) ≡ true → a ≡ b
same a b e = ground (arith, e)

meaning-with_keys :
    (l : Legend) (s : Flags) → meaning l (with_keys s.ctl s.shift s.capslock) ≡ meaning l s
meaning-with_keys (letter a) s = refl
meaning-with_keys (signs below above with_ctl) s = refl

-- The tables and CAPSLOCK give each key what is printed on it.
pub typed-meaning : (s : Flags) (k : Key) → code k < 128 → typed s (index k) ≡ meaning (legend k) s
unfolding typed
typed-meaning s k l = by_kind k l ∙ meaning-with_keys (legend k) s
  where
    keys : Flags
    keys = with_keys s.ctl s.shift s.capslock

    by_kind : (k : Key) → code k < 128 → typed keys (index k) ≡ meaning (legend k) keys
    by_kind (plain c) l =
        same (typed keys c) (meaning (legend (plain c)) keys)
          (all_below_lem 128 (agrees plain keys) c (every_key s.ctl s.shift s.capslock).0 l)
    by_kind (extended c) l =
        same (typed keys (c + 128)) (meaning (legend (extended c)) keys)
          (all_below_lem 128 (agrees extended keys) c (every_key s.ctl s.shift s.capslock).1 l)
