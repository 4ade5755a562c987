-- ===== src/Console/Line.antt =====
-- The input line: its three indices stay in order, whatever is typed and read.
use fp_sisop20_f.Base.{
  ℕ, zero, suc, ◌+◌, ◌%◌, ◌^◌, ◌<◌, ◌≤◌, ◌≡◌, arith, List, [], ◌∷◌, Bool, not, ◌&&◌, ◌||◌, ltb,
  ◌==◌, if◌then◌else◌, sub32, add32, inl, inr, Bool-cases, get_or, get_or-set_ne, set, refl, ◌≢◌,
  length, length-set, ℤ, nonneg_part, ◌∙◌,
}
use fp_sisop20_f.Console.{
  Input, input_buf, kill_line, erase, type_char, feed, consoleintr, read_line, consoleread, ctrl_d,
  typed,
}

-- Counted from the read index, the write index comes before the edit index, and that at most a buffer
-- ahead; the lines before the write index are complete.
pub record IsLine (i : Input) : Type 0 where
  pub whole : length i.buf ≡ input_buf
  pub r_word : i.r < 2 ^ 32
  pub w_word : i.w < 2 ^ 32
  pub e_word : i.e < 2 ^ 32
  pub fits : sub32 i.w i.r + sub32 i.e i.w ≤ input_buf

kill_line-IsLine : (k : ℕ) (i : Input) → IsLine i → IsLine (kill_line k i).0
unfolding kill_line
kill_line-IsLine zero i v = v
kill_line-IsLine (suc k) i v =
    elim (Bool-cases (not (i.e == i.w) && not (get_or i.buf (sub32 i.e 1 % input_buf) 0 == 10))) [
      | inl b ↦ rw b (
          kill_line-IsLine k (record i { e = sub32 i.e 1 })
            (record {
              whole = v.whole;
              r_word = v.r_word;
              w_word = v.w_word;
              e_word = omega arith;
              fits = ground (arith, v.fits, v.e_word, v.w_word, v.r_word);
            }))
      | inr b ↦ rw b v
    ]

erase-IsLine : (i : Input) → IsLine i → IsLine (erase i).0
unfolding erase
erase-IsLine i v = elim (Bool-cases (i.e == i.w)) [
  | inl b ↦ rw b v
  | inr b ↦ rw b (record {
    whole = v.whole;
    r_word = v.r_word;
    w_word = v.w_word;
    e_word = omega arith;
    fits = ground (arith, v.fits, v.e_word, v.w_word, v.r_word);
  })
]

typed-IsLine : (c : ℕ) (i : Input) → sub32 i.e i.r < input_buf → IsLine i → IsLine (typed c i).0
typed-IsLine c i h v =
    let l = length-set i.buf (i.e % input_buf) (c % 256) ∙ v.whole in
    elim (Bool-cases ((c == 10) || (c == ctrl_d) || (add32 i.e 1 == add32 i.r input_buf))) [
      | inl b ↦ rw b (record {
        whole = l;
        r_word = v.r_word;
        w_word = omega arith;
        e_word = omega arith;
        fits = omega (arith, h, v.e_word, v.r_word);
      })
      | inr b ↦ rw b (record {
        whole = l;
        r_word = v.r_word;
        w_word = v.w_word;
        e_word = omega arith;
        fits = omega (arith, h, v.fits, v.e_word, v.r_word, v.w_word);
      })
    ]

feed-IsLine : (c : ℕ) (i : Input) → IsLine i → IsLine (feed c i).0
unfolding feed type_char
feed-IsLine c i v = elim (Bool-cases (c == 16)) [
  | inl a ↦ rw a v
  | inr a ↦ elim (Bool-cases (c == 21)) [
    | inl b ↦ rw (a, b) (kill_line-IsLine (sub32 i.e i.w) i v)
    | inr b ↦ elim (Bool-cases ((c == 8) || (c == 127))) [
      | inl d ↦ rw (a, b, d) (erase-IsLine i v)
      | inr d ↦ elim (Bool-cases (not (c == 0) && ltb (sub32 i.e i.r) input_buf)) [
        | inl f ↦ rw (a, b, d, f) (typed-IsLine (if c == 13 then 10 else c) i (ground arith) v)
        | inr f ↦ rw (a, b, d, f) v
      ]
    ]
  ]
]

-- The complete lines from the read index on stay as they are; there may be more of them.
pub record Keeps (i i' : Input) : Type 0 where
  pub same_r : i'.r ≡ i.r
  pub no_less : sub32 i.w i.r ≤ sub32 i'.w i.r
  pub lines :
      (d : ℕ)
      → d < sub32 i.w i.r
      → get_or i'.buf ((i.r + d) % input_buf) 0 ≡ get_or i.buf ((i.r + d) % input_buf) 0

-- The edit index may move.
edit-Keeps : (i : Input) (e : ℕ) → Keeps i (record i { e = e })
edit-Keeps i e = record { same_r = refl; no_less = omega arith; lines = λ d l. refl }

same-Keeps : (i : Input) → Keeps i i
same-Keeps i = record { same_r = refl; no_less = omega arith; lines = λ d l. refl }

then-Keeps : (i i' i'' : Input) → Keeps i i' → Keeps i' i'' → Keeps i i''
then-Keeps i i' i'' v v' = record {
  same_r = v'.same_r ∙ v.same_r;
  no_less = omega (arith, v.no_less, (rw v.same_r at v'.no_less));
  lines = λ d l. (rw v.same_r at v'.lines) d (omega (arith, l, v.no_less)) ∙ v.lines d l;
}

kill_line-Keeps : (k : ℕ) (i : Input) → Keeps i (kill_line k i).0
unfolding kill_line
kill_line-Keeps zero i = same-Keeps i
kill_line-Keeps (suc k) i =
    let shorter = record i { e = sub32 i.e 1 } in
    elim (Bool-cases (not (i.e == i.w) && not (get_or i.buf (sub32 i.e 1 % input_buf) 0 == 10))) [
      | inl b ↦ rw b (
          then-Keeps i shorter (kill_line k shorter).0 (edit-Keeps i (sub32 i.e 1))
            (kill_line-Keeps k shorter))
      | inr b ↦ rw b (same-Keeps i)
    ]

-- The place for the next character is none of those that hold a complete line.
apart :
    (i : Input) (d : ℕ)
    → IsLine i
    → sub32 i.e i.r < input_buf
    → d < sub32 i.w i.r
    → i.e % input_buf ≢ (i.r + d) % input_buf
apart i d v h l q = omega (arith, v.fits, v.e_word, v.r_word, v.w_word, h, l, q)

typed-Keeps : (c : ℕ) (i : Input) → sub32 i.e i.r < input_buf → IsLine i → Keeps i (typed c i).0
typed-Keeps c i h v =
    let other : (d : ℕ)
        → d < sub32 i.w i.r
        → get_or (set i.buf (i.e % input_buf) (c % 256)) ((i.r + d) % input_buf) 0
          ≡ get_or i.buf ((i.r + d) % input_buf) 0 =
      λ d l.
        get_or-set_ne i.buf (i.e % input_buf) ((i.r + d) % input_buf) (c % 256) 0
          (apart i d v h l) in
    elim (Bool-cases ((c == 10) || (c == ctrl_d) || (add32 i.e 1 == add32 i.r input_buf))) [
      | inl b ↦ rw b (record {
        same_r = refl;
        no_less = omega (arith, h, v.fits, v.e_word, v.r_word, v.w_word);
        lines = other;
      })
      | inr b ↦ rw b (record { same_r = refl; no_less = omega arith; lines = other })
    ]

feed-Keeps : (c : ℕ) (i : Input) → IsLine i → Keeps i (feed c i).0
unfolding feed type_char erase
feed-Keeps c i v = elim (Bool-cases (c == 16)) [
  | inl a ↦ rw a (same-Keeps i)
  | inr a ↦ elim (Bool-cases (c == 21)) [
    | inl b ↦ rw (a, b) (kill_line-Keeps (sub32 i.e i.w) i)
    | inr b ↦ elim (Bool-cases ((c == 8) || (c == 127))) [
      | inl d ↦ elim (Bool-cases (i.e == i.w)) [
        | inl z ↦ rw (a, b, d, z) (same-Keeps i)
        | inr z ↦ rw (a, b, d, z) (edit-Keeps i (sub32 i.e 1))
      ]
      | inr d ↦ elim (Bool-cases (not (c == 0) && ltb (sub32 i.e i.r) input_buf)) [
        | inl f ↦ rw (a, b, d, f) (typed-Keeps (if c == 13 then 10 else c) i (ground arith) v)
        | inr f ↦ rw (a, b, d, f) (same-Keeps i)
      ]
    ]
  ]
]

-- Whatever the keyboard sends to a line whose indices are in order, `consoleintr` keeps them in order:
-- counted from the read index, the write index comes before the edit index, and that is at most a
-- buffer ahead. The read index stays, the write index only moves on, and no character between the two
-- is changed: the complete lines are edited no more.
pub consoleintr-IsLine :
    (cs : List ℕ) (i : Input)
    → IsLine i
    → IsLine (consoleintr cs i).0 × Keeps i (consoleintr cs i).0
unfolding consoleintr
consoleintr-IsLine [] i v = (v, same-Keeps i)
consoleintr-IsLine (c ∷ cs) i v =
    let (v', k) = consoleintr-IsLine cs (feed c i).0 (feed-IsLine c i v) in
    (v', then-Keeps i (feed c i).0 (consoleintr cs (feed c i).0).0 (feed-Keeps c i v) k)

read_line-IsLine :
    (killed : Bool) (target n : ℕ) (i : Input) → IsLine i → IsLine (read_line killed target n i).0
unfolding read_line
read_line-IsLine killed target zero i v = v
read_line-IsLine killed target (suc n) i v = elim (Bool-cases (i.r == i.w)) [
  | inl a ↦ rw a v
  | inr a ↦
      let i' = record i { r = add32 i.r 1 } in
      let v' : IsLine i' = record {
        whole = v.whole;
        r_word = omega arith;
        w_word = v.w_word;
        e_word = v.e_word;
        fits = ground (arith, v.fits, v.e_word, v.w_word, v.r_word);
      } in
      elim (Bool-cases (get_or i.buf (i.r % input_buf) 0 == ctrl_d)) [
        | inl b ↦ elim (Bool-cases (ltb (suc n) target)) [
          | inl d ↦ rw (a, b, d) v
          | inr d ↦ rw (a, b, d) v'
        ]
        | inr b ↦ elim (Bool-cases (get_or i.buf (i.r % input_buf) 0 == 10)) [
          | inl d ↦ rw (a, b, d) v'
          | inr d ↦ rw (a, b, d) (read_line-IsLine killed target n i' v')
        ]
      ]
]

-- So does `consoleread`, on every branch.
pub consoleread-IsLine :
    (killed : Bool) (n : ℤ) (i : Input) → IsLine i → IsLine (consoleread killed n i).0
unfolding consoleread
consoleread-IsLine killed n i v = read_line-IsLine killed (nonneg_part n) (nonneg_part n) i v
