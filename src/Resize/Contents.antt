-- ===== src/Resize/Contents.antt =====
-- The contents that truncate and vim leave.
use fp_sisop20_f.Base.{
  ℕ, zero, suc, ◌+◌, ◌-◌, ◌<◌, ◌≤◌, ◌≡◌, refl, ◌∙◌, ap, ap₂, sym, arith, inl, inr, ◌⊎◌, true, false,
  List, [], ◌∷◌, ◌++◌, append-nil, append_assoc, Bool-cases, ◌&&◌, ltb, leb, min, length, take,
  drop, replicate, take-nil, drop_all, length-take, length-drop, length-append, ltb→lt, ltb→ge, ℤ,
  nonneg_part,
}
use fp_sisop20_f.Resize.{
  buf_size, max_size, copy_loop, pad_loop, truncate, count_loop, overwrite, write_over,
}

-- a piece of the first `m` elements and then the rest
pieces :
    (m s : ℕ) (xs : List ℕ)
    → take (min (length (take m xs)) s) (take m xs)
        ++ take (s - min (length (take m xs)) s) (drop m xs)
      ≡ take s xs
pieces zero s xs =
    let a : min 0 s ≡ 0 = omega arith in let b : s - 0 ≡ s = omega arith in rw (a, b) refl
pieces (suc m) s [] =
    ap₂ (λ (p q : List ℕ). p ++ q) (take-nil ℕ (min 0 s)) (take-nil ℕ (s - min 0 s))
    ∙ sym (take-nil ℕ s)
pieces (suc m) zero (x ∷ xs) =
    let a : min (suc (length (take m xs))) 0 ≡ 0 = omega arith in rw a refl
pieces (suc m) (suc s) (x ∷ xs) =
    let a : min (suc (length (take m xs))) (suc s) ≡ suc (min (length (take m xs)) s) =
      omega arith in
    let b : suc s - suc (min (length (take m xs)) s) ≡ s - min (length (take m xs)) s =
      omega arith in
    rw (a, b) (ap (λ l. x ∷ l) (pieces m s xs))

-- the numbers of a round that reads nothing, or has nothing left to write
idle_round : (b l s : ℕ) → b ≡ min buf_size l → (ltb 0 b && ltb 0 s) ≡ false → s ≡ s - l
idle_round b l s e h = ground arith

full_round :
    (b l d s n : ℕ) → b ≡ min buf_size l → d ≡ l - buf_size → n ≡ min b s → s - n - d ≡ s - l
full_round b l d s n e f g = omega arith

shorter_rest : (b l d k : ℕ) → b ≡ min buf_size l → d ≡ l - buf_size → l < suc k → 0 < b → d < k
shorter_rest b l d k e f h p = omega arith

both_positive : (b s : ℕ) → (ltb 0 b && ltb 0 s) ≡ true → 0 < b
both_positive b s h = ground arith

nothing_read : (b l s : ℕ) → b ≡ min buf_size l → 0 < s → (ltb 0 b && ltb 0 s) ≡ false → l ≡ 0
nothing_read b l s e p h = ground arith

last_round : (b l len : ℕ) → b ≡ min buf_size l → ltb 0 b ≡ false → len ≡ len + l
last_round b l len e h = ground arith

fits_round :
    (a t b l s : ℕ)
    → t ≡ min b s
    → b ≡ min buf_size l
    → a + l ≤ max_size
    → leb (a + t) max_size ≡ true
fits_round a t b l s e f h = ground arith

copy_loop_lem :
    (k : ℕ) (old : List ℕ) (s : ℕ) (file : List ℕ)
    → length old < k
    → length file + length old ≤ max_size
    → ((copy_loop k old s file).0 ≡ file ++ take s old)
      × ((copy_loop k old s file).1 ≡ s - length old)
unfolding copy_loop
copy_loop_lem zero old s file h fit = absurd (omega arith)
copy_loop_lem (suc k) old s file h fit =
    let b = take buf_size old in
    let n = min (length b) s in
    let lt = length-take buf_size old in
    let ld = length-drop buf_size old in
    let ln : length (take n b) ≡ n = length-take n b ∙ omega arith in
    elim (Bool-cases (ltb 0 (length b) && ltb 0 s)) [
      | inl e ↦
          let w : leb (length file + length (take n b)) max_size ≡ true =
            fits_round (length file) _ (length b) (length old) s ln lt fit in
          let longer : length (file ++ take n b) + length (drop buf_size old) ≤ max_size =
            omega (arith, length-append file (take n b), ln, lt, ld, fit) in
          let (p, q) =
            copy_loop_lem k (drop buf_size old) (s - n) (file ++ take n b)
              (shorter_rest (length b) (length old) _ k lt ld h (both_positive (length b) s e))
              longer in
          rw (e, w, p, q)
            (
              append_assoc file (take n b) (take (s - n) (drop buf_size old))
                  ∙ ap (λ (l : List ℕ). file ++ l) (pieces buf_size s old),
              full_round (length b) (length old) _ s n lt ld refl,
            )
      | inr e ↦ rw e (
        sym (
            ap (λ (l : List ℕ). file ++ l) (nothing_left (Bool-cases (ltb 0 s)) e)
            ∙ append-nil file),
        idle_round (length b) (length old) s lt e,
      )
    ]
  where
    nothing_left :
        (ltb 0 s ≡ true) ⊎ (ltb 0 s ≡ false)
        → (ltb 0 (length (take buf_size old)) && ltb 0 s) ≡ false
        → take s old ≡ []
    nothing_left (inl t) e = no_bytes old (
        nothing_read (length (take buf_size old)) (length old) s (length-take buf_size old)
          (ltb→lt 0 s t) e)
      where
        no_bytes : (xs : List ℕ) → length xs ≡ 0 → take s xs ≡ []
        no_bytes [] l = take-nil ℕ s
        no_bytes (x ∷ xs) l = absurd (omega arith)
    nothing_left (inr f) e = let z : s ≡ 0 = ground arith in rw z refl

-- Padding ends at the greatest size of a file.
pad_loop_lem :
    (n : ℕ) (file : List ℕ)
    → length file ≤ max_size
    → pad_loop n file ≡ file ++ replicate (min n (max_size - length file)) 0
unfolding pad_loop
pad_loop_lem zero file h =
    let z : min 0 (max_size - length file) ≡ 0 = omega arith in rw z (sym (append-nil file))
pad_loop_lem (suc n) file h = elim (Bool-cases (leb (length file + 1) max_size)) [
  | inl e ↦
      let l = length-append file (0 ∷ []) in
      let m : min (suc n) (max_size - length file)
          ≡ suc (min n (max_size - length (file ++ 0 ∷ []))) =
        ground (arith, l) in
      rw (e, m)
        (pad_loop_lem n (file ++ 0 ∷ []) (ground (arith, l))
          ∙ append_assoc file (0 ∷ []) (replicate (min n (max_size - length (file ++ 0 ∷ []))) 0))
  | inr e ↦
      let m : min (suc n) (max_size - length file) ≡ 0 = ground (arith, h) in
      let k : min n (max_size - length file) ≡ 0 = ground (arith, h) in
      rw (e, m) (pad_loop_lem n file h ∙ rw k refl)
]

-- `truncate` of a file that is not longer than MAXFILE blocks leaves the first `size` bytes of it, and
-- NULs behind them where it was shorter, up to `size` bytes or MAXFILE blocks, whichever is less; an
-- empty file where the size is negative.
pub truncate_lem :
    (old : List ℕ) (size : ℤ)
    → length old ≤ max_size
    → truncate old size
      ≡ take (nonneg_part size) old ++ replicate (min (nonneg_part size) max_size - length old) 0
unfolding truncate
truncate_lem old size fit =
    let n = nonneg_part size in
    let (p, q) = copy_loop_lem (suc (length old)) old n [] (omega arith) (omega (arith, fit)) in
    let l = length-take n old in
    let m : min (n - length old) (max_size - length (take n old)) ≡ min n max_size - length old =
      omega (arith, l, fit) in
    rw (p, q) (pad_loop_lem (n - length old) (take n old) (omega (arith, l, fit)) ∙ rw m refl)

count_loop_lem :
    (k : ℕ) (old : List ℕ) (len : ℕ) → length old < k → count_loop k old len ≡ len + length old
unfolding count_loop
count_loop_lem zero old len h = absurd (omega arith)
count_loop_lem (suc k) old len h =
    let lt = length-take buf_size old in
    let ld = length-drop buf_size old in
    elim (Bool-cases (ltb 0 (length (take buf_size old)))) [
      | inl e ↦ rw e (
          count_loop_lem k (drop buf_size old) (len + length (take buf_size old))
            (ground (arith, lt, ld))
          ∙ omega (arith, lt, ld))
      | inr e ↦ rw e (last_round (length (take buf_size old)) (length old) len lt e)
    ]

length-replicate : (n c : ℕ) → length (replicate n c) ≡ n
length-replicate zero c = refl
length-replicate (suc n) c = ap suc (length-replicate n c)

-- vim's `overwrite` leaves the message, and behind it NULs up to the length that the file had.
pub overwrite_lem :
    (old message : List ℕ)
    → overwrite old message ≡ message ++ replicate (length old - length message) 0
unfolding overwrite
overwrite_lem old message =
    let c : count_loop (suc (length old)) old 0 ≡ length old =
      count_loop_lem (suc (length old)) old 0 (omega arith) ∙ omega arith in
    rw c (elim (Bool-cases (ltb (length message) (length old))) [
      | inl e ↦ rw e (
          covered (replicate (length old - length message) 0)
            (omega (arith, length-replicate (length old - length message) 0)))
      | inr e ↦
          let z : length old - length message ≡ 0 =
            omega (arith, ltb→ge (length message) (length old) e) in
          rw (e, z) (covered [] (omega (arith, ltb→ge (length message) (length old) e)))
    ])
  where
    covered :
        (zeros : List ℕ)
        → length old ≤ length message + length zeros
        → write_over (message ++ zeros) old ≡ message ++ zeros
    covered zeros h =
        ap (λ (t : List ℕ). (message ++ zeros) ++ t)
          (drop_all (length (message ++ zeros)) old (omega (arith, length-append message zeros)))
        ∙ append-nil (message ++ zeros)
