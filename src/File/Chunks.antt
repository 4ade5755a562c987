-- ===== src/File/Chunks.antt =====
-- filewrite splits a long write into transactions of a size that the log can carry.
use fp_sisop20_f.Base.{
  ℕ, zero, suc, ◌+◌, ◌-◌, ◌<◌, ◌≤◌, ◌≡◌, ◌∙◌, ap, arith, inl, inr, true, List, [], ◌∷◌, ◌++◌, ◌%◌,
  ◌*◌, subst, Bool-cases, ==_refl, ap₂, ◌^◌, add32, ltb, if◌then◌else◌, min, pos, minus_one, not,
  ok, ℤ,
}
use fp_sisop20_f.File.{
  File, fd_inode, Call, begin_trans, ilock, writei, iunlock, commit_trans, one_write, stopped,
  chunk, write_loop, filewrite, write_result, write_by,
}

-- `calls` carry `n` bytes of `addr` from index `i` on to an inode, at `off` of it: one transaction
-- after the other, each with the inode locked, of three blocks of 512 bytes at most.
pub data Carries (ip : ℕ) : (i off n : ℕ) → List Call → Type 0 where
  nothing : (i off : ℕ) → Carries ip i off 0 []
  more :
      (i off n m : ℕ) (calls : List Call)
      → 0 < m
      → m ≤ 3 * 512
      → m ≤ n
      → Carries ip (i + m) ((off + m) % 2 ^ 32) (n - m) calls
      → Carries ip i off n
          (begin_trans ∷ ilock ip ∷ writei ip i off m ∷ iunlock ip ∷ commit_trans ∷ calls)

-- The loop from `i` to `n`, where every write is carried out whole.
whole_loop :
    (answer : ℕ → ℕ → ℕ → ℤ) (k i n : ℕ) (f : File)
    → ((i off m : ℕ) → m ≤ 3 * 512 → answer i off m ≡ pos m)
    → n - i < k
    → i ≤ n
    → f.off < 2 ^ 32
    → (calls : List Call) × (write_loop answer k i n f
        ≡ (stopped n, record f { off = add32 f.off (n - i) }, calls))
      × Carries f.ip i f.off (n - i) calls
unfolding write_loop
whole_loop answer zero i n f h e l u = absurd (omega arith)
whole_loop answer (suc k) i n f h e l u = elim (Bool-cases (ltb i n)) [
  | inl b ↦
      let n1 = min (n - i) chunk in
      let lt : i < n = ground arith in
      let (calls, p, c) =
        whole_loop answer k (i + n1) n (record f { off = add32 f.off n1 }) h (omega arith)
          (omega arith) (omega arith) in
      let o : add32 (add32 f.off n1) (n - (i + n1)) ≡ add32 f.off (n - i) = omega arith in
      let d : n - (i + n1) ≡ n - i - n1 = omega arith in
      (
        begin_trans ∷ ilock f.ip ∷ writei f.ip i f.off n1 ∷ iunlock f.ip ∷ commit_trans ∷ calls,
        rw (b, h i f.off n1 (omega arith), ==_refl n1, p)
            (ap (λ o. (stopped n, record f { off = o }, one_write f i n1 ++ calls)) o),
        more i f.off (n - i) n1 calls (omega arith) (omega arith) (omega arith)
            (subst (λ r. Carries f.ip (i + n1) (add32 f.off n1) r calls) d c),
      )
  | inr b ↦
      let e : i ≡ n = ground arith in
      let z : n - i ≡ 0 = omega arith in
      let o : f.off ≡ add32 f.off (n - i) = omega arith in
      ([], rw b (ap₂ (λ m o. (stopped m, record f { off = o }, [])) e o), rw z (nothing i f.off))
]

-- `filewrite` of `n` bytes to a writable file on an inode, whose writes of at most three blocks all
-- succeed: it returns `n`, the offset has moved by `n`, modulo 2 ^ 32, and its calls write all bytes in
-- order, from the old offset on, each write with the inode locked in a transaction of its own, of
-- at least one byte and at most three blocks.
pub filewrite_lem :
    (from_pipe : ℤ) (answer : ℕ → ℕ → ℕ → ℤ) (n : ℕ) (f : File)
    → f.writable ≡ true
    → f.type ≡ fd_inode
    → f.off < 2 ^ 32
    → ((i off m : ℕ) → m ≤ 3 * 512 → answer i off m ≡ pos m)
    → (calls : List Call) × (filewrite from_pipe answer f (pos n)
        ≡ ok (pos n, record f { off = add32 f.off n }, calls))
      × Carries f.ip 0 f.off n calls
unfolding filewrite
filewrite_lem from_pipe answer n f w t u h =
    let (calls, p, c) = whole_loop answer (suc n) 0 n f h (omega arith) (omega arith) u in
    let z : n - 0 ≡ n = omega arith in
    let done : write_result n (write_loop answer (suc n) 0 n f)
        ≡ ok (pos n, record f { off = add32 f.off n }, calls) =
      ap (write_result n) p
      ∙ ap (λ m. write_result n (stopped n, record f { off = add32 f.off m }, calls)) z
      ∙ ap (λ b. ok (if b then pos n else minus_one, record f { off = add32 f.off n }, calls))
          (==_refl n) in
    (
      calls,
      ap (λ b. if not b then ok (minus_one, f, []) else write_by from_pipe answer f (pos n) f.type)
            w
          ∙ ap (write_by from_pipe answer f (pos n)) t
          ∙ done,
      subst (λ m. Carries f.ip 0 f.off m calls) z c,
    )
