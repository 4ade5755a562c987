-- ===== src/Syscall/Fetch.antt =====
-- Fetched arguments lie inside the memory of the process.
use fp_sisop20_f.Base.{
  ℕ, zero, suc, ◌+◌, ◌-◌, ◌%◌, ◌^◌, ◌<◌, ◌≤◌, ◌≡◌, ◌≢◌, refl, ◌∙◌, ap, arith, ◌⊎◌, inl, inr, none,
  some, Option, Bool-cases, ◌==◌, ltb, leb, ◌||◌, add32, pos,
}
use fp_sisop20_f.Memory.{Mem}
use fp_sisop20_f.Syscall.{User, fetchstr, string_loop, argint, argptr, block_at, then_try}

-- What a search for a NUL among `k` characters from `s` on may answer, if `len` came before.
abbrev pub Searched : Mem → ℕ → ℕ → ℕ → Option ℕ → Type 0
Searched m s k len none = (i : ℕ) → i < k → m (s + i) ≢ 0
Searched m s k len (some r) =
    (len ≤ r) × (r - len < k) × (m (s + (r - len)) ≡ 0) × ((i : ℕ) → i < r - len → m (s + i) ≢ 0)

string_loop-Searched : (m : Mem) (s k len : ℕ) → Searched m s k len (string_loop m s k len)
unfolding string_loop
string_loop-Searched m s zero len = λ i l. absurd (omega arith)
string_loop-Searched m s (suc k) len = elim (Bool-cases (m s == 0)) [
  | inl e ↦
      let z : m s ≡ 0 = ground arith in
      let a : s + (len - len) ≡ s = omega arith in
      rw e (omega arith, omega arith, ap m a ∙ z, λ i l. absurd (omega arith))
  | inr e ↦
      let nz : m s ≢ 0 = ground arith in
      rw e
        (widen nz (string_loop m (s + 1) k (len + 1)) (string_loop-Searched m (s + 1) k (len + 1)))
]
  where
    later :
        {n : ℕ}
        → m s ≢ 0
        → ((i : ℕ) → i < n → m (s + 1 + i) ≢ 0)
        → (i : ℕ) → i < n + 1
        → m (s + i) ≢ 0
    later nz h zero l z = nz (ap m (omega arith) ∙ z)
    later nz h (suc i) l z = h i (omega arith) (ap m (omega arith) ∙ z)

    widen : m s ≢ 0 → (o : Option ℕ) → Searched m (s + 1) k (len + 1) o → Searched m s (suc k) len o
    widen nz none h = λ i l. later nz h i (omega arith)
    widen nz (some r) (a, b, z, h) =
        (omega arith, omega arith, ap m (omega arith) ∙ z, λ i l. later nz h i (omega arith))

-- `fetchstr` answers with the length of the string at `addr` where a NUL ends it inside the process,
-- and fails where no NUL stands between `addr` and the end of the process.
pub fetchstr-Searched :
    (u : User) (addr : ℕ) → Searched u.mem addr (u.sz - addr) 0 (fetchstr u addr)
unfolding fetchstr
fetchstr-Searched u addr = elim (Bool-cases (leb u.sz addr)) [
  | inl e ↦ rw e (λ i l. absurd (ground arith))
  | inr e ↦ rw e (string_loop-Searched u.mem addr (u.sz - addr) 0)
]

-- In a process of at most 2 GB, `argptr` with a size that is not negative, and fits an int, succeeds
-- exactly where the argument can be fetched and the whole block that it points to lies inside the
-- process; it answers with the argument.
pub argptr_lem :
    (u : User) (n size : ℕ)
    → u.sz ≤ 2 ^ 31
    → size < 2 ^ 31
    → ((argptr u n (pos size) ≡ none)
        × ((i : ℕ) → argint u n ≡ some i → (u.sz ≤ i) ⊎ (u.sz < i + size)))
      ⊎ ((i : ℕ) × (argptr u n (pos size) ≡ some i)
          × (argint u n ≡ some i)
          × (i < u.sz)
          × (i + size ≤ u.sz))
unfolding argptr
argptr_lem u n size h k = by_arg (argint u n)
  where
    by_arg :
        (o : Option ℕ)
        → ((then_try o (block_at u (pos size)) ≡ none)
            × ((i : ℕ) → o ≡ some i → (u.sz ≤ i) ⊎ (u.sz < i + size)))
          ⊎ ((i : ℕ) × (then_try o (block_at u (pos size)) ≡ some i)
              × (o ≡ some i)
              × (i < u.sz)
              × (i + size ≤ u.sz))
    by_arg none = inl (refl, λ i e. absurd (cc))
    by_arg (some i) = elim (Bool-cases (leb u.sz i || ltb u.sz (add32 i (size % 2 ^ 32)))) [
      | inl b ↦ inl (rw b refl, λ j e. ground arith)
      | inr b ↦ inr (i, rw b refl, refl, ground arith, ground arith)
    ]
