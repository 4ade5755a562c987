-- ===== src/Libc/Compare.antt =====
-- memcmp and strncmp of string.c: their result has the sign of the first difference.
use fp_sisop20_f.Base.{
  ℕ, zero, suc, ◌+◌, ◌<◌, ◌≤◌, ◌≡◌, ◌≢◌, refl, ◌⊎◌, inl, inr, arith, true, false, ◌&&◌, not, ◌==◌,
  ℤ, pos, sub_ℕ, Bool-cases, ap,
}
use fp_sisop20_f.Memory.{Mem}
use fp_sisop20_f.Libc.{memcmp, strncmp}

-- The bytes at `p` and `q` agree for `n` places.
abbrev pub Agree : Mem → ℕ → ℕ → ℕ → Type 0
Agree m p q n = (i : ℕ) → i < n → m (p + i) ≡ m (q + i)

-- What a comparison of `n` bytes may return: 0, if all agree; or the difference of the first two
-- bytes that differ.
abbrev pub Compares : Mem → ℕ → ℕ → ℕ → ℤ → Type 0
Compares m p q n r =
    (Agree m p q n × (r ≡ pos 0))
    ⊎ ((k : ℕ) × (k < n)
        × Agree m p q k
        × (m (p + k) ≢ m (q + k))
        × (r ≡ sub_ℕ (m (p + k)) (m (q + k))))

Agree-suc : (m : Mem) (p q n : ℕ) → m p ≡ m q → Agree m (p + 1) (q + 1) n → Agree m p q (suc n)
Agree-suc m p q n e h zero lt = ground arith
Agree-suc m p q n e h (suc i) lt = ground (arith, h i)

Compares-suc :
    (m : Mem) (p q n : ℕ) (r : ℤ)
    → m p ≡ m q
    → Compares m (p + 1) (q + 1) n r
    → Compares m p q (suc n) r
Compares-suc m p q n r e (inl h) = inl (Agree-suc m p q n e h.0, h.1)
Compares-suc m p q n r e (inr (k, lt, h, ne, v)) =
    let e1 : p + 1 + k ≡ p + suc k = omega arith in
    let e2 : q + 1 + k ≡ q + suc k = omega arith in
    inr (suc k, omega arith, Agree-suc m p q k e h, rw (e1, e2) at ne, rw (e1, e2) at v)

-- `memcmp` returns 0 if the `n` bytes agree, and else the difference of the first two that differ.
pub memcmp-Compares : (m : Mem) (p q n : ℕ) → Compares m p q n (memcmp m p q n)
unfolding memcmp
memcmp-Compares m p q zero = inl (λ i h. absurd (omega arith), refl)
memcmp-Compares m p q (suc n) = elim (Bool-cases (m p == m q)) [
  | inl e ↦ rw e (Compares-suc m p q n _ (ground arith) (memcmp-Compares m (p + 1) (q + 1) n))
  | inr e ↦ rw e (inr (0, omega arith, λ i h. absurd (omega arith), ground arith, ground arith))
]

-- no NUL among the `n` characters at `p`
abbrev pub Unended : Mem → ℕ → ℕ → Type 0
Unended m p n = (i : ℕ) → i < n → m (p + i) ≢ 0

-- What `strncmp` may return: 0, if the strings agree up to their NUL or for `n` characters; or the
-- difference of the first two characters that differ, none of them behind a NUL.
abbrev pub StringCompares : Mem → ℕ → ℕ → ℕ → ℤ → Type 0
StringCompares m p q n r =
    ((k : ℕ) × (k ≤ n)
      × Agree m p q k
      × Unended m p k
      × ((k ≡ n) ⊎ ((k < n) × (m (p + k) ≡ 0) × (m (q + k) ≡ 0)))
      × (r ≡ pos 0))
    ⊎ ((k : ℕ) × (k < n)
        × Agree m p q k
        × Unended m p k
        × (m (p + k) ≢ m (q + k))
        × (r ≡ sub_ℕ (m (p + k)) (m (q + k))))

Unended-suc : (m : Mem) (p n : ℕ) → m p ≢ 0 → Unended m (p + 1) n → Unended m p (suc n)
Unended-suc m p n e h zero lt = ground arith
Unended-suc m p n e h (suc i) lt = ground (arith, h i)

StringCompares-suc :
    (m : Mem) (p q n : ℕ) (r : ℤ)
    → m p ≡ m q
    → m p ≢ 0
    → StringCompares m (p + 1) (q + 1) n r
    → StringCompares m p q (suc n) r
StringCompares-suc m p q n r e z (inl (k, lt, h, u, w, v)) =
    let e1 : p + 1 + k ≡ p + suc k = omega arith in
    let e2 : q + 1 + k ≡ q + suc k = omega arith in
    inl
      (suc k, omega arith, Agree-suc m p q k e h, Unended-suc m p k z u, stop (rw (e1, e2) at w), v)
  where
    stop :
        ((k ≡ n) ⊎ ((k < n) × (m (p + suc k) ≡ 0) × (m (q + suc k) ≡ 0)))
        → (suc k ≡ suc n) ⊎ ((suc k < suc n) × (m (p + suc k) ≡ 0) × (m (q + suc k) ≡ 0))
    stop (inl s) = inl (ap suc s)
    stop (inr (s, t, t')) = inr (omega arith, t, t')
StringCompares-suc m p q n r e z (inr (k, lt, h, u, ne, v)) =
    let e1 : p + 1 + k ≡ p + suc k = omega arith in
    let e2 : q + 1 + k ≡ q + suc k = omega arith in
    inr (
      suc k,
      omega arith,
      Agree-suc m p q k e h,
      Unended-suc m p k z u,
      rw (e1, e2) at ne,
      rw (e1, e2) at v,
    )

-- `strncmp` compares the two strings up to the NUL or for `n` characters, whichever comes first.
pub strncmp-StringCompares : (m : Mem) (p q n : ℕ) → StringCompares m p q n (strncmp m p q n)
unfolding strncmp
strncmp-StringCompares m p q zero =
    inl (0, omega arith, λ i h. absurd (omega arith), λ i h. absurd (omega arith), inl refl, refl)
strncmp-StringCompares m p q (suc n) = elim (Bool-cases (not (m p == 0) && (m p == m q))) [
  | inl e ↦ rw e (
      StringCompares-suc m p q n _ (ground arith) (ground arith)
        (strncmp-StringCompares m (p + 1) (q + 1) n))
  | inr e ↦ rw e (stopped e (Bool-cases (m p == m q)))
]
  where
    stopped :
        (not (m p == 0) && (m p == m q)) ≡ false
        → ((m p == m q) ≡ true) ⊎ ((m p == m q) ≡ false)
        → StringCompares m p q (suc n) (sub_ℕ (m p) (m q))
    stopped e (inl s) = inl (
      0,
      omega arith,
      λ i h. absurd (omega arith),
      λ i h. absurd (omega arith),
      inr (omega arith, ground arith, ground arith),
      ground arith,
    )
    stopped e (inr d) = inr (
      0,
      omega arith,
      λ i h. absurd (omega arith),
      λ i h. absurd (omega arith),
      ground arith,
      ground arith,
    )
