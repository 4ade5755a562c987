-- ===== src/Libc/Pad.antt =====
-- strncpy, safestrcpy and strlen of string.c: what stands in the buffer afterwards.
use fp_sisop20_f.Base.{
  ℕ, zero, suc, ◌+◌, ◌-◌, ◌<◌, ◌≤◌, ◌≡◌, ◌≢◌, refl, ◌∙◌, ◌⊎◌, inl, inr, arith, some, ◌==◌, ne→==,
  if◌then◌else◌, pos, Bool-cases,
}
use fp_sisop20_f.Memory.{Mem, write, write_self, write_ne}
use fp_sisop20_f.Libc.{
  zero_fill, copy_then_fill, strncpy, copy_then_stop, safestrcpy, strlen_loop, strlen,
}
use fp_sisop20_f.Libc.Copy.{within}
use fp_sisop20_f.Libc.Compare.{Unended}

-- the string at `t`, with zeros behind its end
unfoldable pub padded : Mem → ℕ → ℕ → ℕ
padded m t zero = m t
padded m t (suc i) = if m t == 0 then 0 else padded m (t + 1) i

-- The `n` bytes at `s` and at `t` do not overlap.
abbrev pub Apart : ℕ → ℕ → ℕ → Type 0
Apart s t n = (s + n ≤ t) ⊎ (t + n ≤ s)

padded-write :
    (m : Mem) (p v t i : ℕ) → ((p < t) ⊎ (t + i < p)) → padded (write m p v) t i ≡ padded m t i
unfolding padded
padded-write m p v t zero h = write_ne m p v t (ground arith)
padded-write m p v t (suc i) h = ground (arith, padded-write m p v (t + 1) i, write_ne m p v t)

zero_fill_lem : (m : Mem) (s n a : ℕ) → zero_fill m s n a ≡ (if within s n a then 0 else m a)
unfolding zero_fill
zero_fill_lem m s zero a = ground arith
zero_fill_lem m s (suc n) a =
    zero_fill_lem (write m s 0) (s + 1) n a ∙ (unfold write in ground arith)

padded_step : (m : Mem) (t k : ℕ) → m t ≢ 0 → 0 < k → padded m (t + 1) (k - 1) ≡ padded m t k
unfolding padded
padded_step m t zero z h = absurd (omega arith)
padded_step m t (suc k) z h = let e : suc k - 1 ≡ k = omega arith in rw (e, ne→== (m t) 0 z)

padded_first : (m : Mem) (t : ℕ) → padded m t 0 ≡ m t
unfolding padded
padded_first m t = refl

padded_nul : (m : Mem) (t k : ℕ) → m t ≡ 0 → padded m t k ≡ 0
unfolding padded
padded_nul m t zero z = z
padded_nul m t (suc k) z = ground arith

copy_step :
    (m : Mem) (s t n a : ℕ)
    → Apart s t (suc n)
    → m t ≢ 0
    → (if within (s + 1) n a
        then padded (write m s (m t)) (t + 1) (a - (s + 1))
        else write m s (m t) a)
      ≡ (if within s (suc n) a then padded m t (a - s) else m a)
copy_step m s t n a h z = elim (Bool-cases (within (s + 1) n a)) [
  | inl e ↦
      let e' : a - (s + 1) ≡ a - s - 1 = omega arith in
      rw (e, e', padded-write m s (m t) (t + 1) (a - s - 1) (ground arith))
        (ground (arith, padded_step m t (a - s) z))
  | inr e ↦ rw e (ground (arith, padded_first m t, write_self m s (m t), write_ne m s (m t) a))
]

copy_then_fill_lem :
    (m : Mem) (s t n a : ℕ)
    → Apart s t n
    → copy_then_fill m s t n a ≡ (if within s n a then padded m t (a - s) else m a)
unfolding copy_then_fill
copy_then_fill_lem m s t zero a h = ground arith
copy_then_fill_lem m s t (suc n) a h = elim (Bool-cases (m t == 0)) [
  | inl e ↦ rw e (
      zero_fill_lem (write m s (m t)) (s + 1) n a
      ∙ ground (arith, padded_nul m t (a - s), write_self m s (m t), write_ne m s (m t) a))
  | inr e ↦ rw e (
      copy_then_fill_lem (write m s (m t)) (s + 1) (t + 1) n a (ground arith)
      ∙ copy_step m s t n a h (ground arith))
]

-- `strncpy` leaves exactly `n` characters at `s`: the string at `t`, cut at `n` or padded with
-- NULs; it changes no other byte. The two ranges may not overlap.
pub strncpy-padded :
    (m : Mem) (s t n a : ℕ)
    → Apart s t n
    → strncpy m s t (pos n) a ≡ (if within s n a then padded m t (a - s) else m a)
unfolding strncpy
strncpy-padded m s t n a h = copy_then_fill_lem m s t n a h

-- what `safestrcpy` leaves: `k` characters of the string at `t` and a NUL, inside `n` bytes
abbrev pub Terminated : Mem → Mem → ℕ → ℕ → ℕ → Type 0
Terminated m m' s t n =
    (k : ℕ) × (k < n)
    × ((i : ℕ) → i < k → (m' (s + i) ≡ m (t + i)) × (m (t + i) ≢ 0))
    × (m' (s + k) ≡ 0)
    × ((suc k ≡ n) ⊎ (m (t + k) ≡ 0))
    × ((a : ℕ) → (a < s) ⊎ (s + n ≤ a) → m' a ≡ m a)

Terminated-suc :
    (m m' : Mem) (s t n : ℕ)
    → Apart s t (suc (suc n))
    → m t ≢ 0
    → Terminated (write m s (m t)) m' (s + 1) (t + 1) (suc n)
    → Terminated m m' s t (suc (suc n))
Terminated-suc m m' s t n h z (k, lt, eq, nul, stop, out) = (
  suc k,
  omega arith,
  same,
  ground arith,
  ground (arith, write_ne m s (m t) (t + 1 + k)),
  λ a o. ground (arith, out a, write_ne m s (m t) a),
)
  where
    same : (i : ℕ) → i < suc k → (m' (s + i) ≡ m (t + i)) × (m (t + i) ≢ 0)
    same zero lt' = (ground (arith, out s, write_self m s (m t)), ground arith)
    same (suc i) lt' =
        let (e, ne) = eq i (omega arith) in
        (
          ground (arith, write_ne m s (m t) (t + 1 + i)),
          ground (arith, write_ne m s (m t) (t + 1 + i)),
        )

copy_then_stop-Terminated :
    (m : Mem) (s t n : ℕ) → Apart s t (suc n) → Terminated m (copy_then_stop m s t n) s t (suc n)
unfolding copy_then_stop
copy_then_stop-Terminated m s t zero h = (
  0,
  omega arith,
  λ i lt. absurd (omega arith),
  ground (arith, write_self m s 0),
  inl refl,
  λ a o. write_ne m s 0 a (omega arith),
)
copy_then_stop-Terminated m s t (suc n) h = elim (Bool-cases (m t == 0)) [
  | inl e ↦ rw e (
    0,
    omega arith,
    λ i lt. absurd (omega arith),
    ground (arith, write_self m s (m t), write_ne (write m s (m t)) (s + 1) 0 s),
    ground arith,
    λ a o.
        write_ne (write m s (m t)) (s + 1) 0 a (omega arith) ∙ write_ne m s (m t) a (omega arith),
  )
  | inr e ↦ rw e (
      Terminated-suc m _ s t n h (ground arith)
        (copy_then_stop-Terminated (write m s (m t)) (s + 1) (t + 1) n (ground arith)))
]

-- `safestrcpy` into a buffer of `n` bytes, `n` at least 1, leaves a NUL-terminated string in it:
-- the characters of the string at `t`, as many as fit before the NUL; it changes no byte outside
-- the buffer. The two ranges may not overlap.
pub safestrcpy-Terminated :
    (m : Mem) (s t n : ℕ) → 0 < n → Apart s t n → Terminated m (safestrcpy m s t (pos n)) s t n
unfolding safestrcpy
safestrcpy-Terminated m s t zero l h = absurd (omega arith)
safestrcpy-Terminated m s t (suc n) l h = copy_then_stop-Terminated m s t n h

strlen_loop_lem :
    (m : Mem) (s fuel n k : ℕ)
    → Unended m (s + n) k
    → m (s + n + k) ≡ 0
    → k < fuel
    → strlen_loop fuel m s n ≡ some (n + k)
unfolding strlen_loop
strlen_loop_lem m s zero n k u z h = absurd (omega arith)
strlen_loop_lem m s (suc fuel) n zero u z h = ground arith
strlen_loop_lem m s (suc fuel) n (suc k) u z h =
    let e : s + (n + 1) + k ≡ s + n + suc k = omega arith in
    let z' : m (s + n) ≢ 0 = ground (arith, u 0) in
    rw (ne→== (m (s + n)) 0 z') (
      strlen_loop_lem m s fuel (n + 1) k (λ i lt. ground (arith, u (suc i))) (rw e z) (omega arith)
      ∙ ground arith)

-- `strlen` finds the first NUL: given enough rounds, it returns the number of characters before it.
pub strlen_lem :
    (m : Mem) (s k fuel : ℕ) → Unended m s k → m (s + k) ≡ 0 → k < fuel → strlen fuel m s ≡ some k
unfolding strlen
strlen_lem m s k fuel u z h =
    strlen_loop_lem m s fuel 0 k (λ i lt. ground (arith, u i)) (ground arith) h ∙ ground arith
