-- ===== src/Libc/Copy.antt =====
-- memset and memmove of string.c against the memory that they should leave.
use fp_sisop20_f.Base.{
  ℕ, zero, suc, ◌+◌, ◌-◌, ◌*◌, ◌/◌, ◌%◌, ◌^◌, ◌<◌, ◌≡◌, refl, ◌∙◌, Bool, true, false, ◌&&◌, inl,
  inr, arith, ltb, leb, ◌==◌, if◌then◌else◌, Bool-cases,
}
use fp_sisop20_f.Memory.{Mem, write}
use fp_sisop20_f.Libc.{stosb, store_word, stosl, splat, memset, copy_up, copy_down, memmove}

-- `a` lies in the `n` bytes from `p` on.
abbrev pub within : ℕ → ℕ → ℕ → Bool
within p n a = leb p a && ltb a (p + n)

stosb_lem : (m : Mem) (p c n a : ℕ) → stosb m p c n a ≡ (if within p n a then c % 256 else m a)
unfolding stosb
stosb_lem m p c zero a = ground arith
stosb_lem m p c (suc n) a =
    stosb_lem (write m p (c % 256)) (p + 1) c n a ∙ (unfold write in ground arith)

-- The four bytes of a word are all `c`.
IsSplat : ℕ → ℕ → Type 0
IsSplat w c =
    (w % 256 ≡ c) × (w / 2 ^ 8 % 256 ≡ c) × (w / 2 ^ 16 % 256 ≡ c) × (w / 2 ^ 24 % 256 ≡ c)

store_word_lem :
    (m : Mem) (p w c a : ℕ) → IsSplat w c → store_word m p w a ≡ (if within p 4 a then c else m a)
unfolding store_word write IsSplat
store_word_lem m p w c a h = ground arith

stosl_lem :
    (m : Mem) (p w c n a : ℕ)
    → IsSplat w c
    → stosl m p w n a ≡ (if within p (4 * n) a then c else m a)
unfolding stosl
stosl_lem m p w c zero a h = ground arith
stosl_lem m p w c (suc n) a h =
    stosl_lem (store_word m p w) (p + 4) w c n a h ∙ ground (arith, store_word_lem m p w c a h)

holds_upto : (ℕ → Bool) → ℕ → Bool
holds_upto test zero = true
holds_upto test (suc k) = holds_upto test k && test k

holds_at : (test : ℕ → Bool) (c k : ℕ) → c < k → holds_upto test k ≡ true → test c ≡ true
unfolding holds_upto
holds_at test c zero l e = absurd (omega arith)
holds_at test c (suc k) l e = ground (arith, holds_at test c k)

splat_test : ℕ → Bool
splat_test c =
    (splat c % 256 == c)
    && (splat c / 2 ^ 8 % 256 == c)
    && (splat c / 2 ^ 16 % 256 == c)
    && (splat c / 2 ^ 24 % 256 == c)

splat_table : holds_upto splat_test 256 ≡ true
unfolding holds_upto splat_test splat
splat_table = refl

splat-IsSplat : (c : ℕ) → c < 256 → IsSplat (splat c) c
unfolding IsSplat splat_test
splat-IsSplat c h = ground (arith, holds_at splat_test c 256 h splat_table)

-- `memset` sets exactly the `n` bytes from `dst` on to the low byte of `c`, whether it stores
-- words or bytes.
pub memset_lem :
    (m : Mem) (dst c n a : ℕ) → memset m dst c n a ≡ (if within dst n a then c % 256 else m a)
unfolding memset
memset_lem m dst c n a = elim (Bool-cases ((dst % 4 == 0) && (n % 4 == 0))) [
  | inl e ↦ rw e (
      stosl_lem m dst (splat (c % 256)) (c % 256) (n / 4) a (splat-IsSplat (c % 256) (omega arith))
      ∙ ground arith)
  | inr e ↦ rw e (stosb_lem m dst c n a)
]

-- Going up is right where the destination does not start inside the source.
copy_up_lem :
    (m : Mem) (d s n a : ℕ)
    → ((ltb s d && ltb d (s + n)) ≡ false)
    → copy_up m d s n a ≡ (if within d n a then m (s + (a - d)) else m a)
unfolding copy_up
copy_up_lem m d s zero a h = ground arith
copy_up_lem m d s (suc n) a h =
    copy_up_lem (write m d (m s)) (d + 1) (s + 1) n a (ground arith)
    ∙ (unfold write in ground arith)

copy_down_lem :
    (m : Mem) (d s n a : ℕ)
    → s < d
    → copy_down m (d + n) (s + n) n a ≡ (if within d n a then m (s + (a - d)) else m a)
unfolding copy_down
copy_down_lem m d s zero a h = ground arith
copy_down_lem m d s (suc n) a h =
    let e : d + suc n - 1 ≡ d + n = omega arith in
    let e' : s + suc n - 1 ≡ s + n = omega arith in
    rw (e, e')
      (copy_down_lem (write m (d + n) (m (s + n))) d s n a h ∙ (unfold write in ground arith))

-- `memmove` leaves at `dst` the `n` bytes that stood at `src` before the call, also where the two
-- ranges overlap either way, and changes no other byte.
pub memmove_lem :
    (m : Mem) (dst src n a : ℕ)
    → memmove m dst src n a ≡ (if within dst n a then m (src + (a - dst)) else m a)
unfolding memmove
memmove_lem m dst src n a = elim (Bool-cases (ltb src dst && ltb dst (src + n))) [
  | inl e ↦ rw e (copy_down_lem m dst src n a (ground arith))
  | inr e ↦ rw e (copy_up_lem m dst src n a e)
]
