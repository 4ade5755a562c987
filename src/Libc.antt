-- ===== src/Libc.antt =====
-- string.c: the kernel's copies of the C string functions. A function that returns its own
-- destination pointer is modelled by the memory that it leaves; `n-- > 0` on an unsigned counts
-- `n` rounds, and on an int none if it is negative.
pub mod Copy
pub mod Compare
pub mod Pad
mod Tests
use fp_sisop20_f.Base.{
  ℕ, zero, suc, ◌+◌, ◌-◌, ◌*◌, ◌/◌, ◌%◌, ◌^◌, Bool, ◌&&◌, not, Option, none, some, ◌==◌, ltb,
  if◌then◌else◌, ℤ, pos, negsuc, sub_ℕ, nonneg_part,
}
use Prim.Native.Nat.{bit_or}
use fp_sisop20_f.Memory.{Mem, write}

-- `rep stosb`: `n` bytes of value `c`
stosb : Mem → ℕ → ℕ → ℕ → Mem
stosb m p c zero = m
stosb m p c (suc n) = stosb (write m p (c % 256)) (p + 1) c n

-- one little-endian word
store_word : Mem → ℕ → ℕ → Mem
store_word m p w =
    write (write (write (write m p (w % 256)) (p + 1) (w / 2 ^ 8 % 256)) (p + 2) (w / 2 ^ 16 % 256))
      (p + 3) (w / 2 ^ 24 % 256)

-- `rep stosl`: `n` words of value `w`
stosl : Mem → ℕ → ℕ → ℕ → Mem
stosl m p w zero = m
stosl m p w (suc n) = stosl (store_word m p w) (p + 4) w n

-- `(c<<24)|(c<<16)|(c<<8)|c`
splat : ℕ → ℕ
splat c = bit_or (bit_or (bit_or (c * 2 ^ 24) (c * 2 ^ 16)) (c * 2 ^ 8)) c

-- `c` is the argument's bit pattern.
unfoldable pub memset : Mem → ℕ → ℕ → ℕ → Mem
unfolding stosb stosl store_word splat
memset m dst c n =
    if (dst % 4 == 0) && (n % 4 == 0)
    then stosl m dst (splat (c % 256)) (n / 4)
    else stosb m dst c n

-- `s` and `d` move up together.
copy_up : Mem → ℕ → ℕ → ℕ → Mem
copy_up m d s zero = m
copy_up m d s (suc n) = copy_up (write m d (m s)) (d + 1) (s + 1) n

-- `s` and `d` point past the bytes that are left.
copy_down : Mem → ℕ → ℕ → ℕ → Mem
copy_down m d s zero = m
copy_down m d s (suc n) = copy_down (write m (d - 1) (m (s - 1))) (d - 1) (s - 1) n

unfoldable pub memmove : Mem → ℕ → ℕ → ℕ → Mem
unfolding copy_up copy_down
memmove m dst src n =
    if ltb src dst && ltb dst (src + n)
    then copy_down m (dst + n) (src + n) n
    else copy_up m dst src n

unfoldable pub memcpy : Mem → ℕ → ℕ → ℕ → Mem
unfolding memmove
memcpy m dst src n = memmove m dst src n

unfoldable pub memcmp : Mem → ℕ → ℕ → ℕ → ℤ
memcmp m s1 s2 zero = pos 0
memcmp m s1 s2 (suc n) =
    let rest = memcmp m (s1 + 1) (s2 + 1) n in
    if not (m s1 == m s2) then sub_ℕ (m s1) (m s2) else rest

unfoldable pub strncmp : Mem → ℕ → ℕ → ℕ → ℤ
strncmp m p q zero = pos 0
strncmp m p q (suc n) =
    let rest = strncmp m (p + 1) (q + 1) n in
    if not (m p == 0) && (m p == m q) then rest else sub_ℕ (m p) (m q)

-- the second loop of `strncpy`
zero_fill : Mem → ℕ → ℕ → Mem
zero_fill m s zero = m
zero_fill m s (suc n) = zero_fill (write m s 0) (s + 1) n

-- the first loop of `strncpy`, which goes on with the second when it has copied the NUL
copy_then_fill : Mem → ℕ → ℕ → ℕ → Mem
unfolding zero_fill
copy_then_fill m s t zero = m
copy_then_fill m s t (suc n) =
    let m' = write m s (m t) in
    let rest = copy_then_fill m' (s + 1) (t + 1) n in
    if m t == 0 then zero_fill m' (s + 1) n else rest

unfoldable pub strncpy : Mem → ℕ → ℕ → ℤ → Mem
unfolding copy_then_fill
strncpy m s t n = copy_then_fill m s t (nonneg_part n)

-- `while(--n > 0 && (*s++ = *t++) != 0); *s = 0;` at `n` rounds left. After the NUL is copied, `s`
-- has moved past it.
copy_then_stop : Mem → ℕ → ℕ → ℕ → Mem
copy_then_stop m s t zero = write m s 0
copy_then_stop m s t (suc n) =
    let m' = write m s (m t) in
    let rest = copy_then_stop m' (s + 1) (t + 1) n in if m t == 0 then write m' (s + 1) 0 else rest

unfoldable pub safestrcpy : Mem → ℕ → ℕ → ℤ → Mem
unfolding copy_then_stop
safestrcpy m s t (negsuc _) = m
safestrcpy m s t (pos zero) = m
safestrcpy m s t (pos (suc n)) = copy_then_stop m s t n

-- The loop of `strlen` on fuel: `none` if no NUL is met in time.
strlen_loop : ℕ → Mem → ℕ → ℕ → Option ℕ
strlen_loop zero m s n = none
strlen_loop (suc fuel) m s n =
    let rest = strlen_loop fuel m s (n + 1) in if m (s + n) == 0 then some n else rest

unfoldable pub strlen : ℕ → Mem → ℕ → Option ℕ
unfolding strlen_loop
strlen fuel m s = strlen_loop fuel m s 0
