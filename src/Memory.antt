-- ===== src/Memory.antt =====
-- Byte-addressed memory: what the pointers of string.c and kalloc.c point into. A `char` or
-- `uchar` is a number below 256; addresses are plain numbers, since an object never wraps round
-- the end of the address space.
use fp_sisop20_f.Base.{ℕ, ◌<◌, ◌≡◌, ◌≢◌, arith, ◌==◌, if◌then◌else◌}

abbrev pub Mem : Type 0
Mem = ℕ → ℕ

unfoldable pub write : Mem → ℕ → ℕ → Mem
write m p v a = if a == p then v else m a

pub write_self : (m : Mem) (p v : ℕ) → write m p v p ≡ v
unfolding write
write_self m p v = ground arith

pub write_ne : (m : Mem) (p v a : ℕ) → a ≢ p → write m p v a ≡ m a
unfolding write
write_ne m p v a h = ground arith

abbrev pub IsBytes : Mem → Type 0
IsBytes m = (a : ℕ) → m a < 256
