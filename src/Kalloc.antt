-- ===== src/Kalloc.antt =====
-- kalloc.c: the allocator of physical pages. A free page holds the address of the next one in its
-- first word; `next` is what the free pages hold there. The lock of `kmem` makes each call atomic,
-- so only `use_lock` is kept.
pub mod Chain
mod Tests
use fp_sisop20_f.Base.{
  ℕ, zero, suc, ◌+◌, ◌-◌, ◌*◌, ◌/◌, ◌%◌, ◌^◌, Bool, true, false, not, ◌||◌, ◌==◌, ltb, leb,
  if◌then◌else◌, update, Result, ok, panic, ◌>>=◌, ◌>>◌, panic_if,
}
use fp_sisop20_f.Memory.{Mem}
use fp_sisop20_f.Libc.{memset}

-- PGSIZE, PHYSTOP and KERNBASE
abbrev pub page_size : ℕ
page_size = 4096

abbrev pub phys_top : ℕ
phys_top = 0xE000000

abbrev pub kern_base : ℕ
kern_base = 0x80000000

-- `kmem`, with the memory that it manages
pub record Kmem : Type 0 where
  pub use_lock : Bool
  pub freelist : ℕ
  pub next : ℕ → ℕ
  pub mem : Mem

-- PGROUNDUP on a 32-bit address
abbrev pub round_up : ℕ → ℕ
round_up a = (a + (page_size - 1)) % 2 ^ 32 / page_size * page_size

-- `k` with the page `v` filled with junk and put in front of the free list
abbrev pub freed : Kmem → ℕ → Kmem
freed k v = record k {
  freelist = v;
  next = update k.next v k.freelist;
  mem = memset k.mem v 1 page_size;
}

-- The parameter is the kernel's first free address, which the linker chooses.
module _ (end : ℕ) where
  -- `(uint)v % PGSIZE || v < end || v2p(v) >= PHYSTOP`; `v2p` is a wrapping subtraction.
  abbrev pub is_bad : ℕ → Bool
  is_bad v =
      not (v % page_size == 0) || ltb v end || leb phys_top ((v + 2 ^ 32 - kern_base) % 2 ^ 32)

  unfoldable pub kfree : Kmem → ℕ → Result Kmem
  kfree k v = do panic_if (is_bad v); ok (freed k v)

  -- The loop of `freerange`, with the rounds that it has left.
  unfoldable pub free_loop : Kmem → (p : ℕ) → ℕ → Result Kmem
  unfolding kfree
  free_loop k p zero = ok k
  free_loop k p (suc n) = do k' ← kfree k p; free_loop k' (p + page_size) n

  -- It runs while `p + PGSIZE <= vend`.
  unfoldable pub freerange : Kmem → (vstart vend : ℕ) → Result Kmem
  unfolding free_loop
  freerange k vstart vend = free_loop k (round_up vstart) ((vend - round_up vstart) / page_size)

  unfoldable pub kinit1 : Kmem → (vstart vend : ℕ) → Result Kmem
  unfolding freerange
  kinit1 k vstart vend = freerange (record k { use_lock = false }) vstart vend

  unfoldable pub kinit2 : Kmem → (vstart vend : ℕ) → Result Kmem
  unfolding freerange
  kinit2 k vstart vend = do k' ← freerange k vstart vend; ok (record k' { use_lock = true })

-- The page allocated, 0 if there is none. Its first word still holds the old `next`.
unfoldable pub kalloc : Kmem → ℕ × Kmem
kalloc k =
    if not (k.freelist == 0)
    then (k.freelist, record k { freelist = k.next k.freelist })
    else (0, k)
