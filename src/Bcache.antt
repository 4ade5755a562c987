-- ===== src/Bcache.antt =====
-- The buffer cache of bio.c over the disk in memory of memide.c. A function is one step under
-- `bcache.lock` from `acquire` to `release`; a buffer that it answers stays its caller's until `brelse`.
pub mod Store
pub mod Get
pub mod Transfer
pub mod Blocks
pub mod Writes
pub mod Release
pub mod Empty
mod Tests
use fp_sisop20_f.Base.{
  ℕ, zero, suc, ◌+◌, ◌-◌, ◌*◌, ◌%◌, Bool, true, false, not, ◌&&◌, ◌||◌, Option, none, some, List,
  [], ◌∷◌, ◌==◌, leb, if◌then◌else◌, update, copy_words, word, Result, ok, panic, ◌>>=◌, ◌>>◌,
  panic_if,
}

-- `struct buf` behind its links; B_BUSY, B_VALID and B_DIRTY are flags of their own.
pub record Buf : Type 0 where
  pub dev : ℕ
  pub sector : ℕ
  pub busy : Bool
  pub valid : Bool
  pub dirty : Bool
  pub bytes : ℕ → ℕ

-- `bcache`: the buffers, and their numbers in the order of the list from `head.next` on
pub record Bcache : Type 0 where
  pub bufs : ℕ → Buf
  pub order : List ℕ

-- `disksize` and `memdisk`
pub record Disk : Type 0 where
  pub disksize : ℕ
  pub memory : ℕ → ℕ

-- NBUF
abbrev pub nbuf : ℕ
nbuf = 10

abbrev pub sector_size : ℕ
sector_size = 512

-- `-1` as a `uint`
abbrev pub no_dev : ℕ
no_dev = word - 1

pub data Event : Type 0 where
  wakes : (buf : ℕ) → Event

abbrev pub put_buf : ℕ → Buf → Bcache → Bcache
put_buf i b c = record c { bufs = update c.bufs i b }

abbrev pub blank : Buf
blank = record { dev = 0; sector = 0; busy = false; valid = false; dirty = false; bytes = λ _. 0 }

-- the loop of `binit` over `k` buffers from `i` on
unfoldable pub insert_loop : (i k : ℕ) → Bcache → Bcache
insert_loop i zero c = c
insert_loop i (suc k) c =
    insert_loop (i + 1) k (record c {
      bufs = update c.bufs i (record (c.bufs i) { dev = no_dev });
      order = i ∷ c.order;
    })

-- The buffers are zero when the kernel starts.
unfoldable pub binit : Bcache
unfolding insert_loop
binit = insert_loop 0 nbuf (record { bufs = λ _. blank; order = [] })

abbrev pub is_block : (dev sector : ℕ) → Buf → Bool
is_block dev sector b = (b.dev == dev) && (b.sector == sector)

-- the first loop of `bget`, along `next`
unfoldable pub find_cached : (dev sector : ℕ) → (ℕ → Buf) → List ℕ → Option ℕ
find_cached dev sector bufs [] = none
find_cached dev sector bufs (i ∷ l) =
    let rest = find_cached dev sector bufs l in
    if is_block dev sector (bufs i) then some i else rest

abbrev pub recyclable : Buf → Bool
recyclable b = not b.busy && not b.dirty

abbrev pub or_this : Option ℕ → Bool → ℕ → Option ℕ
or_this (some j) free i = some j
or_this none free i = if free then some i else none

-- the second loop of `bget`, along `prev`: what comes later in the list is looked at first
unfoldable pub find_clean : (ℕ → Buf) → List ℕ → Option ℕ
find_clean bufs [] = none
find_clean bufs (i ∷ l) = or_this (find_clean bufs l) (recyclable (bufs i)) i

-- The caller has the buffer, or sleeps on it and starts anew when it wakes up.
pub data Got : Type 0 where
  held : (buf : ℕ) → Bcache → Got
  asleep : (buf : ℕ) → Got

abbrev pub recycled : (dev sector : ℕ) → Bcache → Option ℕ → Result Got
recycled dev sector c none = panic
recycled dev sector c (some i) =
    let b : Buf = record {
      dev = dev;
      sector = sector;
      busy = true;
      valid = false;
      dirty = false;
      bytes = (c.bufs i).bytes;
    } in
    ok (held i (put_buf i b c))

abbrev pub found : (dev sector : ℕ) → Bcache → Option ℕ → Result Got
found dev sector c none = recycled dev sector c (find_clean c.bufs c.order)
found dev sector c (some i) =
    if (c.bufs i).busy
    then ok (asleep i)
    else ok (held i (put_buf i (record (c.bufs i) { busy = true }) c))

unfoldable pub bget : (dev sector : ℕ) → Bcache → Result Got
unfolding find_cached find_clean
bget dev sector c = found dev sector c (find_cached dev sector c.bufs c.order)

-- the offset of a sector in `memdisk`
abbrev pub offset_of : Buf → ℕ
offset_of b = (b.sector * sector_size) % word

unfoldable pub iderw : Buf → Disk → Result (Buf × Disk)
iderw b m = do
  panic_if (not b.busy)
  panic_if (b.valid && not b.dirty)
  panic_if (not (b.dev == 1))
  panic_if (leb m.disksize b.sector)
  (if b.dirty
      then ok (
        record b { dirty = false; valid = true },
        record m { memory = copy_words m.memory (offset_of b) b.bytes 0 sector_size },
      )
      else ok (
        record b { bytes = copy_words b.bytes 0 m.memory (offset_of b) sector_size; valid = true },
        m,
      ))

-- what `bread` makes of what `bget` answers
abbrev pub filled : Disk → Got → Result (Got × Disk)
filled m (asleep i) = ok (asleep i, m)
filled m (held i c) =
    if (c.bufs i).valid
    then ok (held i c, m)
    else (iderw (c.bufs i) m >>= λ (b, m'). ok (held i (put_buf i b c), m'))

unfoldable pub bread : (dev sector : ℕ) → Bcache → Disk → Result (Got × Disk)
unfolding bget iderw
bread dev sector c m = bget dev sector c >>= filled m

unfoldable pub bwrite : ℕ → Bcache → Disk → Result (Bcache × Disk)
bwrite i c m = do
  panic_if (not (c.bufs i).busy)
  (b, m') ← iderw (record (c.bufs i) { dirty = true }) m
  ok (put_buf i b c, m')

-- The buffer leaves its place in the list.
unfoldable pub unlink : ℕ → List ℕ → List ℕ
unlink i [] = []
unlink i (j ∷ l) = let rest = unlink i l in if j == i then l else j ∷ rest

unfoldable pub brelse : ℕ → Bcache → Result (Bcache × List Event)
unfolding unlink
brelse i c = do
  panic_if (not (c.bufs i).busy)
  ok (
    record c {
      bufs = update c.bufs i (record (c.bufs i) { busy = false });
      order = i ∷ unlink i c.order;
    },
    wakes i ∷ [],
  )
