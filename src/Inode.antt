-- ===== src/Inode.antt =====
-- The inode cache of fs.c, and the inodes on the disk. A function is one step under `icache.lock`
-- from `acquire` to `release`; an inode that it locks stays its own until `iunlock`. Blocks that are
-- freed and sleepers that are woken are collected in order.
pub mod Scan
pub mod Effects
pub mod Cache
mod Tests
use fp_sisop20_f.Base.{
  ℕ, zero, suc, ◌+◌, ◌-◌, Bool, true, false, not, ◌&&◌, ◌||◌, Option, none, some, List, [], ◌∷◌,
  ◌++◌, ◌==◌, ltb, if◌then◌else◌, update, Result, ok, panic, ◌>>=◌, ◌>>◌, panic_if,
}

-- `struct dinode`: the blocks are the direct ones and then the indirect block.
pub record Dinode : Type 0 where
  pub type : ℕ
  pub major : ℕ
  pub minor : ℕ
  pub nlink : ℕ
  pub size : ℕ
  pub addrs : ℕ → ℕ

-- `struct inode`; I_BUSY and I_VALID are flags of their own.
pub record Inode : Type 0 where
  pub dev : ℕ
  pub inum : ℕ
  pub ref : ℕ
  pub busy : Bool
  pub valid : Bool
  pub copy : Dinode

-- `icache`, and the inodes of each device
pub record Icache : Type 0 where
  pub slots : ℕ → Inode
  pub disk : ℕ → ℕ → Dinode

-- NINODE and NDIRECT
abbrev pub ninode : ℕ
ninode = 50

abbrev pub ndirect : ℕ
ndirect = 12

abbrev pub nindirect : ℕ
nindirect = 128

pub data Event : Type 0 where
  bfree : (block : ℕ) → Event
  wakes : (slot : ℕ) → Event

abbrev pub put_slot : ℕ → Inode → Icache → Icache
put_slot i ip c = record c { slots = update c.slots i ip }

-- what the scan of `iget` ends with: the inode is cached, or the first empty slot if there is one
pub data Slot : Type 0 where
  cached recycled : ℕ → Slot
  full : Slot

abbrev pub remembered : Option ℕ → Slot
remembered none = full
remembered (some e) = recycled e

abbrev pub keep_first : Option ℕ → Bool → ℕ → Option ℕ
keep_first (some e) free i = some e
keep_first none free i = if free then some i else none

abbrev pub is_for : (dev inum : ℕ) → Inode → Bool
is_for dev inum ip = ltb 0 ip.ref && (ip.dev == dev) && (ip.inum == inum)

-- the loop over `k` slots from `i` on
unfoldable pub scan : (dev inum : ℕ) → (ℕ → Inode) → (i k : ℕ) → (empty : Option ℕ) → Slot
scan dev inum slots i zero empty = remembered empty
scan dev inum slots i (suc k) empty =
    let rest = scan dev inum slots (i + 1) k (keep_first empty ((slots i).ref == 0) i) in
    if is_for dev inum (slots i) then cached i else rest

abbrev pub got : (dev inum : ℕ) → Icache → Slot → Result (ℕ × Icache)
got dev inum c (cached i) = ok (i, put_slot i (record (c.slots i) { ref = (c.slots i).ref + 1 }) c)
got dev inum c (recycled i) = ok (
  i,
  put_slot i (record (c.slots i) { dev = dev; inum = inum; ref = 1; busy = false; valid = false })
      c,
)
got dev inum c full = panic

unfoldable pub iget : (dev inum : ℕ) → Icache → Result (ℕ × Icache)
unfolding scan
iget dev inum c = got dev inum c (scan dev inum c.slots 0 ninode none)

unfoldable pub idup : ℕ → Icache → Icache
idup i c = put_slot i (record (c.slots i) { ref = (c.slots i).ref + 1 }) c

-- `ilock` behind its wait: the inode is read from the disk if it is not valid.
abbrev pub locked : ℕ → Icache → Result Icache
locked i c =
    let ip = c.slots i in
    let d = c.disk ip.dev ip.inum in
    if ip.valid
    then ok (put_slot i (record ip { busy = true }) c)
    else (if d.type == 0
        then panic
        else ok (put_slot i (record ip { busy = true; valid = true; copy = d }) c))

-- `none` while another process has the inode and this one must sleep
unfoldable pub ilock : ℕ → Icache → Result (Option Icache)
ilock i c = do
  panic_if ((c.slots i).ref == 0)
  (if (c.slots i).busy then ok none else (locked i c >>= λ c'. ok (some c')))

unfoldable pub iunlock : ℕ → Icache → Result (Icache × List Event)
iunlock i c = do
  panic_if (not (c.slots i).busy || ((c.slots i).ref == 0))
  ok (put_slot i (record (c.slots i) { busy = false }) c, wakes i ∷ [])

-- `iupdate`
unfoldable pub iupdate : ℕ → Icache → Icache
iupdate i c =
    let ip = c.slots i in
    record c { disk = update c.disk ip.dev (update (c.disk ip.dev) ip.inum ip.copy) }

-- the blocks in use among `k` entries from `j` on
abbrev pub freed_blocks : (ℕ → ℕ) → (j k : ℕ) → List Event
freed_blocks a j zero = []
freed_blocks a j (suc k) =
    let rest = freed_blocks a (j + 1) k in if a j == 0 then rest else bfree (a j) ∷ rest

-- `itrunc`; `a` is what the indirect block holds. The first 13 entries of `addrs` are all there are.
unfoldable pub itrunc : (a : ℕ → ℕ) → ℕ → Icache → Icache × List Event
unfolding iupdate
itrunc a i c =
    let ip = c.slots i in
    let d = ip.copy in
    let indirect = d.addrs ndirect in
    (
      iupdate i (put_slot i (record ip { copy = record d { addrs = λ _. 0; size = 0 } }) c),
      freed_blocks d.addrs 0 ndirect
          ++ (if indirect == 0 then [] else freed_blocks a 0 nindirect ++ bfree indirect ∷ []),
    )

-- `iput` of the last reference to an inode without links: truncate and free it
abbrev pub dropped : (a : ℕ → ℕ) → ℕ → Icache → Icache × List Event
dropped a i c =
    let (t, es) = itrunc a i (put_slot i (record (c.slots i) { busy = true }) c) in
    let ip = t.slots i in
    let u = iupdate i (put_slot i (record ip { copy = record ip.copy { type = 0 } }) t) in
    (put_slot i (record (u.slots i) { busy = false; valid = false }) u, es ++ wakes i ∷ [])

abbrev pub last_unlinked : Inode → Bool
last_unlinked ip = (ip.ref == 1) && ip.valid && (ip.copy.nlink == 0)

abbrev pub unreferenced : ℕ → Icache → Icache
unreferenced i c = put_slot i (record (c.slots i) { ref = (c.slots i).ref - 1 }) c

-- The caller holds a reference, so the count is not 0.
unfoldable pub iput : (a : ℕ → ℕ) → ℕ → Icache → Result (Icache × List Event)
unfolding itrunc iupdate
iput a i c = do
  panic_if (last_unlinked (c.slots i) && (c.slots i).busy)
  let (c', es) = if last_unlinked (c.slots i) then dropped a i c else (c, [])
  ok (unreferenced i c', es)

unfoldable pub iunlockput : (a : ℕ → ℕ) → ℕ → Icache → Result (Icache × List Event)
unfolding iunlock iput
iunlockput a i c = do (c', es) ← iunlock i c; (c'', es') ← iput a i c'; ok (c'', es ++ es')

-- The search of `ialloc` over `k` inodes from `inum` on.
unfoldable pub free_inum : (ℕ → Dinode) → (inum k : ℕ) → Option ℕ
free_inum d inum zero = none
free_inum d inum (suc k) =
    let rest = free_inum d (inum + 1) k in if (d inum).type == 0 then some inum else rest

abbrev pub allocated : (dev type : ℕ) → Icache → Option ℕ → Result (ℕ × Icache)
allocated dev type c none = panic
allocated dev type c (some inum) =
    let fresh : Dinode = record {
      type = type;
      major = 0;
      minor = 0;
      nlink = 0;
      size = 0;
      addrs = λ _. 0;
    } in
    iget dev inum (record c { disk = update c.disk dev (update (c.disk dev) inum fresh) })

-- `ninodes` is what the superblock of the device says.
unfoldable pub ialloc : (dev ninodes type : ℕ) → Icache → Result (ℕ × Icache)
unfolding iget free_inum
ialloc dev ninodes type c = allocated dev type c (free_inum (c.disk dev) 1 (ninodes - 1))
