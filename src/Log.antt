-- ===== src/Log.antt =====
-- log.c: the redo log. A disk is its blocks, and a block its 32-bit words. `bread` returns the
-- contents that the buffer cache has for a block (`cache`), `bwrite` carries them to the disk, and
-- one block write is atomic. `history` collects the disk after each write, newest first: those are
-- the disks that a crash can leave.
pub mod Recovery
pub mod Commit
pub mod Write
pub mod Atomic
mod Tests
use fp_sisop20_f.Base.{
  ℕ, zero, suc, ◌+◌, ◌-◌, ◌*◌, ◌^◌, Bool, true, false, not, ◌||◌, List, [], ◌∷◌, ◌==◌, ltb, leb,
  if◌then◌else◌, update, copy_words, sub32, Option, none, some, Result, ok, panic, ◌>>=◌, ◌>>◌,
  panic_if,
}

abbrev pub Block : Type 0
Block = ℕ → ℕ

abbrev pub Disk : Type 0
Disk = ℕ → Block

-- LOGSIZE
abbrev pub log_size : ℕ
log_size = 10

-- `struct log`, the buffer cache and the disk. `n` and `sector` are the header in memory.
pub record Log : Type 0 where
  pub start : ℕ
  pub size : ℕ
  pub busy : Bool
  pub n : ℕ
  pub sector : ℕ → ℕ
  pub cache : Disk
  pub disk : Disk
  pub history : List Disk

-- what a loop `i < n` counts to, at an int with the bit pattern `n`
abbrev pub int_rounds : ℕ → ℕ
int_rounds n = if ltb n (2 ^ 31) then n else 0

-- `bwrite` of bio.c on the buffer of block `b`
unfoldable pub bwrite : ℕ → Log → Log
bwrite b l = let d = update l.disk b (l.cache b) in record l { disk = d; history = d ∷ l.history }

-- new contents in the buffer of block `b`
unfoldable pub modify : ℕ → Block → Log → Log
modify b c l = record l { cache = update l.cache b c }

-- one round of `install_trans`
unfoldable pub install : ℕ → Log → Log
unfolding bwrite modify
install tail l = bwrite (l.sector tail) (modify (l.sector tail) (l.cache (l.start + tail + 1)) l)

-- `k` rounds from `tail` on
unfoldable pub install_loop : (tail k : ℕ) → Log → Log
install_loop tail zero l = l
install_loop tail (suc k) l = install_loop (tail + 1) k (install tail l)

unfoldable pub install_trans : Log → Log
install_trans l = install_loop 0 (int_rounds l.n) l

unfoldable pub read_head : Log → Log
unfolding copy_words
read_head l =
    let h = l.cache l.start in
    record l { n = h 0; sector = copy_words l.sector 0 h 1 (int_rounds (h 0)) }

-- the header block that `write_head` makes: the words behind the sectors stay
abbrev pub head_block : Log → Block
head_block l = copy_words (update (l.cache l.start) 0 l.n) 1 l.sector 0 (int_rounds l.n)

unfoldable pub write_head : Log → Log
unfolding bwrite modify
write_head l = bwrite l.start (modify l.start (head_block l) l)

unfoldable pub recover_from_log : Log → Log
recover_from_log l = let l' = install_trans (read_head l) in write_head (record l' { n = 0 })

-- the machine as it starts on a disk: nothing cached but what the disk holds
abbrev pub boot : Disk → Log
boot d = record {
  start = 0;
  size = 0;
  busy = false;
  n = 0;
  sector = λ _. 0;
  cache = d;
  disk = d;
  history = [];
}

-- The superblock's words are size, nblocks, ninodes and nlog. Its first test compares constants:
-- the header takes 4 + 4 * LOGSIZE bytes.
unfoldable pub initlog : Log → Result Log
initlog l = do
  panic_if (leb 512 (4 + 4 * log_size))
  let sb = l.cache 1
  ok (recover_from_log (record l { start = sub32 (sb 0) (sb 3); size = sb 3 }))

-- `none` while it must sleep
unfoldable pub begin_trans : Log → Option Log
begin_trans l = if l.busy then none else some (record l { busy = true })

unfoldable pub commit_trans : Log → Log
commit_trans l =
    let l' = install_trans (write_head l) in
    let done = write_head (record l' { n = 0 }) in
    record (if ltb 0 (int_rounds l.n) then done else l) { busy = false }

-- the loop of `log_write`: the first of `k` slots from `i` on that is for block `b`, or their end
unfoldable pub find_slot : (ℕ → ℕ) → ℕ → ℕ → ℕ → ℕ
find_slot sector b i zero = i
find_slot sector b i (suc k) =
    let rest = find_slot sector b (i + 1) k in if sector i == b then i else rest

-- `log_write` behind its checks, with the slot found
unfoldable pub log_slot : ℕ → ℕ → Log → Log
unfolding bwrite modify
log_slot b i l =
    let l' = bwrite (l.start + i + 1) (modify (l.start + i + 1) (l.cache b) l) in
    record l' { sector = update l.sector i b; n = if i == l.n then l.n + 1 else l.n }

-- The caller has modified the buffer of block `b`, which stays in the cache from now on.
unfoldable pub log_write : ℕ → Log → Result Log
log_write b l = do
  panic_if (leb log_size l.n || leb (l.size - 1) l.n)
  panic_if (not l.busy)
  ok (log_slot b (find_slot l.sector b 0 l.n) l)
