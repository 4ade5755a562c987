-- ===== src/Content.antt =====
-- fs.c: the blocks of a device and the contents of its inodes. `blocks` are the contents that `bread`
-- returns, `used` is the bitmap: bit b % 8 of byte b % BPB / 8 of the block BBLOCK(b). The blocks
-- passed to `log_write` are collected, newest first. The inode is the copy in the cache, locked.
pub mod Layout
pub mod Added
pub mod Map
pub mod Write
pub mod Space
pub mod Writei
pub mod Read
mod Tests
use fp_sisop20_f.Base.{
  ℕ, zero, suc, ◌+◌, ◌-◌, ◌*◌, ◌/◌, ◌%◌, ◌^◌, Bool, true, false, not, ◌&&◌, ◌||◌, Option, none,
  some, List, [], ◌∷◌, ◌==◌, ltb, leb, if◌then◌else◌, min, update, Result, ok, panic, ◌>>=◌, ◌>>◌,
  panic_if, ℤ, pos, minus_one, add32,
}
use fp_sisop20_f.Inode.{Dinode, ndirect, nindirect}

-- a block: its bytes
abbrev pub Block : Type 0
Block = ℕ → ℕ

-- BSIZE and MAXFILE
abbrev pub bsize : ℕ
bsize = 512

abbrev pub maxfile : ℕ
maxfile = 140

-- The superblock's size and number of inodes, the bitmap, the blocks and the log.
pub record Fs : Type 0 where
  pub size : ℕ
  pub ninodes : ℕ
  pub used : ℕ → Bool
  pub blocks : ℕ → Block
  pub logged : List ℕ

-- IBLOCK and BBLOCK, with 8 inodes and 4096 bits in a block
abbrev pub inode_block : ℕ → ℕ
inode_block inum = inum / 8 + 2

abbrev pub bitmap_block : Fs → ℕ → ℕ
bitmap_block fs b = b / 4096 + fs.ninodes / 8 + 3

abbrev pub bzero : ℕ → Fs → Fs
bzero b fs = record fs { blocks = update fs.blocks b (λ _. 0); logged = b ∷ fs.logged }

-- The two loops of `balloc` visit the blocks in order: the first free one of `k` from `b` on.
unfoldable pub free_block : (ℕ → Bool) → (b k : ℕ) → Option ℕ
free_block used b zero = none
free_block used b (suc k) = let rest = free_block used (b + 1) k in if used b then rest else some b

abbrev pub taken : Fs → Option ℕ → Result (ℕ × Fs)
taken fs none = panic
taken fs (some b) = ok (
  b,
  bzero b (record fs { used = update fs.used b true; logged = bitmap_block fs b ∷ fs.logged }),
)

unfoldable pub balloc : Fs → Result (ℕ × Fs)
unfolding free_block
balloc fs = taken fs (free_block fs.used 0 fs.size)

unfoldable pub bfree : ℕ → Fs → Result Fs
bfree b fs = do
  panic_if (not (fs.used b))
  ok (record fs { used = update fs.used b false; logged = bitmap_block fs b ∷ fs.logged })

-- an entry of a block of words, `((uint*)bp->data)[i]`, and a write to it
abbrev pub word : Block → ℕ → ℕ
word c i = c (4 * i) + 2 ^ 8 * c (4 * i + 1) + 2 ^ 16 * c (4 * i + 2) + 2 ^ 24 * c (4 * i + 3)

abbrev pub byte_of : ℕ → ℕ → ℕ
byte_of w j =
    if j == 0
    then w % 256
    else (if j == 1
        then w / 2 ^ 8 % 256
        else (if j == 2 then w / 2 ^ 16 % 256 else w / 2 ^ 24 % 256))

abbrev pub set_word : Block → ℕ → ℕ → Block
set_word c i w a = if a / 4 == i then byte_of w (a % 4) else c a

abbrev pub addressed : Dinode → ℕ → ℕ × Fs → Result (ℕ × Dinode × Fs)
addressed ip i (b, fs) = ok (b, record ip { addrs = update ip.addrs i b }, fs)

-- `if((addr = ip->addrs[i]) == 0) ip->addrs[i] = addr = balloc(ip->dev)`
unfoldable pub ensure : ℕ → Dinode → Fs → Result (ℕ × Dinode × Fs)
ensure i ip fs = if ip.addrs i == 0 then (balloc fs >>= addressed ip i) else ok (ip.addrs i, ip, fs)

abbrev pub entered : ℕ → ℕ → ℕ × Fs → Result (ℕ × Fs)
entered a j (b, fs) = ok (
  b,
  record fs { blocks = update fs.blocks a (set_word (fs.blocks a) j b); logged = a ∷ fs.logged },
)

-- the same for entry `j` of the indirect block `a`
unfoldable pub ensure_entry : ℕ → ℕ → Fs → Result (ℕ × Fs)
ensure_entry a j fs =
    let addr = word (fs.blocks a) j in
    if addr == 0 then (balloc fs >>= entered a j) else ok (addr, fs)

abbrev pub indirect : ℕ → ℕ × Dinode × Fs → Result (ℕ × Dinode × Fs)
indirect j (a, ip, fs) = do (b, fs') ← ensure_entry a j fs; ok (b, ip, fs')

-- The block's number, and what allocating has changed.
unfoldable pub bmap : ℕ → Dinode → Fs → Result (ℕ × Dinode × Fs)
bmap bn ip fs =
    if ltb bn ndirect
    then ensure bn ip fs
    else (if ltb (bn - ndirect) nindirect
        then (ensure ndirect ip fs >>= indirect (bn - ndirect))
        else panic)

-- `memmove` of `m` bytes between two objects: from index `s` of one to index `d` of the other
abbrev pub moved : (ℕ → ℕ) → ℕ → (ℕ → ℕ) → ℕ → ℕ → ℕ → ℕ
moved dst d src s m a = if leb d a && ltb a (d + m) then src (s + (a - d)) else dst a

-- the bytes that a round moves
abbrev pub piece : (tot off n : ℕ) → ℕ
piece tot off n = min (n - tot) (bsize - off % bsize)

-- The loop of `readi` in at most `k` rounds, with what `dst` holds.
unfoldable pub read_loop :
    (k : ℕ) → (tot off n : ℕ) → (ℕ → ℕ) → Dinode → Fs → Result ((ℕ → ℕ) × Dinode × Fs)
read_loop zero tot off n dst ip fs = ok (dst, ip, fs)
read_loop (suc k) tot off n dst ip fs =
    if ltb tot n
    then (do
      (a, ip', fs') ← bmap (off / bsize) ip fs
      read_loop k (tot + piece tot off n) (off + piece tot off n) n
          (moved dst tot (fs'.blocks a) (off % bsize) (piece tot off n)) ip' fs')
    else ok (dst, ip, fs)

abbrev pub stored : Fs → ℕ → Block → Fs
stored fs a c = record fs { blocks = update fs.blocks a c; logged = a ∷ fs.logged }

-- The loop of `writei`; its offset at the end is `off + (n - tot)`.
unfoldable pub write_loop :
    (k : ℕ) → (tot off n : ℕ) → (src : ℕ → ℕ) → Dinode → Fs → Result (Dinode × Fs)
write_loop zero tot off n src ip fs = ok (ip, fs)
write_loop (suc k) tot off n src ip fs =
    if ltb tot n
    then (do
      (a, ip', fs') ← bmap (off / bsize) ip fs
      write_loop k (tot + piece tot off n) (off + piece tot off n) n src ip'
          (stored fs' a (moved (fs'.blocks a) (off % bsize) src tot (piece tot off n))))
    else ok (ip, fs)

-- T_DEV and NDEV
abbrev pub t_dev : ℕ
t_dev = 3

abbrev pub ndev : ℕ
ndev = 10

abbrev pub device_answer : Option ℤ → ℤ
device_answer none = minus_one
device_answer (some r) = r

-- what a device driver answers, if the device has the function; a negative major number is past NDEV
abbrev pub by_device : (ℕ → Option ℤ) → ℕ → ℤ
by_device driver major = if leb ndev major then minus_one else device_answer (driver major)

-- `readi` of an inode that is no device, behind its checks, of `n` bytes
abbrev pub read_bytes : (off n : ℕ) → (ℕ → ℕ) → Dinode → Fs → Result (ℤ × (ℕ → ℕ) × Dinode × Fs)
read_bytes off n dst ip fs = do
  (dst', ip', fs') ← read_loop n 0 off n dst ip fs
  ok (pos n, dst', ip', fs')

-- The bytes that a device reads are not modelled.
unfoldable pub readi :
    (driver : ℕ → Option ℤ)
    → (off n : ℕ) → (dst : ℕ → ℕ) → Dinode
    → Fs
    → Result (ℤ × (ℕ → ℕ) × Dinode × Fs)
readi driver off n dst ip fs =
    if ip.type == t_dev
    then ok (by_device driver ip.major, dst, ip, fs)
    else (if ltb ip.size off || ltb (add32 off n) off
        then ok (minus_one, dst, ip, fs)
        else read_bytes off (if ltb ip.size (add32 off n) then ip.size - off else n) dst ip fs)

-- the end of `writei`: the size, and `iupdate`
abbrev pub grown : (inum off n : ℕ) → Dinode × Fs → Result (ℤ × Dinode × Fs)
grown inum off n (ip, fs) = ok (
    if ltb 0 n && ltb ip.size (off + n)
    then (pos n, record ip { size = off + n }, record fs { logged = inode_block inum ∷ fs.logged })
    else (pos n, ip, fs))

unfoldable pub writei :
    (driver : ℕ → Option ℤ)
    → (inum off n : ℕ) → (src : ℕ → ℕ) → Dinode
    → Fs
    → Result (ℤ × Dinode × Fs)
writei driver inum off n src ip fs =
    if ip.type == t_dev
    then ok (by_device driver ip.major, ip, fs)
    else (if ltb ip.size off || ltb (add32 off n) off || ltb (maxfile * bsize) (add32 off n)
        then ok (minus_one, ip, fs)
        else (write_loop n 0 off n src ip fs >>= grown inum off n))
