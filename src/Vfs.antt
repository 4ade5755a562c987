-- ===== src/Vfs.antt =====
-- fs.c above its parts: what one process does to the inode cache, the blocks of the one device that is
-- mounted, the table of open files and its own descriptors while no other runs. The operations of Inode,
-- Content and Dir work on this state, one inode after the other.
pub mod Names
pub mod Runs
pub mod Owned
pub mod Operations
pub mod Entries
pub mod Paths
pub mod Elements
pub mod Sample
mod Tests
use fp_sisop20_f.Base.{
  ℕ, zero, suc, ◌+◌, ◌/◌, Bool, true, false, not, ◌&&◌, ◌||◌, Option, none, some, List, [], ◌∷◌,
  ◌==◌, if◌then◌else◌, Result, ok, panic, ℤ, length,
}
use fp_sisop20_f.Inode
use fp_sisop20_f.Inode.{Inode, Dinode, Icache, Event, bfree, wakes, put_slot, ndirect}
use fp_sisop20_f.Content
use fp_sisop20_f.Content.{Fs, word}
use fp_sisop20_f.Dir.{Name, t_dir, dirlookup, entry_size, empty_loop, link_at, skipelem}
use fp_sisop20_f.File.{Files}

-- `log_busy` is `log.busy`; `cwd` and `ofile` are those of the process.
pub record Kernel : Type 0 where
  pub icache : Icache
  pub fs : Fs
  pub log_busy : Bool
  pub files : Files
  pub ofile : List (Option ℕ)
  pub cwd : ℕ

-- where a panic comes from
pub data Site : Type 0 where
  in_iget in_ilock no_type in_iunlock in_iput in_directory in_ialloc in_files in_log in_call : Site

-- A call returns, sleeps on an inode or on the log that somebody holds, or panics.
pub data Outcome (A : Type 0) : Type 0 where
  done : A → Kernel → Outcome A
  asleep : Kernel → Outcome A
  panicked : Site → Outcome A

abbrev pub Act : Type 0 → Type 0
Act A = Kernel → Outcome A

abbrev pub then_do : {A B : Type 0} → Outcome A → (A → Act B) → Outcome B
then_do (done a k) f = f a k
then_do (asleep k) f = asleep k
then_do (panicked s) f = panicked s

infixl 5 ◌>>=◌
unfoldable pub ◌>>=◌ : {A B : Type 0} → Act A → (A → Act B) → Act B
(m >>= f) k = then_do (m k) f

infixl 5 ◌>>◌
unfoldable pub ◌>>◌ : {A B : Type 0} → Act A → Act B → Act B
(m >> n) k = then_do (m k) (λ _. n)

abbrev pub pure : {A : Type 0} → A → Act A
pure a k = done a k

abbrev pub fail : {A : Type 0} → Site → Act A
fail s k = panicked s

-- an inode of the cache
abbrev pub slot : ℕ → Kernel → Inode
slot i k = k.icache.slots i

-- Something of the state, which stays as it is.
unfoldable pub gets : {A : Type 0} → (Kernel → A) → Act A
gets f k = done (f k) k

abbrev pub set_icache : Icache → Kernel → Kernel
set_icache c k = record k { icache = c }

abbrev pub with_slot : Kernel → Result (ℕ × Icache) → Site → Outcome ℕ
with_slot k panic s = panicked s
with_slot k (ok (i, c)) s = done i (set_icache c k)

unfoldable pub iget : (dev inum : ℕ) → Act ℕ
iget dev inum k = with_slot k (Inode.iget dev inum k.icache) in_iget

unfoldable pub idup : ℕ → Act ℕ
idup i k = done i (set_icache (Inode.idup i k.icache) k)

-- `ilock` panics for an inode without a reference, and else for one without a type.
abbrev pub lock_site : ℕ → Kernel → Site
lock_site i k = if (slot i k).ref == 0 then in_ilock else no_type

abbrev pub with_lock : Kernel → Site → Result (Option Icache) → Outcome Unit
with_lock k s panic = panicked s
with_lock k s (ok none) = asleep k
with_lock k s (ok (some c)) = done tt (set_icache c k)

unfoldable pub ilock : ℕ → Act Unit
ilock i k = with_lock k (lock_site i k) (Inode.ilock i k.icache)

-- The blocks that an inode gave back are free in the bitmap.
unfoldable pub free_blocks : List Event → Fs → Result Fs
free_blocks [] fs = ok fs
free_blocks (bfree b ∷ es) fs = elim (Content.bfree b fs) [
  | panic ↦ panic
  | ok fs' ↦ free_blocks es fs'
]
free_blocks (wakes i ∷ es) fs = free_blocks es fs

abbrev pub with_blocks : Kernel → Icache → Result Fs → Outcome Unit
with_blocks k c panic = panicked in_directory
with_blocks k c (ok fs) = done tt (record k { icache = c; fs = fs })

abbrev pub with_events : Kernel → Site → Result (Icache × List Event) → Outcome Unit
with_events k s panic = panicked s
with_events k s (ok (c, es)) = with_blocks k c (free_blocks es k.fs)

unfoldable pub iunlock : ℕ → Act Unit
iunlock i k = with_events k in_iunlock (Inode.iunlock i k.icache)

-- what the indirect block of an inode holds
abbrev pub indirect_of : ℕ → Kernel → ℕ → ℕ
indirect_of i k = word (k.fs.blocks ((slot i k).copy.addrs ndirect))

-- whether `iput` gives the inode and its blocks back, which writes them to the log
abbrev pub frees : ℕ → Kernel → Bool
frees i k = let ip = slot i k in (ip.ref == 1) && ip.valid && (ip.copy.nlink == 0) && not ip.busy

unfoldable pub iput : ℕ → Act Unit
iput i k =
    if frees i k && not k.log_busy
    then panicked in_log
    else with_events k in_iput (Inode.iput (indirect_of i k) i k.icache)

unfoldable pub iunlockput : ℕ → Act Unit
iunlockput i = iunlock i >> iput i

-- `log_write` looks whether a transaction is open. The blocks that it has written are not counted, so
-- that the panic for too big a transaction is left out.
abbrev pub logs : Act Unit
logs k = if k.log_busy then done tt k else panicked in_log

unfoldable pub iupdate : ℕ → Act Unit
iupdate i k =
    if k.log_busy then done tt (set_icache (Inode.iupdate i k.icache) k) else panicked in_log

-- Fields of the copy of an inode that the caller has locked.
unfoldable pub change : ℕ → (Dinode → Dinode) → Act Unit
change i f k =
    done tt (set_icache (put_slot i (record (slot i k) { copy = f (slot i k).copy }) k.icache) k)

abbrev pub with_contents : {A : Type 0} → ℕ → Kernel → Result (A × Dinode × Fs) → Outcome A
with_contents i k panic = panicked in_directory
with_contents i k (ok (a, d, fs)) =
    done a (record k { icache = put_slot i (record (slot i k) { copy = d }) k.icache; fs = fs })

-- What works on the contents of an inode.
unfoldable pub on_contents : {A : Type 0} → ℕ → (Dinode → Fs → Result (A × Dinode × Fs)) → Act A
on_contents i f k = with_contents i k (f (slot i k).copy k.fs)

unfoldable pub ialloc : (dev type : ℕ) → Act ℕ
ialloc dev type k =
    if k.log_busy
    then with_slot k (Inode.ialloc dev k.fs.ninodes type k.icache) in_ialloc
    else panicked in_log
