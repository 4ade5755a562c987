-- ===== src/Calls.antt =====
-- The system calls of sysfile.c that follow paths. A path that is an argument is what `argstr` answers,
-- `none` for -1; `buffer` is what stands in an array that the source does not initialise. A call is a run
-- of one process while no other runs; begin_trans and commit_trans only take and free the log here.
pub mod Nodes
pub mod Balance
pub mod Links
pub mod Unlink
pub mod Create
pub mod Taken
pub mod Open
pub mod Chdir
mod Tests
use fp_sisop20_f.Base.{
  ℕ, zero, suc, ◌+◌, ◌-◌, ◌*◌, ◌/◌, ◌%◌, ◌^◌, Bool, true, false, not, ◌&&◌, ◌||◌, Option, none,
  some, List, [], ◌∷◌, ◌==◌, ltb, leb, if◌then◌else◌, Result, ok, panic, ℤ, update,
}
use fp_sisop20_f.Inode.{Dinode}
use fp_sisop20_f.Content.{Fs, writei}
use fp_sisop20_f.Dir.{Name, t_dir, entry_size, namecmp, is_zero, is_whole, entry_inum, read_entry}
use fp_sisop20_f.File
use fp_sisop20_f.File.{Files, Call, fd_inode}
use fp_sisop20_f.Syscall.{free_fd, set_entry}
use fp_sisop20_f.Vfs.{
  Kernel, Site, in_files, in_call, in_ialloc, Outcome, done, asleep, panicked, Act, ◌>>=◌, ◌>>◌,
  pure, fail, gets, slot, ilock, iunlock, iput, iunlockput, iupdate, change, on_contents, ialloc,
}
use fp_sisop20_f.Vfs.Names.{lookup, writes, dirlink, namei, nameiparent}

-- T_FILE and T_DEV
abbrev pub t_file : ℕ
t_file = 2

abbrev pub t_dev : ℕ
t_dev = 3

-- It sleeps while another transaction runs.
unfoldable pub begin_trans : Act Unit
begin_trans k = if k.log_busy then asleep k else done tt (record k { log_busy = true })

unfoldable pub commit_trans : Act Unit
commit_trans k = done tt (record k { log_busy = false })

-- `nlink` is a short; its bit pattern is kept.
abbrev pub one_more : Dinode → Dinode
one_more d = record d { nlink = (d.nlink + 1) % 2 ^ 16 }

abbrev pub one_less : Dinode → Dinode
one_less d = record d { nlink = (d.nlink + 2 ^ 16 - 1) % 2 ^ 16 }

-- `nlink < 1`
abbrev pub no_link : ℕ → Bool
no_link n = (n == 0) || leb (2 ^ 15) n

-- "." and "..", in an array
abbrev pub dot : Name
dot i = if i == 0 then 46 else 0

abbrev pub dot_dot : Name
dot_dot i = if ltb i 2 then 46 else 0

-- What a call does with the file that it closes; pipes are not part of this state.
unfoldable pub closes : List Call → Act Unit
closes [] = pure tt
closes (Call.begin_trans ∷ cs) = begin_trans >> closes cs
closes (Call.commit_trans ∷ cs) = commit_trans >> closes cs
closes (Call.iput ip ∷ cs) = iput ip >> closes cs
closes (_ ∷ cs) = closes cs

abbrev pub closed_files : Kernel → Result (Files × List Call) → Outcome Unit
closed_files k panic = panicked in_files
closed_files k (ok (files, cs)) = closes cs (record k { files = files })

unfoldable pub fileclose : ℕ → Act Unit
fileclose f k = closed_files k (File.fileclose f k.files)

abbrev pub allocated : Kernel → Option (ℕ × Files) → Outcome (Option ℕ)
allocated k none = done none k
allocated k (some (f, files)) = done (some f) (record k { files = files })

unfoldable pub filealloc : Act (Option ℕ)
filealloc k = allocated k (File.filealloc k.files)

abbrev pub given : Kernel → ℕ → Option ℕ → Outcome (Option ℕ)
given k f none = done none k
given k f (some fd) = done (some fd) (record k { ofile = set_entry k.ofile fd (some f) })

unfoldable pub fdalloc : ℕ → Act (Option ℕ)
fdalloc f k = given k f (free_fd k.ofile 0)

-- `bad` of `sys_link`
abbrev pub link_bad : ℕ → Act Bool
link_bad ip = do ilock ip; change ip one_less; iupdate ip; iunlockput ip; commit_trans; pure false

-- `bad` of `sys_unlink`
abbrev pub unlink_bad : ℕ → Act Bool
unlink_bad dp = do iunlockput dp; commit_trans; pure false

abbrev pub made : (major minor : ℕ) → Dinode → Dinode
made major minor d = record d { major = major; minor = minor; nlink = 1 }

abbrev pub must : Bool → Act Unit
must b = if b then pure tt else fail in_call

module _ (driver : ℕ → Option ℤ) where
  -- `sys_link` behind `nameiparent`
  abbrev pub link_into : ℕ → Option ℕ × Name → Act Bool
  link_into ip (none, name) = link_bad ip
  link_into ip (some dp, name) = do
    ilock dp
    dp_dev ← gets (λ k. (slot dp k).dev)
    ip_dev ← gets (λ k. (slot ip k).dev)
    inum ← gets (λ k. (slot ip k).inum)
    linked ← if dp_dev == ip_dev then dirlink driver dp name inum else pure false
    iunlockput dp
    if linked then (do iput ip; commit_trans; pure true) else link_bad ip

  abbrev pub link_from : (new : List ℕ) → Name → Option ℕ → Act Bool
  link_from new buffer none = pure false
  link_from new buffer (some ip) = do
    begin_trans
    ilock ip
    type ← gets (λ k. (slot ip k).copy.type)
    if type == t_dir then (do iunlockput ip; commit_trans; pure false) else (do
      change ip one_more
      iupdate ip
      iunlock ip
      parent ← nameiparent driver new buffer
      link_into ip parent)

  -- `false` is -1, here and below.
  unfoldable pub sys_link : (old new : Option (List ℕ)) → (buffer : Name) → Act Bool
  sys_link none new buffer = pure false
  sys_link (some old) none buffer = pure false
  sys_link (some old) (some new) buffer = namei driver old buffer >>= link_from new buffer

  -- The loop of `isdirempty` over `k` entries from the offset on.
  unfoldable pub empty_from : (k : ℕ) → (off : ℕ) → Dinode → Fs → Result (Bool × Dinode × Fs)
  empty_from zero off dp fs = ok (true, dp, fs)
  empty_from (suc k) off dp fs =
      if ltb off dp.size
      then elim (read_entry driver off dp fs) [
        | panic ↦ panic
        | ok (de, dp', fs') ↦
            let rest = empty_from k (off + entry_size) dp' fs' in
            if entry_inum de == 0 then rest else ok (false, dp', fs')
      ]
      else ok (true, dp, fs)

  unfoldable pub isdirempty : Dinode → Fs → Result (Bool × Dinode × Fs)
  isdirempty dp fs = empty_from (dp.size / entry_size + 1) (2 * entry_size) dp fs

  -- the end of `sys_unlink`: the entry is cleared, and both inodes lose a link if it is a directory
  abbrev pub unlink_entry : (dp off ip type : ℕ) → Act Bool
  unlink_entry dp off ip type = do
    dinum ← gets (λ k. (slot dp k).inum)
    r ← writes driver dp (writei driver dinum off entry_size (λ _. 0))
    if is_whole r then pure tt else fail in_call
    if type == t_dir then (do change dp one_less; iupdate dp) else pure tt
    iunlockput dp
    change ip one_less
    iupdate ip
    iunlockput ip
    commit_trans
    pure true

  abbrev pub unlink_found : (dp : ℕ) → Option (ℕ × ℕ) → Act Bool
  unlink_found dp none = unlink_bad dp
  unlink_found dp (some (off, ip)) = do
    ilock ip
    nlink ← gets (λ k. (slot ip k).copy.nlink)
    if no_link nlink then fail in_call else pure tt
    type ← gets (λ k. (slot ip k).copy.type)
    is_empty ← if type == t_dir then on_contents ip isdirempty else pure true
    if is_empty then unlink_entry dp off ip type else (do iunlockput ip; unlink_bad dp)

  abbrev pub unlink_in : Option ℕ × Name → Act Bool
  unlink_in (none, name) = pure false
  unlink_in (some dp, name) = do
    begin_trans
    ilock dp
    if is_zero (namecmp name dot) || is_zero (namecmp name dot_dot)
        then unlink_bad dp
        else (lookup driver name dp >>= unlink_found dp)

  unfoldable pub sys_unlink : Option (List ℕ) → (buffer : Name) → Act Bool
  sys_unlink none buffer = pure false
  sys_unlink (some path) buffer = nameiparent driver path buffer >>= unlink_in

  -- "." and ".." of a new directory
  abbrev pub make_dots : (dp ip : ℕ) → Act Unit
  make_dots dp ip = do
    change dp one_more
    iupdate dp
    inum ← gets (λ k. (slot ip k).inum)
    dinum ← gets (λ k. (slot dp k).inum)
    one ← dirlink driver ip dot inum
    two ← if one then dirlink driver ip dot_dot dinum else pure false
    must two

  -- `create` behind `dirlookup`
  abbrev pub create_at : (type major minor dp : ℕ) → Name → Option (ℕ × ℕ) → Act (Option ℕ)
  create_at type major minor dp name (some (off, ip)) = do
    iunlockput dp
    ilock ip
    found ← gets (λ k. (slot ip k).copy.type)
    if (type == t_file) && (found == t_file) then pure (some ip) else (do iunlockput ip; pure none)
  create_at type major minor dp name none = do
    dev ← gets (λ k. (slot dp k).dev)
    ip ← ialloc dev type
    ilock ip
    change ip (made major minor)
    iupdate ip
    if type == t_dir then make_dots dp ip else pure tt
    inum ← gets (λ k. (slot ip k).inum)
    linked ← dirlink driver dp name inum
    must linked
    iunlockput dp
    pure (some ip)

  abbrev pub create_in : (type major minor : ℕ) → Option ℕ × Name → Act (Option ℕ)
  create_in type major minor (none, name) = pure none
  create_in type major minor (some dp, name) = do
    ilock dp
    found ← lookup driver name dp
    create_at type major minor dp name found

  -- The inode that it answers is locked.
  unfoldable pub create :
      (path : List ℕ) → (type major minor : ℕ) → (buffer : Name) → Act (Option ℕ)
  create path type major minor buffer =
      nameiparent driver path buffer >>= create_in type major minor
