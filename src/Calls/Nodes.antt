-- ===== src/Calls/Nodes.antt =====
-- open, mkdir, mknod and chdir of sysfile.c.
use fp_sisop20_f.Base.{
  ℕ, ◌/◌, ◌%◌, ◌^◌, Bool, true, false, not, ◌&&◌, ◌||◌, Option, none, some, List, ◌==◌,
  if◌then◌else◌, ℤ, update,
}
use fp_sisop20_f.Dir.{Name, t_dir}
use fp_sisop20_f.File.{File, fd_inode}
use fp_sisop20_f.Vfs.{done, Act, ◌>>=◌, ◌>>◌, pure, gets, slot, ilock, iunlock, iput, iunlockput}
use fp_sisop20_f.Vfs.Names.{namei}
use fp_sisop20_f.Calls.{
  t_file, t_dev, begin_trans, commit_trans, fileclose, filealloc, fdalloc, create,
}

-- the bits of `omode`: O_WRONLY, O_RDWR and O_CREATE
abbrev pub wr_only : ℕ → Bool
wr_only omode = omode % 2 == 1

abbrev pub rd_wr : ℕ → Bool
rd_wr omode = omode / 2 % 2 == 1

abbrev pub creates : ℕ → Bool
creates omode = omode / 512 % 2 == 1

abbrev pub opened_file : (omode ip : ℕ) → File → File
opened_file omode ip f = record f {
  type = fd_inode;
  ip = ip;
  off = 0;
  readable = not (wr_only omode);
  writable = wr_only omode || rd_wr omode;
}

unfoldable pub set_file : (f omode ip : ℕ) → Act Unit
set_file f omode ip k =
    done tt (record k { files = update k.files f (opened_file omode ip (k.files f)) })

-- no file, or no descriptor for it
abbrev pub open_failed : (ip : ℕ) → Act (Option ℕ)
open_failed ip = iunlockput ip >> pure none

abbrev pub open_fd : (omode ip f : ℕ) → Option ℕ → Act (Option ℕ)
open_fd omode ip f none = fileclose f >> open_failed ip
open_fd omode ip f (some fd) = do iunlock ip; set_file f omode ip; pure (some fd)

abbrev pub open_file : (omode ip : ℕ) → Option ℕ → Act (Option ℕ)
open_file omode ip none = open_failed ip
open_file omode ip (some f) = fdalloc f >>= open_fd omode ip f

-- `sys_open` behind the search for the inode, which is locked then
abbrev pub open_inode : (omode : ℕ) → Option ℕ → Act (Option ℕ)
open_inode omode none = pure none
open_inode omode (some ip) = filealloc >>= open_file omode ip

abbrev pub open_found : (omode : ℕ) → Option ℕ → Act (Option ℕ)
open_found omode none = pure none
open_found omode (some ip) = do
  ilock ip
  type ← gets (λ k. (slot ip k).copy.type)
  if (type == t_dir) && not (omode == 0)
      then (do iunlockput ip; pure none)
      else open_inode omode (some ip)

unfoldable pub set_cwd : ℕ → Act Unit
set_cwd ip k = done tt (record k { cwd = ip })

abbrev pub change_to : Option ℕ → Act Bool
change_to none = pure false
change_to (some ip) = do
  ilock ip
  type ← gets (λ k. (slot ip k).copy.type)
  cwd ← gets (λ k. k.cwd)
  if not (type == t_dir)
      then (do iunlockput ip; pure false)
      else (do iunlock ip; iput cwd; set_cwd ip; pure true)

module _ (driver : ℕ → Option ℤ) where
  -- The descriptor; `none` is -1.
  unfoldable pub sys_open : Option (List ℕ) → (omode : Option ℕ) → (buffer : Name) → Act (Option ℕ)
  sys_open none omode buffer = pure none
  sys_open (some path) none buffer = pure none
  sys_open (some path) (some omode) buffer =
      if creates omode
      then (do
        begin_trans
        ip ← create driver path t_file 0 0 buffer
        commit_trans
        open_inode omode ip)
      else (namei driver path buffer >>= open_found omode)

  -- the end of `sys_mkdir` and `sys_mknod`
  abbrev pub made_node : Option ℕ → Act Bool
  made_node none = commit_trans >> pure false
  made_node (some ip) = do iunlockput ip; commit_trans; pure true

  abbrev pub make_node : (type major minor : ℕ) → Option (List ℕ) → (buffer : Name) → Act Bool
  make_node type major minor none buffer = made_node none
  make_node type major minor (some path) buffer =
      create driver path type major minor buffer >>= made_node

  unfoldable pub sys_mkdir : Option (List ℕ) → (buffer : Name) → Act Bool
  sys_mkdir path buffer = begin_trans >> make_node t_dir 0 0 path buffer

  abbrev pub node_of : Option (List ℕ) → (major minor : Option ℕ) → (buffer : Name) → Act Bool
  node_of path (some major) (some minor) buffer =
      make_node t_dev (major % 2 ^ 16) (minor % 2 ^ 16) path buffer
  node_of path _ _ buffer = made_node none

  unfoldable pub sys_mknod : Option (List ℕ) → (major minor : Option ℕ) → (buffer : Name) → Act Bool
  sys_mknod path major minor buffer = begin_trans >> node_of path major minor buffer

  unfoldable pub sys_chdir : Option (List ℕ) → (buffer : Name) → Act Bool
  sys_chdir none buffer = pure false
  sys_chdir (some path) buffer = namei driver path buffer >>= change_to
