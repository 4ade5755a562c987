-- ===== src/Vfs/Names.antt =====
-- Directories and paths of fs.c over the inode cache and the blocks.
use fp_sisop20_f.Base.{
  ℕ, zero, suc, ◌+◌, ◌/◌, Bool, true, false, not, ◌&&◌, Option, none, some, List, [], ◌∷◌, ◌==◌,
  if◌then◌else◌, Result, ok, panic, ℤ, length,
}
use fp_sisop20_f.Inode.{Dinode}
use fp_sisop20_f.Content.{Fs}
use fp_sisop20_f.Dir.{Name, t_dir, dirlookup, entry_size, empty_loop, link_at, skipelem}
use fp_sisop20_f.Vfs.{
  Act, ◌>>=◌, ◌>>◌, pure, slot, gets, iget, idup, ilock, iunlock, iput, iunlockput, iupdate,
  on_contents, logs,
}

-- ROOTDEV and ROOTINO
abbrev pub root_dev : ℕ
root_dev = 1

abbrev pub root_ino : ℕ
root_ino = 1

abbrev pub no_path : List ℕ → Bool
no_path [] = true
no_path (_ ∷ _) = false

abbrev pub is_absolute : List ℕ → Bool
is_absolute [] = false
is_absolute (c ∷ _) = c == 47

module _ (driver : ℕ → Option ℤ) where
  abbrev pub referred : ℕ → Option (ℕ × ℕ) → Act (Option (ℕ × ℕ))
  referred dev none = pure none
  referred dev (some (off, inum)) = iget dev inum >>= λ i. pure (some (off, i))

  -- `dirlookup` in the inode of a slot: the offset of the entry, and a reference to its inode
  unfoldable pub lookup : Name → ℕ → Act (Option (ℕ × ℕ))
  lookup name i = do
    found ← on_contents i (dirlookup driver name)
    dev ← gets (λ k. (slot i k).dev)
    referred dev found

  abbrev pub entered :
      (dinum : ℕ) → Name → (inum : ℕ) → Result (ℕ × Dinode × Fs) → Result (ℤ × Dinode × Fs)
  entered dinum name inum panic = panic
  entered dinum name inum (ok at) = link_at driver dinum name inum at

  -- the end of `dirlink`: the new entry
  abbrev pub new_entry : (dinum : ℕ) → Name → (inum : ℕ) → Dinode → Fs → Result (ℤ × Dinode × Fs)
  new_entry dinum name inum dp fs =
      entered dinum name inum (empty_loop driver (dp.size / entry_size + 1) 0 dp fs)

  -- `writei` of an inode: its end is `iupdate` if the file has grown.
  unfoldable pub writes : ℕ → (Dinode → Fs → Result (ℤ × Dinode × Fs)) → Act ℤ
  writes i f = do
    before ← gets (λ k. (slot i k).copy.size)
    logs
    r ← on_contents i f
    after ← gets (λ k. (slot i k).copy.size)
    if before == after then pure r else iupdate i >> pure r

  abbrev pub linked : ℕ → Name → (inum : ℕ) → Option (ℕ × ℕ) → Act Bool
  linked i name inum (some (off, ip)) = iput ip >> pure false
  linked i name inum none = do
    dinum ← gets (λ k. (slot i k).inum)
    _ ← writes i (new_entry dinum name inum)
    pure true

  -- `dirlink`; `false` is -1
  unfoldable pub dirlink : ℕ → Name → (inum : ℕ) → Act Bool
  dirlink i name inum = lookup name i >>= linked i name inum

  abbrev pub at_last : Bool → (ip : ℕ) → Name → Act (Option ℕ × Name)
  at_last parent ip name = if parent then iput ip >> pure (none, name) else pure (some ip, name)

  -- the end of a round of `namex`, behind `dirlookup`
  abbrev pub searched :
      (ℕ → Act (Option ℕ × Name)) → (ip : ℕ) → Name → Option (ℕ × ℕ) → Act (Option ℕ × Name)
  searched on ip name none = iunlockput ip >> pure (none, name)
  searched on ip name (some (_, next)) = iunlockput ip >> on next

  -- a round of `namex` behind `skipelem`, which goes on by `on`
  abbrev pub step :
      (ℕ → Act (Option ℕ × Name))
      → (parent : Bool) → (ip : ℕ) → Option (Name × List ℕ)
      → Name
      → Act (Option ℕ × Name)
  step on parent ip none name = at_last parent ip name
  step on parent ip (some (name', rest)) name = do
    ilock ip
    type ← gets (λ k. (slot ip k).copy.type)
    if not (type == t_dir)
        then iunlockput ip >> pure (none, name')
        else (if parent && no_path rest
            then iunlock ip >> pure (some ip, name')
            else (lookup name' ip >>= searched on ip name'))

  abbrev pub path_after : Option (Name × List ℕ) → List ℕ
  path_after none = []
  path_after (some (_, rest)) = rest

  abbrev pub name_after : Option (Name × List ℕ) → Name → Name
  name_after none name = name
  name_after (some (name', _)) name = name'

  -- The loop of `namex`; each round takes a character of the path at least.
  unfoldable pub walk :
      (rounds : ℕ) → (parent : Bool) → (path : List ℕ) → (ip : ℕ) → Name → Act (Option ℕ × Name)
  walk zero parent path ip name = at_last parent ip name
  walk (suc n) parent path ip name =
      let taken = skipelem path name in
      step (λ next. walk n parent (path_after taken) next (name_after taken name)) parent ip taken
        name

  -- The inode, if there is one, and what stands in `name` then; `buffer` is what stood there.
  unfoldable pub namex : (parent : Bool) → List ℕ → (buffer : Name) → Act (Option ℕ × Name)
  namex parent path buffer = do
    cwd ← gets (λ k. k.cwd)
    ip ← if is_absolute path then iget root_dev root_ino else idup cwd
    walk (suc (length path)) parent path ip buffer

  unfoldable pub namei : List ℕ → (buffer : Name) → Act (Option ℕ)
  namei path buffer = namex false path buffer >>= λ (ip, _). pure ip

  unfoldable pub nameiparent : List ℕ → (buffer : Name) → Act (Option ℕ × Name)
  nameiparent path buffer = namex true path buffer
