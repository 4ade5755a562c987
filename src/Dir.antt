-- ===== src/Dir.antt =====
-- fs.c: directories and path names. A directory is an inode whose contents are entries of 16 bytes; a
-- name is the 14 characters of an entry, and a path the characters before its NUL. The references to
-- inodes that `dirlookup` and `namex` take and drop in the cache are calls, collected in order.
pub mod Names
pub mod Lookup
pub mod Elements
pub mod Skips
mod Tests
use fp_sisop20_f.Base.{
  ℕ, zero, suc, ◌+◌, ◌-◌, ◌*◌, ◌/◌, ◌%◌, ◌^◌, Bool, true, false, not, ◌&&◌, ◌||◌, Option, none,
  some, List, [], ◌∷◌, ◌++◌, ◌==◌, ltb, leb, if◌then◌else◌, Result, ok, panic, ◌>>=◌, ◌>>◌,
  panic_if, ℤ, pos, negsuc, minus_one, sub_ℕ, length, take, get_or,
}
use fp_sisop20_f.Inode.{Dinode}
use fp_sisop20_f.Content.{Fs, readi, writei}

-- T_DIR, DIRSIZ and sizeof(struct dirent)
abbrev pub t_dir : ℕ
t_dir = 1

abbrev pub dirsiz : ℕ
dirsiz = 14

abbrev pub entry_size : ℕ
entry_size = 16

-- the name in an object: its characters
abbrev pub Name : Type 0
Name = ℕ → ℕ

-- `strncmp` of two names that stand in objects of their own, from character `i` on
unfoldable pub compare_from : (n : ℕ) → (s t : Name) → (i : ℕ) → ℤ
compare_from zero s t i = pos 0
compare_from (suc n) s t i =
    let rest = compare_from n s t (i + 1) in
    if not (s i == 0) && (s i == t i) then rest else sub_ℕ (s i) (t i)

abbrev pub is_zero : ℤ → Bool
is_zero (pos n) = n == 0
is_zero (negsuc n) = false

unfoldable pub namecmp : Name → Name → ℤ
unfolding compare_from
namecmp s t = compare_from dirsiz s t 0

-- the fields of `struct dirent`
abbrev pub entry_inum : (ℕ → ℕ) → ℕ
entry_inum de = de 0 + 2 ^ 8 * de 1

abbrev pub entry_name : (ℕ → ℕ) → Name
entry_name de i = de (2 + i)

abbrev pub is_whole : ℤ → Bool
is_whole (pos n) = n == entry_size
is_whole (negsuc n) = false

module _ (driver : ℕ → Option ℤ) where
  -- the entry at an offset: a read of less panics
  unfoldable pub read_entry : (off : ℕ) → Dinode → Fs → Result ((ℕ → ℕ) × Dinode × Fs)
  read_entry off dp fs = do
    (r, de, dp', fs') ← readi driver off entry_size (λ _. 0) dp fs
    panic_if (not (is_whole r))
    ok (de, dp', fs')

  abbrev pub matches : Name → (ℕ → ℕ) → Bool
  matches name de = not (entry_inum de == 0) && is_zero (namecmp name (entry_name de))

  -- The loop of `dirlookup` in at most `k` rounds: the offset and the inode number of the entry.
  unfoldable pub lookup_loop :
      (k : ℕ) → (off : ℕ) → Name → Dinode → Fs → Result (Option (ℕ × ℕ) × Dinode × Fs)
  unfolding read_entry namecmp
  lookup_loop zero off name dp fs = ok (none, dp, fs)
  lookup_loop (suc k) off name dp fs =
      if ltb off dp.size
      then (do
        (de, dp', fs') ← read_entry off dp fs
        if matches name de
            then ok (some (off, entry_inum de), dp', fs')
            else lookup_loop k (off + entry_size) name dp' fs')
      else ok (none, dp, fs)

  -- The caller gets the inode of the number by `iget`.
  unfoldable pub dirlookup : Name → Dinode → Fs → Result (Option (ℕ × ℕ) × Dinode × Fs)
  unfolding lookup_loop
  dirlookup name dp fs = do
    panic_if (not (dp.type == t_dir))
    lookup_loop (dp.size / entry_size + 1) 0 name dp fs

  -- The loop of `dirlink`: the offset of the first empty entry, or the end of the directory.
  unfoldable pub empty_loop : (k : ℕ) → (off : ℕ) → Dinode → Fs → Result (ℕ × Dinode × Fs)
  unfolding read_entry
  empty_loop zero off dp fs = ok (off, dp, fs)
  empty_loop (suc k) off dp fs =
      if ltb off dp.size
      then (do
        (de, dp', fs') ← read_entry off dp fs
        if entry_inum de == 0 then ok (off, dp', fs') else empty_loop k (off + entry_size) dp' fs')
      else ok (off, dp, fs)

  -- whether a NUL stands among the first `i` characters
  abbrev pub ended : Name → ℕ → Bool
  ended name zero = false
  ended name (suc i) = (name i == 0) || ended name i

  -- the entry that `dirlink` writes: the name by `strncpy`, padded with NULs
  abbrev pub new_entry : Name → (inum : ℕ) → ℕ → ℕ
  new_entry name inum i =
      if i == 0
      then inum % 2 ^ 8
      else (if i == 1
          then inum / 2 ^ 8 % 2 ^ 8
          else (if ended name (i - 2) then 0 else name (i - 2)))

  abbrev pub link_at : (dinum : ℕ) → Name → (inum : ℕ) → ℕ × Dinode × Fs → Result (ℤ × Dinode × Fs)
  link_at dinum name inum (off, dp, fs) = do
    (r, dp', fs') ← writei driver dinum off entry_size (new_entry name inum) dp fs
    panic_if (not (is_whole r))
    ok (pos 0, dp', fs')

  abbrev pub is_some_entry : Option (ℕ × ℕ) → Bool
  is_some_entry none = false
  is_some_entry (some _) = true

  -- A new entry in the directory, whose number is `dinum`; -1 if the name is there already. Then the
  -- reference to its inode, which `dirlookup` took, is dropped again.
  unfoldable pub dirlink : (dinum : ℕ) → Name → (inum : ℕ) → Dinode → Fs → Result (ℤ × Dinode × Fs)
  unfolding dirlookup empty_loop
  dirlink dinum name inum dp fs = do
    (found, dp', fs') ← dirlookup name dp fs
    if is_some_entry found
        then ok (minus_one, dp', fs')
        else (empty_loop (dp'.size / entry_size + 1) 0 dp' fs' >>= link_at dinum name inum)

-- `while(*path == '/') path++`
unfoldable pub skip_slashes : List ℕ → List ℕ
skip_slashes [] = []
skip_slashes (c ∷ cs) = let rest = skip_slashes cs in if c == 47 then rest else c ∷ cs

-- the characters up to a slash or the end, and what follows them
unfoldable pub element : List ℕ → List ℕ × List ℕ
element [] = ([], [])
element (c ∷ cs) =
    let (name, rest) = element cs in if c == 47 then ([], c ∷ cs) else (c ∷ name, rest)

-- what `skipelem` leaves in `name`: 14 characters, or fewer and a NUL; the others stay as they were
abbrev pub set_name : List ℕ → Name → Name
set_name cs name i =
    if ltb i (length (take dirsiz cs))
    then get_or cs i 0
    else (if (i == length cs) && ltb (length cs) dirsiz then 0 else name i)

abbrev pub skip_from : List ℕ → Name → Option (Name × List ℕ)
skip_from [] name = none
skip_from (c ∷ cs) name =
    let (s, rest) = element (c ∷ cs) in some (set_name s name, skip_slashes rest)

-- The name and the path behind it; `none` if there is no name to remove.
unfoldable pub skipelem : List ℕ → Name → Option (Name × List ℕ)
unfolding skip_slashes element
skipelem path name = skip_from (skip_slashes path) name
