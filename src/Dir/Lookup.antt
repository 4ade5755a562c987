-- ===== src/Dir/Lookup.antt =====
-- dirlookup finds the first entry of a name.
use fp_sisop20_f.Base.{
  ℕ, zero, suc, ◌+◌, ◌*◌, ◌/◌, ◌%◌, ◌<◌, ◌≤◌, ◌≡◌, ◌≢◌, refl, fun_ext, arith, inl, inr, true, none,
  some, Option, Bool-cases, ◌==◌, ltb, if◌then◌else◌, ok, ℤ, pos,
}
use fp_sisop20_f.Inode.{Dinode}
use fp_sisop20_f.Content.{Fs, bsize, maxfile, readi, t_dev}
use fp_sisop20_f.Content.Layout.{byte_at}
use fp_sisop20_f.Content.Read.{IsFull, readi_lem, available}
use fp_sisop20_f.Dir.Names.{IsEntry, matches-IsEntry, matches-not}
use fp_sisop20_f.Dir.{
  Name, t_dir, entry_size, entry_inum, read_entry, matches, lookup_loop, dirlookup,
}

-- the 16 bytes of the entry at an offset
abbrev pub entry_at : Dinode → Fs → ℕ → ℕ → ℕ
entry_at dp fs off i = if ltb i entry_size then byte_at dp fs (off + i) else 0

-- A directory: whole entries, all blocks there.
pub record IsDirectory (dp : Dinode) (fs : Fs) : Type 0 where
  pub kind : dp.type ≡ t_dir
  pub whole : dp.size % entry_size ≡ 0
  pub bounded : dp.size ≤ maxfile * bsize
  pub full : IsFull dp fs

module _ (driver : ℕ → Option ℤ) where
  read_entry_lem :
      (off : ℕ) (dp : Dinode) (fs : Fs)
      → IsDirectory dp fs
      → off + entry_size ≤ dp.size
      → read_entry driver off dp fs ≡ ok (entry_at dp fs off, dp, fs)
  unfolding read_entry
  read_entry_lem off dp fs v h =
      let file : dp.type ≢ t_dev = omega (arith, v.kind) in
      let (de, p, c) =
        readi_lem driver off entry_size (λ _. 0) dp fs v.full file v.bounded (omega arith)
          (omega (arith, v.bounded)) in
      by_bytes de p (fun_ext c)
    where
      count : available dp.size off entry_size ≡ entry_size
      count = omega arith

      by_bytes :
          (de : ℕ → ℕ)
          → readi driver off entry_size (λ _. 0) dp fs
            ≡ ok (pos (available dp.size off entry_size), de, dp, fs)
          → de
            ≡ (λ i. if ltb i (available dp.size off entry_size) then byte_at dp fs (off + i) else 0)
          → read_entry driver off dp fs ≡ ok (entry_at dp fs off, dp, fs)
      by_bytes de p c = rw (p, c, count) refl

  -- What a search among the entries from `off` on finds: none that matches, or the first that does.
  abbrev pub Finds : Name → Dinode → Fs → ℕ → Option (ℕ × ℕ) → Type 0
  Finds name dp fs off none =
      (j : ℕ)
      → off + entry_size * j < dp.size
      → ¬ IsEntry name (entry_at dp fs (off + entry_size * j))
  Finds name dp fs off (some (at, inum)) =
      (j : ℕ) × (at ≡ off + entry_size * j)
      × (at < dp.size)
      × IsEntry name (entry_at dp fs at)
      × (inum ≡ entry_at dp fs at 0 + 256 * entry_at dp fs at 1)
      × ((i : ℕ) → i < j → ¬ IsEntry name (entry_at dp fs (off + entry_size * i)))

  Finds-later :
      (name : Name) (dp : Dinode) (fs : Fs) (off : ℕ) (o : Option (ℕ × ℕ))
      → ¬ IsEntry name (entry_at dp fs off)
      → Finds name dp fs (off + entry_size) o
      → Finds name dp fs off o
  Finds-later name dp fs off none m f = at_entry
    where
      at_entry :
          (j : ℕ)
          → off + entry_size * j < dp.size
          → ¬ IsEntry name (entry_at dp fs (off + entry_size * j))
      at_entry zero h = let z : off + entry_size * 0 ≡ off = omega arith in rw z m
      at_entry (suc j) h =
          let z : off + entry_size * suc j ≡ off + entry_size + entry_size * j = omega arith in
          rw z (f j (omega arith))
  Finds-later name dp fs off (some (at, inum)) m (j, e, l, y, n, before) =
      (suc j, omega arith, l, y, n, at_entry)
    where
      at_entry : (i : ℕ) → i < suc j → ¬ IsEntry name (entry_at dp fs (off + entry_size * i))
      at_entry zero h = let z : off + entry_size * 0 ≡ off = omega arith in rw z m
      at_entry (suc i) h =
          let z : off + entry_size * suc i ≡ off + entry_size + entry_size * i = omega arith in
          rw z (before i (omega arith))

  lookup_loop-Finds :
      (k off : ℕ) (name : Name) (dp : Dinode) (fs : Fs)
      → IsDirectory dp fs
      → off % entry_size ≡ 0
      → dp.size < off + entry_size * k
      → (o : Option (ℕ × ℕ)) × (lookup_loop driver k off name dp fs ≡ ok (o, dp, fs))
        × Finds name dp fs off o
  unfolding lookup_loop
  lookup_loop-Finds zero off name dp fs v a h = (none, refl, λ j l. absurd (omega arith))
  lookup_loop-Finds (suc k) off name dp fs v a h = elim (Bool-cases (ltb off dp.size)) [
    | inr t ↦ (none, rw t refl, λ j l. absurd (ground arith))
    | inl t ↦
        let lt : off < dp.size = ground arith in
        let fits : off + entry_size ≤ dp.size = omega (arith, v.whole) in
        let r = read_entry_lem off dp fs v fits in
        elim (Bool-cases (matches driver name (entry_at dp fs off))) [
          | inl m ↦
              let z : off ≡ off + entry_size * 0 = omega arith in
              (
                some (off, entry_inum (entry_at dp fs off)),
                rw (t, r) (rw m refl),
                (
                  0,
                  z,
                  lt,
                  matches-IsEntry driver name (entry_at dp fs off) m,
                  refl,
                  λ i l. absurd (omega arith),
                ),
              )
          | inr m ↦
              let (o, p, f) =
                lookup_loop-Finds k (off + entry_size) name dp fs v (omega arith) (omega arith) in
              (
                o,
                rw (t, r) (rw m p),
                Finds-later name dp fs off o (matches-not driver name (entry_at dp fs off) m) f,
              )
        ]
  ]

  -- `dirlookup` in a directory changes nothing, and finds the first entry in use with the name, its
  -- offset and inode number, exactly where there is one. Names are compared up to the first NUL, or in
  -- all their 14 characters.
  pub dirlookup-Finds :
      (name : Name) (dp : Dinode) (fs : Fs)
      → IsDirectory dp fs
      → (o : Option (ℕ × ℕ)) × (dirlookup driver name dp fs ≡ ok (o, dp, fs)) × Finds name dp fs 0 o
  unfolding dirlookup
  dirlookup-Finds name dp fs v =
      let t : (dp.type == t_dir) ≡ true = ground (arith, v.kind) in
      let (o, p, f) =
        lookup_loop-Finds (dp.size / entry_size + 1) 0 name dp fs v (omega arith) (omega arith) in
      (o, rw t p, f)
