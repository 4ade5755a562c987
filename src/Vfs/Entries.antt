-- ===== src/Vfs/Entries.antt =====
-- Directory entries, and the references that go with them.
use fp_sisop20_f.Base.{
  ℕ, ◌<◌, ◌≡◌, Bool, true, false, Option, none, some, List, ◌∷◌, ◌==◌, ℤ, Result,
}
use fp_sisop20_f.Inode.{Dinode}
use fp_sisop20_f.Content.{Fs}
use fp_sisop20_f.Dir.{Name, dirlookup}
use fp_sisop20_f.Vfs.{Kernel, slot, iget, iput, iupdate, logs, on_contents, ◌>>◌, pure}
use fp_sisop20_f.Vfs.Names.{referred, lookup, new_entry, writes, linked, dirlink}
use fp_sisop20_f.Vfs.Runs.{Runs, >>=-Runs, >>-Runs, gets-Runs, if-Runs}
use fp_sisop20_f.Vfs.Owned.{Owns, count, member}
use fp_sisop20_f.Vfs.Operations.{iget-Owns, iput-Owns, iupdate-Owns, logs-Owns, on_contents-Owns}

-- What `lookup` answers is a reference to the inode that it found.
abbrev pub Found : Kernel → (refs locks : List ℕ) → Bool → Option (ℕ × ℕ) → Kernel → Type 0
Found b refs locks t none k = Owns b refs locks t k
Found b refs locks t (some (_, i)) k = Owns b (i ∷ refs) locks t k

module _ (driver : ℕ → Option ℤ) {b : Kernel} {t : Bool} {S : Kernel → Type 0}
    (refs locks : List ℕ) where
  referred-Found :
      (dev : ℕ) (o : Option (ℕ × ℕ)) (k : Kernel)
      → Owns b refs locks t k
      → Runs (Found b refs locks t) S (referred driver dev o k)
  referred-Found dev none k v = record { ends = v }
  referred-Found dev (some (off, inum)) k v =
      >>=-Runs (iget dev inum) (λ i. pure (some (off, i))) k (iget-Owns refs locks k v dev inum)
        (λ i k' w. record { ends = w })

  pub lookup-Found :
      (name : Name) (i : ℕ) (k : Kernel)
      → Owns b refs locks t k
      → Runs (Found b refs locks t) S (lookup driver name i k)
  unfolding lookup
  lookup-Found name i k v =
      >>=-Runs (on_contents i (dirlookup driver name)) _ k
        (on_contents-Owns refs locks k v i (dirlookup driver name))
        (λ found k' w.
          gets-Runs (λ k. (slot i k).dev) (λ dev. referred driver dev found) k'
            (referred-Found (slot i k').dev found k' w))

  pub writes-Owns :
      (i : ℕ) (f : Dinode → Fs → Result (ℤ × Dinode × Fs)) (k : Kernel)
      → Owns b refs locks t k
      → Runs (λ _ k'. Owns b refs locks t k') S (writes driver i f k)
  unfolding writes
  writes-Owns i f k v =
      gets-Runs (λ k. (slot i k).copy.size) _ k
        (>>-Runs logs _ k (logs-Owns refs locks k v) (λ _ k0 v0.
          >>=-Runs (on_contents i f) _ k0 (on_contents-Owns refs locks k0 v0 i f) (λ r k' w.
            gets-Runs (λ k. (slot i k).copy.size) _ k'
              (if-Runs ((slot i k).copy.size == (slot i k').copy.size) (pure r)
                (iupdate i >> pure r) k' (λ _. record { ends = w })
                (λ _.
                  >>-Runs (iupdate i) (pure r) k' (iupdate-Owns refs locks k' w i)
                    (λ _ k'' u. record { ends = u }))))))

  linked-Owns :
      (i : ℕ) (name : Name) (inum : ℕ) (o : Option (ℕ × ℕ)) (k : Kernel)
      → ((j : ℕ) → member j locks ≡ true → 0 < count j refs)
      → Found b refs locks t o k
      → Runs (λ _ k'. Owns b refs locks t k') S (linked driver i name inum o k)
  linked-Owns i name inum none k h v =
      gets-Runs (λ k. (slot i k).inum) _ k
        (>>=-Runs (writes driver i (new_entry driver (slot i k).inum name inum)) _ k
          (writes-Owns i (new_entry driver (slot i k).inum name inum) k v)
          (λ _ k' w. record { ends = w }))
  linked-Owns i name inum (some (off, ip)) k h v =
      >>-Runs (iput ip) (pure false) k (iput-Owns ip refs locks k v (h ip))
        (λ _ k' w. record { ends = w })

  pub dirlink-Owns :
      (i : ℕ) (name : Name) (inum : ℕ) (k : Kernel)
      → Owns b refs locks t k
      → Runs (λ _ k'. Owns b refs locks t k') S (dirlink driver i name inum k)
  unfolding dirlink
  dirlink-Owns i name inum k v =
      >>=-Runs (lookup driver name i) (linked driver i name inum) k (lookup-Found name i k v)
        (λ o k' w. linked-Owns i name inum o k' v.referred w)
