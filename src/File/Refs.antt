-- ===== src/File/Refs.antt =====
-- The reference counts of the file table.
use fp_sisop20_f.Base.{
  ℕ, zero, suc, ◌+◌, ◌-◌, ◌<◌, ◌≤◌, ◌≡◌, ◌≢◌, refl, arith, ◌⊎◌, inl, inr, true, false, none, some,
  Option, [], Bool-cases, update, update_self, ◌==◌, ltb, ok,
}
use fp_sisop20_f.File.{Files, nfile, free_file, claimed, filealloc, filedup, fileclose}

-- what a scan of `k` files from `i` on finds
abbrev pub Scanned : Files → ℕ → ℕ → Option ℕ → Type 0
Scanned t i k none = (j : ℕ) → i ≤ j → j < i + k → (t j).ref ≢ 0
Scanned t i k (some j) = (i ≤ j) × (j < i + k) × ((t j).ref ≡ 0)

pub free_file-Scanned : (t : Files) (i k : ℕ) → Scanned t i k (free_file t i k)
unfolding free_file
free_file-Scanned t i zero = λ j l m. absurd (omega arith)
free_file-Scanned t i (suc k) = elim (Bool-cases ((t i).ref == 0)) [
  | inl e ↦ rw e (omega arith, omega arith, ground arith)
  | inr e ↦ rw e (widen (free_file t (i + 1) k) (free_file-Scanned t (i + 1) k) (ground arith))
]
  where
    widen : (o : Option ℕ) → Scanned t (i + 1) k o → (t i).ref ≢ 0 → Scanned t i (suc k) o
    widen none h ne = λ j l m. ground (arith, h j)
    widen (some j) (l, m, z) ne = (omega arith, omega arith, z)

-- `filealloc` fails exactly when every file is in use; else it takes a free one, gives it one reference
-- and leaves all others alone.
pub filealloc_lem :
    (t : Files)
    → ((filealloc t ≡ none) × ((j : ℕ) → j < nfile → (t j).ref ≢ 0))
      ⊎ ((f : ℕ) × (t' : Files) × (filealloc t ≡ some (f, t'))
          × (f < nfile)
          × ((t f).ref ≡ 0)
          × ((t' f).ref ≡ 1)
          × ((j : ℕ) → j ≢ f → t' j ≡ t j))
unfolding filealloc update
filealloc_lem t = by_scan (free_file t 0 nfile) (free_file-Scanned t 0 nfile)
  where
    by_scan :
        (o : Option ℕ)
        → Scanned t 0 nfile o
        → ((claimed t o ≡ none) × ((j : ℕ) → j < nfile → (t j).ref ≢ 0))
          ⊎ ((f : ℕ) × (t' : Files) × (claimed t o ≡ some (f, t'))
              × (f < nfile)
              × ((t f).ref ≡ 0)
              × ((t' f).ref ≡ 1)
              × ((j : ℕ) → j ≢ f → t' j ≡ t j))
    by_scan none h = inl (refl, λ j l. h j (omega arith) l)
    by_scan (some f) (_, l, z) =
        inr
          (f, update t f (record (t f) { ref = 1 }), refl, l, z, ground arith, λ j ne. ground arith)

-- `filedup` and then `fileclose` of a file in use succeed, call nothing and give back its count.
pub fileclose-filedup :
    (f : ℕ) (t : Files)
    → (t f).ref ≢ 0
    → (t' t'' : Files) × (filedup f t ≡ ok t')
      × (fileclose f t' ≡ ok (t'', []))
      × ((j : ℕ) → (t'' j).ref ≡ (t j).ref)
unfolding filedup fileclose update
fileclose-filedup f t h =
    let t' = update t f (record (t f) { ref = (t f).ref + 1 }) in
    let same : t' f ≡ record (t f) { ref = (t f).ref + 1 } = update_self t f _ in
    let a : ((t f).ref == 0) ≡ false = ground arith in
    let b : ((t f).ref + 1 == 0) ≡ false = ground arith in
    let c : ltb 0 ((t f).ref + 1 - 1) ≡ true = ground arith in
    (
      t',
      update t' f (record (t' f) { ref = (t' f).ref - 1 }),
      rw a refl,
      rw (same, b, c) refl,
      λ j. ground arith,
    )
