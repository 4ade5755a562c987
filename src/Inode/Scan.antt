-- ===== src/Inode/Scan.antt =====
-- The scan of iget over the cache.
use fp_sisop20_f.Base.{
  ℕ, zero, suc, ◌+◌, ◌<◌, ◌≤◌, ◌≡◌, ◌≢◌, arith, inl, inr, true, false, none, some, Option,
  Bool-cases, ◌==◌,
}
use fp_sisop20_f.Inode.{Inode, Slot, cached, recycled, full, scan, is_for, keep_first, remembered}

-- a slot that is remembered as empty, or that there is none
abbrev pub Empty : (ℕ → Inode) → ℕ → ℕ → Option ℕ → Type 0
Empty slots lo hi none = (j : ℕ) → lo ≤ j → j < hi → (slots j).ref ≢ 0
Empty slots lo hi (some e) = (lo ≤ e) × (e < hi) × ((slots e).ref ≡ 0)

-- none of the slots from `lo` to `hi` is for the inode
abbrev pub Missing : ℕ → ℕ → (ℕ → Inode) → ℕ → ℕ → Type 0
Missing dev inum slots lo hi = (j : ℕ) → lo ≤ j → j < hi → is_for dev inum (slots j) ≡ false

abbrev pub Scanned : ℕ → ℕ → (ℕ → Inode) → ℕ → Slot → Type 0
Scanned dev inum slots hi (cached j) = (j < hi) × (is_for dev inum (slots j) ≡ true)
Scanned dev inum slots hi (recycled e) =
    (e < hi) × ((slots e).ref ≡ 0) × Missing dev inum slots 0 hi
Scanned dev inum slots hi full = (j : ℕ) → 0 ≤ j → j < hi → (slots j).ref ≢ 0

module _ (dev inum : ℕ) (slots : ℕ → Inode) where
  remembered-Scanned :
      (o : Option ℕ) (hi : ℕ)
      → Empty slots 0 hi o
      → Missing dev inum slots 0 hi
      → Scanned dev inum slots hi (remembered o)
  remembered-Scanned none hi e m = e
  remembered-Scanned (some j) hi (_, l, z) m = (l, z, m)

  keep_first-Empty :
      (o : Option ℕ) (i : ℕ)
      → Empty slots 0 i o
      → Empty slots 0 (i + 1) (keep_first o ((slots i).ref == 0) i)
  keep_first-Empty (some j) i (a, l, z) = (a, omega arith, z)
  keep_first-Empty none i e = elim (Bool-cases ((slots i).ref == 0)) [
    | inl b ↦ rw b (omega arith, omega arith, ground arith)
    | inr b ↦ rw b (λ j a l. ground (arith, e j))
  ]

  pub scan-Scanned :
      (i k hi : ℕ) (o : Option ℕ)
      → i + k ≡ hi
      → Empty slots 0 i o
      → Missing dev inum slots 0 i
      → Scanned dev inum slots hi (scan dev inum slots i k o)
  unfolding scan
  scan-Scanned i zero hi o e p m =
      remembered-Scanned o hi (widen o p) (λ j a l. m j a (omega arith))
    where
      widen : (o : Option ℕ) → Empty slots 0 i o → Empty slots 0 hi o
      widen none u = λ j a l. u j a (omega arith)
      widen (some j) (a, l, z) = (a, omega arith, z)
  scan-Scanned i (suc k) hi o e p m = elim (Bool-cases (is_for dev inum (slots i))) [
    | inl b ↦ rw b (omega arith, b)
    | inr b ↦ rw b (
        scan-Scanned (i + 1) k hi (keep_first o ((slots i).ref == 0) i) (omega arith)
          (keep_first-Empty o i p) (λ j a l. ground (arith, m j a)))
  ]
