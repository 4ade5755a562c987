-- ===== src/Inode/Cache.antt =====
-- An inode has at most one slot in the cache.
use fp_sisop20_f.Base.{
  ℕ, ◌+◌, ◌<◌, ◌≡◌, ◌≢◌, refl, arith, ◌⊎◌, inl, inr, false, none, update, ok, panic,
}
use fp_sisop20_f.Inode.{Icache, Slot, cached, recycled, full, ninode, iget, got, scan}
use fp_sisop20_f.Inode.Scan.{Scanned, scan-Scanned}

-- Two slots in use are never for the same inode.
pub record IsUnique (c : Icache) : Type 0 where
  pub one :
      (i j : ℕ)
      → i < ninode
      → j < ninode
      → (c.slots i).ref ≢ 0
      → (c.slots j).ref ≢ 0
      → (c.slots i).dev ≡ (c.slots j).dev
      → (c.slots i).inum ≡ (c.slots j).inum
      → i ≡ j

-- what `iget` answers: a slot in use for the inode
pub record Gets (dev inum i : ℕ) (c c' : Icache) : Type 0 where
  pub inside : i < ninode
  pub same_dev : (c'.slots i).dev ≡ dev
  pub same_inum : (c'.slots i).inum ≡ inum
  pub used : (c'.slots i).ref ≡ (c.slots i).ref + 1
  pub others : (j : ℕ) → j ≢ i → c'.slots j ≡ c.slots j
  pub unique : IsUnique c'

abbrev pub AllUsed : Icache → Type 0
AllUsed c = (j : ℕ) → j < ninode → (c.slots j).ref ≢ 0

got_lem :
    (dev inum : ℕ) (c : Icache) (s : Slot)
    → IsUnique c
    → Scanned dev inum c.slots ninode s
    → ((got dev inum c s ≡ panic) × AllUsed c)
      ⊎ ((i : ℕ) × (c' : Icache) × (got dev inum c s ≡ ok (i, c')) × Gets dev inum i c c')
unfolding update
got_lem dev inum c (cached i) v (l, h) = inr (
  i,
  (got_cached),
  refl,
  record {
    inside = l;
    same_dev = ground arith;
    same_inum = ground arith;
    used = ground arith;
    others = λ j ne. ground arith;
    unique = record { one = λ j k a b p q d e. ground (arith, v.one j k) };
  },
)
  where
    got_cached : Icache
    got_cached = record c {
      slots = update c.slots i (record (c.slots i) { ref = (c.slots i).ref + 1 });
    }
got_lem dev inum c (recycled i) v (l, z, m) = inr (
  i,
  got_recycled,
  refl,
  record {
    inside = l;
    same_dev = ground arith;
    same_inum = ground arith;
    used = ground arith;
    others = λ j ne. ground arith;
    unique = record { one = λ j k a b p q d e. ground (arith, v.one j k, m j, m k) };
  },
)
  where
    got_recycled : Icache
    got_recycled = record c {
      slots =
          update c.slots i
            (record (c.slots i) { dev = dev; inum = inum; ref = 1; busy = false; valid = false });
    }
got_lem dev inum c full v h = inl (refl, λ j l. h j (omega arith) l)

-- `iget` in a cache where no inode has two slots: it panics, every slot being in use, or it answers with a slot for the inode
-- whose count it has raised by one, leaves all other slots alone, and keeps the cache so.
pub iget-Gets :
    (dev inum : ℕ) (c : Icache)
    → IsUnique c
    → ((iget dev inum c ≡ panic) × AllUsed c)
      ⊎ ((i : ℕ) × (c' : Icache) × (iget dev inum c ≡ ok (i, c')) × Gets dev inum i c c')
unfolding iget
iget-Gets dev inum c v = got_lem dev inum c (scan dev inum c.slots 0 ninode none) v (
    scan-Scanned dev inum c.slots 0 ninode ninode none refl (λ j a l. absurd (omega arith))
      (λ j a l. absurd (omega arith)))
