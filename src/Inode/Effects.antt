-- ===== src/Inode/Effects.antt =====
-- What the operations on inodes do to references and locks.
use fp_sisop20_f.Base.{
  ℕ, ◌+◌, ◌-◌, ◌≡◌, ◌≢◌, refl, sym, subst, ◌>>=◌, arith, ◌⊎◌, inl, inr, Bool, true, false,
  Bool-cases, Option, none, some, List, [], ◌∷◌, ◌==◌, if◌then◌else◌, update, Result, ok, panic,
}
use fp_sisop20_f.Inode.Scan.{Scanned, scan-Scanned}
use fp_sisop20_f.Inode.{
  Inode, Dinode, Icache, Event, put_slot, cached, recycled, full, Slot, got, iget, scan, ninode,
  idup, ilock, locked, iunlock, iupdate, itrunc, dropped, last_unlinked, unreferenced, wakes, iput,
  allocated, ialloc, free_inum,
}

-- In slot `i` there is the reference count `n` and the lock `b`, and the other slots have theirs.
pub record Sets (i n : ℕ) (b : Bool) (c c' : Icache) : Type 0 where
  pub refs : (j : ℕ) → (c'.slots j).ref ≡ (if j == i then n else (c.slots j).ref)
  pub locks : (j : ℕ) → (c'.slots j).busy ≡ (if j == i then b else (c.slots j).busy)

pub put_slot-Sets : (i : ℕ) (ip : Inode) (c : Icache) → Sets i ip.ref ip.busy c (put_slot i ip c)
unfolding update
put_slot-Sets i ip c = record { refs = λ j. ground arith; locks = λ j. ground arith }

Sets-next :
    (i n m : ℕ) (b d : Bool) (c c' c'' : Icache)
    → Sets i n b c c'
    → Sets i m d c' c''
    → Sets i m d c c''
Sets-next i n m b d c c' c'' s t = record {
  refs = λ j. ground (arith, s.refs j, t.refs j);
  locks = λ j. ground (arith, s.locks j, t.locks j);
}

pub idup-Sets : (i : ℕ) (c : Icache) → Sets i ((c.slots i).ref + 1) (c.slots i).busy c (idup i c)
unfolding idup
idup-Sets i c = put_slot-Sets i (record (c.slots i) { ref = (c.slots i).ref + 1 }) c

pub iupdate-Sets : (i : ℕ) (c : Icache) → Sets i (c.slots i).ref (c.slots i).busy c (iupdate i c)
unfolding iupdate
iupdate-Sets i c = record { refs = λ j. ground arith; locks = λ j. ground arith }

-- `iget` answers a slot that has one reference more, and whose lock is free if it had none.
abbrev pub Refers : Icache → Result (ℕ × Icache) → Type 0
Refers c panic = Unit
Refers c (ok (i, c')) =
    (b : Bool) × Sets i ((c.slots i).ref + 1) b c c'
    × ((b ≡ (c.slots i).busy) ⊎ (((c.slots i).ref ≡ 0) × (b ≡ false)))

got-Refers :
    (dev inum : ℕ) (c : Icache) (s : Slot)
    → Scanned dev inum c.slots ninode s
    → Refers c (got dev inum c s)
got-Refers dev inum c (cached i) h = (
  (c.slots i).busy,
  put_slot-Sets i (record (c.slots i) { ref = (c.slots i).ref + 1 }) c,
  inl refl,
)
got-Refers dev inum c (recycled i) (_, z, _) =
    let b : Inode = record (c.slots i) {
      dev = dev;
      inum = inum;
      ref = 1;
      busy = false;
      valid = false;
    } in
    let s = put_slot-Sets i b c in
    let e : 1 ≡ (c.slots i).ref + 1 = omega (arith, z) in
    (false, subst (λ n. Sets i n false c (put_slot i b c)) e s, inr (z, refl))
got-Refers dev inum c full h = tt

pub iget-Refers : (dev inum : ℕ) (c : Icache) → Refers c (iget dev inum c)
unfolding iget
iget-Refers dev inum c = got-Refers dev inum c (scan dev inum c.slots 0 ninode none) (
    scan-Scanned dev inum c.slots 0 ninode ninode none refl (λ j a l. absurd (omega arith))
      (λ j a l. absurd (omega arith)))

Refers-disk :
    (c : Icache) (d : ℕ → ℕ → Dinode) (r : Result (ℕ × Icache))
    → Refers (record c { disk = d }) r
    → Refers c r
Refers-disk c d panic h = tt
Refers-disk c d (ok (i, c')) (b, s, h) = (b, record { refs = s.refs; locks = s.locks }, h)

pub ialloc-Refers : (dev ninodes type : ℕ) (c : Icache) → Refers c (ialloc dev ninodes type c)
unfolding ialloc
ialloc-Refers dev ninodes type c = by_inum (free_inum (c.disk dev) 1 (ninodes - 1))
  where
    by_inum : (o : Option ℕ) → Refers c (allocated dev type c o)
    by_inum none = tt
    by_inum (some inum) =
        let fresh : Dinode = record {
          type = type;
          major = 0;
          minor = 0;
          nlink = 0;
          size = 0;
          addrs = λ _. 0;
        } in
        let d = update c.disk dev (update (c.disk dev) inum fresh) in
        Refers-disk c d (iget dev inum (record c { disk = d }))
          (iget-Refers dev inum (record c { disk = d }))

-- The outcome of `ilock` of an inode that is referred to.
abbrev pub Locks : ℕ → Icache → Result (Option Icache) → Type 0
Locks i c panic = Unit
Locks i c (ok none) = (c.slots i).busy ≡ true
Locks i c (ok (some c')) = ((c.slots i).busy ≡ false) × Sets i (c.slots i).ref true c c'

pub ilock-Locks : (i : ℕ) (c : Icache) → Locks i c (ilock i c)
unfolding ilock
ilock-Locks i c = elim (Bool-cases ((c.slots i).ref == 0)) [
  | inl z ↦ rw z tt
  | inr z ↦ elim (Bool-cases (c.slots i).busy) [
    | inl b ↦ rw (z, b) b
    | inr b ↦ rw (z, b) (by_valid b)
  ]
]
  where
    by_valid : (c.slots i).busy ≡ false → Locks i c (locked i c >>= λ c'. ok (some c'))
    by_valid b = elim (Bool-cases (c.slots i).valid) [
      | inl v ↦ rw v (b, put_slot-Sets i (record (c.slots i) { busy = true; valid = true }) c)
      | inr v ↦ elim (Bool-cases ((c.disk (c.slots i).dev (c.slots i).inum).type == 0)) [
        | inl t ↦ rw (v, t) tt
        | inr t ↦ rw (v, t) (b, put_slot-Sets i _ c)
      ]
    ]

-- `iunlock` of a locked inode that is referred to
pub iunlock-Sets :
    (i : ℕ) (c : Icache)
    → (c.slots i).busy ≡ true
    → (c.slots i).ref ≢ 0
    → (c' : Icache) × (iunlock i c ≡ ok (c', wakes i ∷ [])) × Sets i (c.slots i).ref false c c'
unfolding iunlock
iunlock-Sets i c b n =
    let z : ((c.slots i).ref == 0) ≡ false = ground arith in
    (
      put_slot i (record (c.slots i) { busy = false }) c,
      rw (b, z) refl,
      put_slot-Sets i (record (c.slots i) { busy = false }) c,
    )

dropped-Sets : (a : ℕ → ℕ) (i : ℕ) (c : Icache) → Sets i (c.slots i).ref false c (dropped a i c).0
unfolding itrunc iupdate update
dropped-Sets a i c = record { refs = λ j. ground arith; locks = λ j. ground arith }

unreferenced-Sets :
    (i n : ℕ) (b : Bool) (c d : Icache) → Sets i n b c d → Sets i (n - 1) b c (unreferenced i d)
unfolding update
unreferenced-Sets i n b c d s = record {
  refs = λ j. ground (arith, s.refs j, s.refs i);
  locks = λ j. ground (arith, s.locks j, s.locks i);
}

-- `iput` of an inode that is referred to, where its last reference is not locked
pub iput-Sets :
    (a : ℕ → ℕ) (i : ℕ) (c : Icache)
    → ((c.slots i).busy ≡ true → (c.slots i).ref ≢ 1)
    → (c' : Icache) × (es : List Event) × (iput a i c ≡ ok (c', es))
      × Sets i ((c.slots i).ref - 1) (c.slots i).busy c c'
unfolding iput
iput-Sets a i c h = elim (Bool-cases (last_unlinked (c.slots i))) [
  | inl l ↦
      let b : (c.slots i).busy ≡ false = ground arith in
      (
        unreferenced i (dropped a i c).0,
        (dropped a i c).1,
        rw (l, b) refl,
        subst (λ t. Sets i ((c.slots i).ref - 1) t c (unreferenced i (dropped a i c).0)) (sym b)
            (unreferenced-Sets i (c.slots i).ref false c (dropped a i c).0 (dropped-Sets a i c)),
      )
  | inr l ↦ (
    unreferenced i c,
    [],
    rw l refl,
    put_slot-Sets i (record (c.slots i) { ref = (c.slots i).ref - 1 }) c,
  )
]
