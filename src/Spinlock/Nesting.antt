-- ===== src/Spinlock/Nesting.antt =====
-- pushcli and popcli are matched: interrupts come back exactly as they were.
use fp_sisop20_f.Base.{
  ℕ, zero, suc, ◌+◌, ◌-◌, ◌≡◌, refl, ◌⊎◌, inr, true, false, ◌&&◌, ◌||◌, none, some, List, arith,
  ◌==◌, Result, ok, ◌>>=◌,
}
use fp_sisop20_f.Spinlock.{
  Cpu, Lock, pushcli, popcli, holding, acquire_round, acquire, release, forget_first,
}

-- Interrupts are off inside a nesting.
pub record IsNested (c : Cpu) : Type 0 where
  pub off : (c.ncli ≡ 0) ⊎ (c.interrupts ≡ false)

-- The CPU state but for the saved flag, which counts only inside a nesting.
abbrev pub SameCpu : Cpu → Cpu → Type 0
SameCpu c d =
    (d.ncli ≡ c.ncli) × (d.interrupts ≡ c.interrupts) × ((c.ncli ≡ 0) ⊎ (d.intena ≡ c.intena))

abbrev pub pushes : ℕ → Cpu → Cpu
pushes zero c = c
pushes (suc n) c = pushcli (pushes n c)

abbrev pub pops : ℕ → Cpu → Result Cpu
pops zero c = ok c
pops (suc n) c = popcli c >>= pops n

pub pushes_lem : (n : ℕ) (c : Cpu) → IsNested c → (pushes n c).ncli ≡ c.ncli + n
unfolding pushcli
pushes_lem zero c v = omega arith
pushes_lem (suc n) c v = omega (arith, pushes_lem n c v)

one_pop :
    (c d : Cpu) → IsNested c → SameCpu (pushcli c) d → (e : Cpu) × (popcli d ≡ ok e) × SameCpu c e
unfolding pushcli popcli
one_pop c d v s = (
  record d { ncli = d.ncli - 1; interrupts = (d.ncli - 1 == 0) && d.intena || d.interrupts },
  ground arith,
  (ground arith, ground arith, ground arith),
)

pushes-IsNested : (n : ℕ) (c : Cpu) → IsNested c → IsNested (pushes n c)
unfolding pushcli
pushes-IsNested zero c v = v
pushes-IsNested (suc n) c v = record { off = inr refl }

nested :
    (n : ℕ) (c d : Cpu)
    → IsNested c
    → SameCpu (pushes n c) d
    → (e : Cpu) × (pops n d ≡ ok e) × SameCpu c e
nested zero c d v s = (d, refl, s)
nested (suc n) c d v s =
    let (e, p, s') = one_pop (pushes n c) d (pushes-IsNested n c v) s in
    let (f, q, s'') = nested n c e v s' in (f, rw p q, s'')

-- After any number of `pushcli` the same number of `popcli` does not panic, and brings back the depth
-- of nesting and the interrupt flag from before them.
pub pops-pushes :
    (n : ℕ) (c : Cpu)
    → IsNested c
    → (e : Cpu) × (pops n (pushes n c) ≡ ok e) × (e.ncli ≡ c.ncli) × (e.interrupts ≡ c.interrupts)
pops-pushes n c v =
    let (e, p, (a, b, _)) = nested n c (pushes n c) v (refl, refl, inr refl) in (e, p, a, b)

-- `acquire` of a free lock by CPU `me` answers with the lock, and `release` after it succeeds: between
-- them the CPU holds the lock with interrupts off, and no round of another CPU takes it; after them
-- the lock is free, and the depth of nesting and the interrupt flag are as they were.
pub release-acquire :
    (me other : ℕ) (pcs : List ℕ) (c : Cpu) (lk : Lock)
    → IsNested c
    → lk.locked ≡ false
    → (c' : Cpu) × (lk' : Lock) × (c'' : Cpu) × (lk'' : Lock) × (acquire me pcs c lk
        ≡ ok (some (c', lk')))
      × (release me c' lk' ≡ ok (c'', lk''))
      × (holding me lk' ≡ true)
      × (c'.interrupts ≡ false)
      × (acquire_round other pcs lk' ≡ none)
      × (lk''.locked ≡ false)
      × (c''.ncli ≡ c.ncli)
      × (c''.interrupts ≡ c.interrupts)
unfolding acquire release holding acquire_round pushcli
release-acquire me other pcs c lk v free =
    let lk' = record lk { locked = true; cpu = some me; pcs = pcs } in
    let (d, p, (a, b, _)) = one_pop c (pushcli c) v (refl, refl, inr refl) in
    (
      pushcli c,
      lk',
      d,
      record lk' { pcs = forget_first pcs; cpu = none; locked = false },
      ground arith,
      ground arith,
      ground arith,
      refl,
      refl,
      refl,
      a,
      b,
    )
