-- ===== src/Spinlock.antt =====
-- spinlock.c: the nesting of interrupt disabling on one CPU, and the lock word that the CPUs share.
pub mod Nesting
pub mod Exclusion
mod Tests
use fp_sisop20_f.Base.{
  ℕ, zero, suc, ◌+◌, ◌-◌, ◌*◌, ◌^◌, Bool, true, false, not, ◌&&◌, ◌||◌, Option, none, some, List,
  [], ◌∷◌, ◌==◌, ltb, if◌then◌else◌, replicate, Result, ok, panic, ◌>>=◌, ◌>>◌, panic_if,
}

-- What the code reads and writes of `struct cpu`, and the CPU's own interrupt flag.
pub record Cpu : Type 0 where
  pub ncli : ℕ
  pub intena : Bool
  pub interrupts : Bool

-- `struct spinlock`; `cpu` is the number of the holder.
pub record Lock : Type 0 where
  pub locked : Bool
  pub cpu : Option ℕ
  pub name : List ℕ
  pub pcs : List ℕ

unfoldable pub initlock : List ℕ → Lock → Lock
initlock name lk = record lk { name = name; locked = false; cpu = none }

unfoldable pub pushcli : Cpu → Cpu
pushcli c = record c {
  interrupts = false;
  ncli = c.ncli + 1;
  intena = if c.ncli == 0 then c.interrupts else c.intena;
}

-- `--cpu->ncli < 0` is a test for 0 before.
unfoldable pub popcli : Cpu → Result Cpu
popcli c = do
  panic_if c.interrupts
  panic_if (c.ncli == 0)
  ok (record c { ncli = c.ncli - 1; interrupts = (c.ncli - 1 == 0) && c.intena || c.interrupts })

abbrev pub is_cpu : ℕ → Option ℕ → Bool
is_cpu me none = false
is_cpu me (some i) = i == me

unfoldable pub holding : ℕ → Lock → Bool
holding me lk = lk.locked && is_cpu me lk.cpu

-- The frames that `getcallerpcs` follows, in a memory of words: `k` entries are left.
unfoldable pub callers : (ℕ → ℕ) → (ebp : ℕ) → (k : ℕ) → List ℕ
callers m ebp zero = []
callers m ebp (suc k) =
    let rest = callers m (m ebp) k in
    if (ebp == 0) || ltb ebp (2 ^ 31) || (ebp == 2 ^ 32 - 1)
    then replicate (suc k) 0
    else m (ebp + 4) ∷ rest

unfoldable pub getcallerpcs : (ℕ → ℕ) → (v : ℕ) → List ℕ
unfolding callers
getcallerpcs m v = callers m (v - 8) 10

-- `xchg(&lk->locked, 1)`, and what `acquire` writes behind it
abbrev pub exchanged : Lock → Lock
exchanged lk = record lk { locked = true }

abbrev pub recorded : ℕ → List ℕ → Lock → Lock
recorded me pcs lk = record lk { cpu = some me; pcs = pcs }

-- One round of `acquire` by CPU `me`: `none` while the lock is taken and it goes on spinning. The
-- last argument is what `getcallerpcs` answers.
unfoldable pub acquire_round : ℕ → List ℕ → Lock → Option Lock
acquire_round me pcs lk = if lk.locked then none else some (recorded me pcs (exchanged lk))

-- `acquire`, with the lock as the last round of the loop finds it: it panics if this CPU has it.
unfoldable pub acquire : ℕ → List ℕ → Cpu → Lock → Result (Option (Cpu × Lock))
unfolding holding
acquire me pcs c lk = do
  panic_if (holding me lk)
  ok (elim (acquire_round me pcs lk) [ none ↦ none | some lk' ↦ some (pushcli c, lk') ])

abbrev pub forget_first : List ℕ → List ℕ
forget_first [] = []
forget_first (_ ∷ ps) = 0 ∷ ps

-- what `release` writes, and then its `xchg(&lk->locked, 0)`
abbrev pub cleared : Lock → Lock
cleared lk = record lk { pcs = forget_first lk.pcs; cpu = none }

abbrev pub freed : Lock → Lock
freed lk = record lk { locked = false }

unfoldable pub release : ℕ → Cpu → Lock → Result (Cpu × Lock)
unfolding holding
release me c lk = do panic_if (not (holding me lk)); c' ← popcli c; ok (c', freed (cleared lk))
