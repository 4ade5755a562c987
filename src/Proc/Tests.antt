-- ===== src/Proc/Tests.antt =====
-- A table with init and one running child, and witnesses that the theorems on it apply.
use fp_sisop20_f.Base.{
  ℕ, zero, suc, ◌≡◌, ◌≢◌, ◌⊎◌, refl, arith, false, none, some, List, [], ◌∷◌, ok, panic,
}
use fp_sisop20_f.Proc.{Proc, Table, running, runnable, zombie, no_channel, exit, Call, yield}
use fp_sisop20_f.Proc.Wakeups.{At, Waits, HasZombie, IsSound}
use fp_sisop20_f.Proc.Life.{exit-IsSound}
use fp_sisop20_f.Proc.Reach.{here, next, yields, no_lost_wakeup}

abbrev init_proc : Proc
init_proc = record {
  sz = 4096;
  pgdir = some 1;
  kstack = some 2;
  state = runnable;
  pid = 1;
  parent = none;
  chan = no_channel;
  killed = false;
  ofile = [];
  cwd = some 1;
  name = [];
}

abbrev child_proc : Proc
child_proc = record init_proc { state = running; pid = 2; parent = some 0 }

abbrev two_procs : Table
two_procs = record { procs = init_proc ∷ child_proc ∷ []; initproc = 0; nextpid = 3 }

two_procs-IsSound : IsSound two_procs
two_procs-IsSound = record {
  fits = omega arith;
  no_self = parents;
  init = (init_proc, refl, refl, cc);
  no_lost = awake_all;
}
  where
    parents : (i : ℕ) (p : Proc) → At two_procs i p → p.parent ≢ some i
    parents zero p a = cc
    parents (suc zero) p a = cc
    parents (suc (suc i)) p a = absurd (cc)

    awake_all : (i : ℕ) → Waits two_procs i → HasZombie two_procs i → ⊥
    awake_all zero (p, a, s, _) _ = cc
    awake_all (suc zero) (p, a, s, _) _ = cc
    awake_all (suc (suc i)) (p, a, s, _) _ = cc

no_lost_wakeup_example : ¬ (Waits (yield 1 two_procs) 0 × HasZombie (yield 1 two_procs) 0)
no_lost_wakeup_example =
    no_lost_wakeup 0 two_procs-IsSound (next here (yields 1 child_proc refl refl))

exit-IsSound_example :
    (◌≡◌ {A = ℕ} 1 0 × (exit 1 child_proc two_procs ≡ panic))
    ⊎ ((t' : Table) × (calls : List Call) × (exit 1 child_proc two_procs ≡ ok (t', calls))
        × IsSound t'
        × ((q : Proc) → At t' 1 q → q.state ≡ zombie))
exit-IsSound_example = exit-IsSound 1 child_proc two_procs refl two_procs-IsSound
