-- ===== src/Proc/Reach.antt =====
-- The kernel as a sequence of sections under ptable.lock, in any order that the processes and the
-- scheduler choose.
use fp_sisop20_f.Base.{ℕ, ◌≡◌, Option, some, List, ok, panic, inl, inr, sym, ◌∙◌, subst}
use fp_sisop20_f.Proc.{
  Proc, Table, running, Channel, address, fork, exit, wait, wakeup, sleep, awake, kill, yield,
  dispatch, next_runnable, Call,
}
use fp_sisop20_f.Proc.Wakeups.{At, Waits, HasZombie, IsSound}
use fp_sisop20_f.Proc.Steps.{
  fork-IsSound, wait-IsSound, wakeup-IsSound, sleep-IsSound, awake-IsSound, kill-IsSound,
  yield-IsSound, dispatch-IsSound,
}
use fp_sisop20_f.Proc.Life.{exit-IsSound}

-- A running process calls one of them, an interrupt wakes or kills, or the scheduler runs a process.
pub data Step (t : Table) : Table → Type 0 where
  forks :
      (cur : ℕ) (c : Proc) (page pgdir : Option ℕ)
      → At t cur c
      → c.state ≡ running
      → Step t (fork cur c page pgdir t).1
  exits :
      (cur : ℕ) (c : Proc) (t' : Table) (calls : List Call)
      → At t cur c
      → exit cur c t ≡ ok (t', calls)
      → Step t t'
  waits : (cur : ℕ) (c : Proc) → At t cur c → c.state ≡ running → Step t (wait cur c t).1
  sleeps :
      (cur a : ℕ) (c : Proc) → At t cur c → c.state ≡ running → Step t (sleep cur (address a) t)
  resumes : (cur : ℕ) (c : Proc) → At t cur c → c.state ≡ running → Step t (awake cur t)
  yields : (cur : ℕ) (c : Proc) → At t cur c → c.state ≡ running → Step t (yield cur t)
  wakes : (chan : Channel) → Step t (wakeup chan t)
  kills : (pid : ℕ) → Step t (kill pid t).1
  schedules : (i : ℕ) → next_runnable 0 t.procs ≡ some i → Step t (dispatch i t)

pub data Reaches (s : Table) : Table → Type 0 where
  here : Reaches s s
  next : {t u : Table} → Reaches s t → Step t u → Reaches s u

Step-IsSound : {t u : Table} → Step t u → IsSound t → IsSound u
Step-IsSound {t} (forks cur c page pgdir a r) v = fork-IsSound cur c page pgdir t a r v
Step-IsSound {t} {u} (exits cur c t' calls a e) v = elim (exit-IsSound cur c t a v) [
  | inl (_, p) ↦ (let q : panic ≡ ok (u, calls) = sym p ∙ e in absurd (cc))
  | inr (t'', calls'', e'', s, _) ↦
      let q : ok (t'', calls'') ≡ ok (u, calls) = sym e'' ∙ e in
      let tu : t'' ≡ u = cc in subst IsSound tu s
]
Step-IsSound {t} (waits cur c a r) v = wait-IsSound cur c t v
Step-IsSound {t} (sleeps cur a c at r) v = sleep-IsSound cur a t v
Step-IsSound {t} (resumes cur c a r) v = awake-IsSound cur t v
Step-IsSound {t} (yields cur c a r) v = yield-IsSound cur t v
Step-IsSound {t} (wakes chan) v = wakeup-IsSound chan t v
Step-IsSound {t} (kills pid) v = kill-IsSound pid t v
Step-IsSound {t} (schedules i e) v = dispatch-IsSound i t v

pub Reaches-IsSound : {s t : Table} → IsSound s → Reaches s t → IsSound t
Reaches-IsSound v here = v
Reaches-IsSound v (next r st) = Step-IsSound st (Reaches-IsSound v r)

-- From a sound table, however the processes run, are scheduled, killed and woken: no process is ever
-- asleep in wait while it has a zombie child.
pub no_lost_wakeup : {s t : Table} (i : ℕ) → IsSound s → Reaches s t → ¬ (Waits t i × HasZombie t i)
no_lost_wakeup i v r (w, z) = (Reaches-IsSound v r).no_lost i w z
