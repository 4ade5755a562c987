-- ===== src/Spinlock/Tests.antt =====
-- A free lock, and witnesses that the theorems on it apply.
use fp_sisop20_f.Base.{◌≡◌, refl, inl, true, false, none, some, [], ok, update}
use fp_sisop20_f.Spinlock.{Cpu, Lock, holding, acquire, acquire_round, pushcli, recorded, exchanged}
use fp_sisop20_f.Spinlock.Nesting.{IsNested, pushes, pops, pops-pushes}
use fp_sisop20_f.Spinlock.Exclusion.{
  outside, spinning, taking, inside, Machine, Reaches, here, next, acquires, takes, records,
  mutual_exclusion,
}

abbrev fresh_cpu : Cpu
fresh_cpu = record { ncli = 0; intena = false; interrupts = true }

abbrev free_lock : Lock
free_lock = record { locked = false; cpu = none; name = []; pcs = [] }

fresh_cpu-IsNested : IsNested fresh_cpu
fresh_cpu-IsNested = record { off = inl refl }

pops-pushes_example :
    (e : Cpu) × (pops 2 (pushes 2 fresh_cpu) ≡ ok e) × (e.ncli ≡ 0) × (e.interrupts ≡ true)
pops-pushes_example = pops-pushes 2 fresh_cpu fresh_cpu-IsNested

abbrev start : Machine
start = record { lock = free_lock; place = λ _. outside }

abbrev held_by_zero : Machine
held_by_zero = record {
  lock = recorded 0 [] (exchanged free_lock);
  place = update (update (update (λ _. outside) 0 spinning) 0 taking) 0 inside;
}

taken_by_zero : Reaches start held_by_zero
unfolding update holding acquire acquire_round pushcli
taken_by_zero =
    let lk = recorded 0 [] (exchanged free_lock) in
    let called = acquires 0 [] fresh_cpu (some (pushcli fresh_cpu, lk)) (inl refl) refl in
    next (next (next here called) (takes 0 [] lk refl refl)) (records 0 [] refl)

mutual_exclusion_example : ¬ ((held_by_zero.place 0 ≡ inside) × (held_by_zero.place 1 ≡ inside))
mutual_exclusion_example = mutual_exclusion 0 1 refl (λ k. refl) taken_by_zero (λ e. cc)
