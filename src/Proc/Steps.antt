-- ===== src/Proc/Steps.antt =====
-- The sections of proc.c keep the table sound: all but exit and the sleep in wait are harmless in
-- every slot.
use fp_sisop20_f.Base.{
  ℕ, ◌≡◌, ◌≢◌, refl, ◌∙◌, ap, sym, subst, inl, inr, false, not, ◌||◌, Option, none, some, arith,
  ◌==◌, Bool-cases,
}
use fp_sisop20_f.Proc.{
  Proc, Table, unused, sleeping, running, zombie, of_proc, address, modify, with_proc, Channel,
  find, allocproc, fork, child_of, alloc_slot, fork_slot, taken, given_up, kill_slot, wait_slot,
  reap_slot, wake, wakeup1, wakeup, wait, have_kids, reap, is_zombie_child, same_state, sleep,
  awake, kill, strike, yield, dispatch,
}
use fp_sisop20_f.Proc.Lookup.{get-map, length-map, find_at, find-none, modify-modify}
use fp_sisop20_f.Proc.Wakeups.{
  At, Waits, HasZombie, IsSound, IsCalm, Slotwise, modify-IsSound, calm-IsSound, keep_rest, At-back,
  modify-Slotwise, at_slot,
}

quiet :
    (j : ℕ) (q q' : Proc)
    → q'.state ≢ sleeping
    → q'.state ≢ zombie
    → (q.parent ≢ some j → q'.parent ≢ some j)
    → (q.parent ≡ none → q.state ≢ unused → (q'.parent ≡ none) × (q'.state ≢ unused))
    → IsCalm j q q'
quiet j q q' ns nz par stays = record {
  sleeps = λ s. absurd (ns s);
  dies = λ z. absurd (nz z);
  adopts = par;
  stays = stays;
}

pub wakeup-IsSound : (chan : Channel) (t : Table) → IsSound t → IsSound (wakeup chan t)
unfolding wakeup wakeup1
wakeup-IsSound chan t v =
    calm-IsSound (λ _. wake chan) t (wakeup chan t)
      (record {
        slots = get-map (wake chan) t.procs;
        same_init = refl;
        same_length = length-map (wake chan) t.procs;
      })
      (λ j q a. record {
        sleeps = λ s. ground arith;
        dies = λ z. ground arith;
        adopts = λ h. ground arith;
        stays = λ p s. ground arith;
      })
      v

pub yield-IsSound : (cur : ℕ) (t : Table) → IsSound t → IsSound (yield cur t)
unfolding yield
yield-IsSound cur t v =
    modify-IsSound cur _ t (yield cur t) refl refl
      (λ q a. quiet cur q _ (cc) (cc) (λ h. h) (λ p s. (p, cc))) v

pub dispatch-IsSound : (i : ℕ) (t : Table) → IsSound t → IsSound (dispatch i t)
unfolding dispatch
dispatch-IsSound i t v =
    modify-IsSound i _ t (dispatch i t) refl refl
      (λ q a. quiet i q _ (cc) (cc) (λ h. h) (λ p s. (p, cc))) v

pub awake-IsSound : (cur : ℕ) (t : Table) → IsSound t → IsSound (awake cur t)
unfolding awake
awake-IsSound cur t v =
    modify-IsSound cur _ t (awake cur t) refl refl
      (λ q a. record {
        sleeps = λ s. inr (λ i. cc);
        dies = λ z. (z, refl);
        adopts = λ h. h;
        stays = λ p s. (p, s);
      })
      v

-- A sleep on anything but the address of a process.
pub sleep-IsSound : (cur a : ℕ) (t : Table) → IsSound t → IsSound (sleep cur (address a) t)
unfolding sleep
sleep-IsSound cur a t v =
    modify-IsSound cur _ t (sleep cur (address a) t) refl refl
      (λ q b. record {
        sleeps = λ s. inr (λ i. cc);
        dies = λ z. absurd (cc);
        adopts = λ h. h;
        stays = λ p s. (p, cc);
      })
      v

pub kill-IsSound : (pid : ℕ) (t : Table) → IsSound t → IsSound (kill pid t).1
unfolding kill
kill-IsSound pid t v = at_found (find (λ p. p.pid == pid) 0 t.procs)
  where
    at_found : (o : Option ℕ) → IsSound (kill_slot t o).1
    at_found none = v
    at_found (some i) =
        modify-IsSound i strike t (with_proc i strike t) refl refl
          (λ q a. record {
            sleeps = λ s. ground arith;
            dies = λ z. ground arith;
            adopts = λ h. h;
            stays = λ p s. (p, ground arith);
          })
          v

-- a change of an unused slot into something that neither sleeps nor is dead
reuse :
    (i : ℕ) (f : Proc → Proc) (t t' : Table)
    → t'.procs ≡ modify i f t.procs
    → t'.initproc ≡ t.initproc
    → (p : Proc) → At t i p
    → p.state ≡ unused
    → ((q : Proc) → ((f q).state ≢ sleeping) × ((f q).state ≢ zombie))
    → ((q : Proc) → q.parent ≢ some i → (f q).parent ≢ some i)
    → IsSound t
    → IsSound t'
reuse i f t t' e h p a u quiets adopts v =
    modify-IsSound i f t t' e h
      (λ q b.
        let pq : p ≡ q = cc in
        quiet i q (f q) (quiets q).0 (quiets q).1 (adopts q)
          (λ par used. absurd (used (ap (λ (x : Proc). x.state) (sym pq) ∙ u))))
      v

-- the slot that `allocproc` takes
pub unused-At :
    (t : Table) (i : ℕ)
    → find (λ p. same_state p.state unused) 0 t.procs ≡ some i
    → (p : Proc) × At t i p × (p.state ≡ unused)
unused-At t i e =
    let (p, a, u) = find_at (λ p. same_state p.state unused) t.procs i e in (p, a, ground arith)

slots_differ :
    (t : Table) (cur i : ℕ) (c p : Proc)
    → At t cur c
    → c.state ≡ running
    → At t i p
    → p.state ≡ unused
    → cur ≢ i
slots_differ t cur i c p ac rc a u ci =
    let a' : At t i c = subst (λ k. At t k c) ci ac in
    let pc : c ≡ p = cc in
    let s : running ≡ unused = sym rc ∙ ap (λ (x : Proc). x.state) pc ∙ u in cc

-- `fork` by the running process `c` in slot `cur`, on every branch
pub fork-IsSound :
    (cur : ℕ) (c : Proc) (page pgdir : Option ℕ) (t : Table)
    → At t cur c
    → c.state ≡ running
    → IsSound t
    → IsSound (fork cur c page pgdir t).1
unfolding fork allocproc
fork-IsSound cur c page pgdir t ac rc v =
    at_found (find (λ p. same_state p.state unused) 0 t.procs) refl page pgdir
  where
    at_found :
        (o : Option ℕ)
        → find (λ p. same_state p.state unused) 0 t.procs ≡ o
        → (page pgdir : Option ℕ)
        → IsSound (fork_slot cur c page pgdir t.nextpid (alloc_slot page t o)).1
    at_found none e page pgdir = v
    at_found (some i) e none pgdir =
        let (p, a, u) = unused-At t i e in
        reuse i (λ q. given_up (taken t.nextpid q)) t _ (modify-modify i _ _ t.procs) refl p a u
          (λ q. (cc, cc)) (λ q h. h) v
    at_found (some i) e (some s) none =
        let (p, a, u) = unused-At t i e in
        reuse i (λ q. given_up (record (taken t.nextpid q) { kstack = some s })) t _
          (ap (modify i given_up) (modify-modify i _ _ t.procs) ∙ modify-modify i _ _ t.procs) refl
          p a u (λ q. (cc, cc)) (λ q h. h) v
    at_found (some i) e (some s) (some d) =
        let (p, a, u) = unused-At t i e in
        let ne : cur ≢ i = slots_differ t cur i c p ac rc a u in
        reuse i (λ q. child_of cur c d (record (taken t.nextpid q) { kstack = some s })) t _
          (ap (modify i (child_of cur c d)) (modify-modify i _ _ t.procs)
            ∙ modify-modify i _ _ t.procs)
          refl p a u (λ q. (cc, cc)) (λ q h k. ne (ground arith)) v

-- A change of one slot to something that is not dead makes no zombie.
pub zombie_back :
    (i : ℕ) (f : Proc → Proc) (t t' : Table) (k : ℕ)
    → Slotwise (at_slot i f) t t'
    → ((q : Proc) → (f q).state ≢ zombie)
    → HasZombie t' k
    → HasZombie t k
unfolding at_slot
zombie_back i f t t' k s alive (j, (q', b, z, par)) =
    let (q, b0, eq) = At-back (at_slot i f) t t' j q' s b in
    elim (Bool-cases (j == i)) [
      | inl h ↦
          let e : q' ≡ f q = eq ∙ (unfold at_slot in rw h refl) in absurd (alive q (rw (← e) z))
      | inr h ↦
          let e : q' ≡ q = eq ∙ (unfold at_slot in rw h refl) in
          (j, (q, b0, rw (← e) z, rw (← e) par))
    ]

-- `wait` goes to sleep only when it has no zombie child.
sleep_in_wait :
    (cur : ℕ) (t : Table)
    → find (is_zombie_child cur) 0 t.procs ≡ none
    → IsSound t
    → IsSound (sleep cur (of_proc cur) t)
unfolding sleep at_slot
sleep_in_wait cur t e v =
    keep_rest (at_slot cur f) t t' s (λ j q a h. ground arith) (λ q a h st. ground arith) v
      (λ i w z. lost i w (zombie_back cur f t t' i s (λ q. cc) z))
  where
    f : Proc → Proc
    f p = record p { chan = of_proc cur; state = sleeping }

    t' : Table
    t' = with_proc cur f t

    s : Slotwise (at_slot cur f) t t'
    s = modify-Slotwise cur f t t' refl refl

    lost : (i : ℕ) → Waits t' i → HasZombie t i → ⊥
    lost i (p', a, st, ch) (j, (q, b, z, par)) =
        let (p, a0, ep) = At-back (at_slot cur f) t t' i p' s a in
        elim (Bool-cases (i == cur)) [
          | inl h ↦
              let i' : i ≡ cur = ground arith in
              let no : is_zombie_child cur q ≡ false =
                find-none (is_zombie_child cur) t.procs j q e b in
              ground arith
          | inr h ↦
              let same : p' ≡ p = ep ∙ (unfold at_slot in rw h refl) in
              v.no_lost i (p, a0, rw (← same) st, rw (← same) ch) (j, (q, b, z, par))
        ]

pub wait-IsSound : (cur : ℕ) (c : Proc) (t : Table) → IsSound t → IsSound (wait cur c t).1
unfolding wait
wait-IsSound cur c t v = at_found (find (is_zombie_child cur) 0 t.procs) refl
  where
    at_found :
        (o : Option ℕ) → find (is_zombie_child cur) 0 t.procs ≡ o → IsSound (wait_slot cur c t o).1
    at_found none e = elim (Bool-cases (not (have_kids cur t.procs) || c.killed)) [
      | inl b ↦ rw b v
      | inr b ↦ rw b (sleep_in_wait cur t e v)
    ]
    at_found (some i) e =
        let (p, a, test) = find_at (is_zombie_child cur) t.procs i e in
        let par : p.parent ≡ some cur = ground arith in
        subst (λ o. IsSound (reap_slot i t o).1) (sym a)
          (modify-IsSound i reap t (with_proc i reap t) refl refl
            (λ q b.
              let pq : p ≡ q = cc in
              let child : q.parent ≡ some cur = rw (← pq) par in
              quiet i q (reap q) (cc) (cc) (λ h. cc) (λ n u. absurd (cc)))
            v)
