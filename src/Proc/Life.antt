-- ===== src/Proc/Life.antt =====
-- exit keeps the table sound: the parent of the dying process, and init if it inherits a zombie, do
-- not go on sleeping in wait.
use fp_sisop20_f.Base.{
  ℕ, ◌<◌, ◌≡◌, ◌≢◌, refl, ◌∙◌, ap, sym, subst, ◌⊎◌, inl, inr, true, none, some, List, ◌++◌, arith,
  ◌==◌, if◌then◌else◌, Bool-cases, get_elem?-lt, ne→==, ok, panic,
}
use fp_sisop20_f.Proc.{
  Proc, Table, unused, sleeping, zombie, of_proc, modify, nproc, wake, wakeup1, is_slot, exit,
  parent_channel, Call, close_calls, opt_call, iput,
}
use fp_sisop20_f.Proc.Lookup.{get-map, get-modify}
use fp_sisop20_f.Proc.Wakeups.{At, IsSound, keep_rest, At-back}
use fp_sisop20_f.Proc.Exit.{
  orphans-true, closed, woken, inherits, change, exited, exited-Slotwise, change_self, change_other,
  settled, settled_parent, settled_dead, settled_chan, settled_asleep, settled_parent_woken,
  settled_init_woken, settled_used,
}

module _ (cur : ℕ) (c : Proc) (t : Table) (ac : At t cur c) (v : IsSound t) where
  slot_fits : (j : ℕ) (q : Proc) → At t j q → j < nproc
  slot_fits j q a = omega (arith, get_elem?-lt t.procs j a, v.fits)

  change_parent :
      (j : ℕ) (q : Proc)
      → At t j q
      → (change cur c t j q).parent ≡ (if is_slot cur q.parent then some t.initproc else q.parent)
  change_parent j q a = elim (Bool-cases (j == cur)) [
    | inl e ↦
        let e' : j ≡ cur = ground arith in
        rw (e', change_self cur c t q (subst (λ k. k < nproc) e' (slot_fits j q a)))
          (settled_parent (inherits cur c t) cur t.initproc (parent_channel c.parent) (closed q))
    | inr e ↦
        rw (change_other cur c t j q (slot_fits j q a) (ground arith))
          (settled_parent (inherits cur c t) cur t.initproc (parent_channel c.parent) q)
  ]

  inherits-true :
      (j : ℕ) (q : Proc)
      → At t j q
      → j ≢ cur
      → q.state ≡ zombie
      → is_slot cur q.parent ≡ true
      → inherits cur c t ≡ true
  unfolding inherits wakeup1
  inherits-true j q a ne z child =
      orphans-true cur (woken cur c t) 0 nproc j (omega arith) (omega (arith, slot_fits j q a)) (
        rw
          (
            get-map (wake (parent_channel c.parent)) (modify cur closed t.procs) j,
            get-modify cur closed t.procs j,
            ne→== j cur ne,
            a,
          )
          (ground arith))

  -- a zombie child in the new table
  zombie_before :
      (i : ℕ) (p : Proc)
      → At t i p
      → i ≢ cur
      → p.chan ≡ of_proc i
      → p.state ≡ sleeping
      → (settled (inherits cur c t) (parent_channel c.parent) cur t.initproc p).state ≡ sleeping
      → (j : ℕ) (q : Proc) → At t j q
      → (change cur c t j q).state ≡ zombie
      → (change cur c t j q).parent ≡ some i
      → ⊥
  zombie_before i p a ne ch sl still j q b z par = elim (Bool-cases (is_slot cur q.parent)) [
    | inl child ↦
        let ii : t.initproc ≡ i = ground (arith, change_parent j q b) in
        elim (Bool-cases (j == cur)) [
          | inl e ↦ let e' : j ≡ cur = ground arith in v.no_self j q b (ground arith)
          | inr e ↦
              let d : q.state ≡ zombie =
                settled_dead (inherits cur c t) cur t.initproc (parent_channel c.parent) q
                  (rw (← change_other cur c t j q (slot_fits j q b) (ground arith)) z) in
              settled_init_woken (inherits cur c t) cur t.initproc (parent_channel c.parent) p
                (inherits-true j q b (ground arith) d child) still (rw ii ch)
        ]
    | inr child ↦
        let par' : q.parent ≡ some i = ground (arith, change_parent j q b) in
        elim (Bool-cases (j == cur)) [
          | inl e ↦
              let e' : j ≡ cur = ground arith in
              let qc : q ≡ c = (let b' : At t cur q = subst (λ k. At t k q) e' b in cc) in
              let pc : parent_channel c.parent ≡ of_proc i =
                ap parent_channel (ap (λ (x : Proc). x.parent) (sym qc) ∙ par') in
              settled_parent_woken (inherits cur c t) cur t.initproc i p
                (subst (λ h. (settled (inherits cur c t) h cur t.initproc p).state ≡ sleeping) pc
                  still)
                ch
          | inr e ↦
              let d : q.state ≡ zombie =
                settled_dead (inherits cur c t) cur t.initproc (parent_channel c.parent) q
                  (rw (← change_other cur c t j q (slot_fits j q b) (ground arith)) z) in
              v.no_lost i (p, a, sl, ch) (j, (q, b, d, par'))
        ]
  ]

  adopted_other :
      (j : ℕ) (q : Proc) → At t j q → q.parent ≢ some j → (change cur c t j q).parent ≢ some j
  adopted_other j q a h k = elim (Bool-cases (is_slot cur q.parent)) [
    | inl e ↦
        let (p, ai, par, _) = v.init in
        let ij : t.initproc ≡ j = ground (arith, change_parent j q a) in
        let a' : At t j p = subst (λ k. At t k p) ij ai in
        let pq : p ≡ q = cc in
        let none_here : q.parent ≡ none = ap (λ (x : Proc). x.parent) (sym pq) ∙ par in ground arith
    | inr e ↦ h (ground (arith, change_parent j q a))
  ]

  init_stays :
      cur ≢ t.initproc
      → (q : Proc) → At t t.initproc q
      → q.parent ≡ none
      → q.state ≢ unused
      → ((change cur c t t.initproc q).parent ≡ none)
        × ((change cur c t t.initproc q).state ≢ unused)
  init_stays ne q a par used = (
    ground (arith, change_parent t.initproc q a),
    rw (change_other cur c t t.initproc q (slot_fits t.initproc q a) (λ e. ne (sym e)))
        (settled_used (inherits cur c t) cur t.initproc (parent_channel c.parent) q used),
  )

  still_sound :
      (i : ℕ) (p : Proc)
      → At t i p
      → (change cur c t i p).state ≡ sleeping
      → (change cur c t i p).chan ≡ of_proc i
      → (j : ℕ) (q : Proc) → At t j q
      → (change cur c t j q).state ≡ zombie
      → (change cur c t j q).parent ≡ some i
      → ⊥
  still_sound i p a st ch j q b z par = elim (Bool-cases (i == cur)) [
    | inl e ↦
        let e' : i ≡ cur = ground arith in
        let lt = subst (λ k. k < nproc) e' (slot_fits i p a) in
        let d : zombie ≡ sleeping =
          ap (λ (x : Proc). x.state) (sym (change_self cur c t p lt))
          ∙ subst (λ k. (change cur c t k p).state ≡ sleeping) e' st in
        cc
    | inr e ↦
        let s = change_other cur c t i p (slot_fits i p a) (ground arith) in
        let st' : (settled (inherits cur c t) (parent_channel c.parent) cur t.initproc p).state
            ≡ sleeping =
          rw (← s) st in
        zombie_before i p a (ground arith)
          (sym (settled_chan (inherits cur c t) cur t.initproc (parent_channel c.parent) p)
            ∙ rw (← s) ch)
          (settled_asleep (inherits cur c t) cur t.initproc (parent_channel c.parent) p st') st' j q
          b z par
  ]

  exited-IsSound : cur ≢ t.initproc → IsSound (exited cur c t)
  exited-IsSound ne =
      keep_rest (change cur c t) t (exited cur c t) (exited-Slotwise cur c t) adopted_other
        (init_stays ne) v
        (λ i (p', a, st, ch) (j, (q', b, z, par)).
          let (p, a0, ep) =
            At-back (change cur c t) t (exited cur c t) i p' (exited-Slotwise cur c t) a in
          let (q, b0, eq) =
            At-back (change cur c t) t (exited cur c t) j q' (exited-Slotwise cur c t) b in
          still_sound i p a0 (rw (← ep) st) (rw (← ep) ch) j q b0 (rw (← eq) z) (rw (← eq) par))

-- `exit` by the process `c` in slot `cur`: init panics; any other leaves a sound table, in which it
-- is a zombie.
pub exit-IsSound :
    (cur : ℕ) (c : Proc) (t : Table)
    → At t cur c
    → IsSound t
    → ((cur ≡ t.initproc) × (exit cur c t ≡ panic))
      ⊎ ((t' : Table) × (calls : List Call) × (exit cur c t ≡ ok (t', calls))
          × IsSound t'
          × ((q : Proc) → At t' cur q → q.state ≡ zombie))
unfolding exit
exit-IsSound cur c t ac v = elim (Bool-cases (cur == t.initproc)) [
  | inl e ↦ inl (ground arith, rw e refl)
  | inr e ↦ inr (
    exited cur c t,
    close_calls c.ofile ++ opt_call iput c.cwd,
    rw e refl,
    exited-IsSound cur c t ac v (ground arith),
    λ q a.
        let (q0, a0, eq) =
          At-back (change cur c t) t (exited cur c t) cur q (exited-Slotwise cur c t) a in
        ap (λ (x : Proc). x.state) (eq ∙ change_self cur c t q0 (slot_fits cur c t ac v cur q0 a0)),
  )
]
