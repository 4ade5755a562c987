-- ===== src/Proc/Exit.antt =====
-- What exit makes of each slot of the process table.
use mathlib.Core.Option
use fp_sisop20_f.Base.{
  ℕ, zero, suc, ◌+◌, ◌<◌, ◌≤◌, ◌≡◌, ◌≢◌, refl, ◌∙◌, ap, inl, inr, Bool, true, ◌&&◌, none, some,
  List, map, arith, ltb, leb, ◌==◌, if◌then◌else◌, Bool-cases, get_elem?, ==_refl, ne→==,
}
use fp_sisop20_f.Proc.{
  Proc, Table, unused, sleeping, zombie, of_proc, modify, nproc, Channel, wake, wakeup1, is_slot,
  parent_channel, adopted, pass_children, orphan_at,
}
use fp_sisop20_f.Proc.Lookup.{get-map, length-map, length-modify, get-modify, opt_if, opt_comp}
use fp_sisop20_f.Proc.Orphans.{orphans, wake_if, passed, get-pass_children, length-pass_children}
use fp_sisop20_f.Proc.Wakeups.{Slotwise, at_slot}

pub orphans-true :
    (cur : ℕ) (ps : List Proc) (i k j : ℕ)
    → i ≤ j
    → j < i + k
    → orphan_at cur (get_elem? ps j) ≡ true
    → orphans cur ps i k ≡ true
unfolding orphans
orphans-true cur ps i zero j lo hi o = absurd (omega arith)
orphans-true cur ps i (suc k) j lo hi o = elim (Bool-cases (j == i)) [
  | inl e ↦ (let e' : j ≡ i = ground arith in rw (← e', o) refl)
  | inr e ↦ rw (orphans-true cur ps (i + 1) k j (ground arith) (omega arith) o) (ground arith)
]

abbrev pub closed : Proc → Proc
closed p = record p { ofile = map (λ _. none) p.ofile; cwd = none }

abbrev pub dead : Proc → Proc
dead p = record p { state = zombie }

-- the table when the parent has been woken
abbrev pub woken : ℕ → Proc → Table → List Proc
woken cur c t = wakeup1 (parent_channel c.parent) (modify cur closed t.procs)

-- whether init inherits a zombie
unfoldable pub inherits : ℕ → Proc → Table → Bool
inherits cur c t = orphans cur (woken cur c t) 0 nproc

-- what `exit` makes of a process in slot `j`
unfoldable pub change : ℕ → Proc → Table → ℕ → Proc → Proc
unfolding at_slot inherits
change cur c t j p = at_slot cur dead j (
    passed cur t.initproc (inherits cur c t) 0 nproc j
      (wake (parent_channel c.parent) (at_slot cur closed j p)))

abbrev pub exited : ℕ → Proc → Table → Table
exited cur c t = record t {
  procs = modify cur dead (pass_children cur t.initproc 0 nproc (woken cur c t));
}

pub exited-Slotwise :
    (cur : ℕ) (c : Proc) (t : Table) → Slotwise (change cur c t) t (exited cur c t)
unfolding change wakeup1
exited-Slotwise cur c t = record {
  slots = λ j.
      get-modify cur dead _ j
      ∙ opt_if (j == cur) dead _
      ∙ ap (Option.map (at_slot cur dead j)) (
          get-pass_children cur t.initproc 0 nproc (woken cur c t) j
          ∙ ap (Option.map (passed cur t.initproc (inherits cur c t) 0 nproc j)) (
              get-map (wake (parent_channel c.parent)) (modify cur closed t.procs) j
              ∙ ap (Option.map (wake (parent_channel c.parent)))
                  (get-modify cur closed t.procs j ∙ opt_if (j == cur) closed _)))
      ∙ opt_comp _ _ _ (λ p. refl)
          (Option.map (wake (parent_channel c.parent))
            (Option.map (at_slot cur closed j) (get_elem? t.procs j)))
      ∙ opt_comp _ _ _ (λ p. refl) (Option.map (at_slot cur closed j) (get_elem? t.procs j))
      ∙ opt_comp _ _ (change cur c t j) (λ p. refl) (get_elem? t.procs j);
  same_init = refl;
  same_length =
      length-modify cur dead _
      ∙ length-pass_children cur t.initproc 0 nproc (woken cur c t)
      ∙ length-map _ (modify cur closed t.procs)
      ∙ length-modify cur closed t.procs;
}

-- the two kinds of slot
pub change_self :
    (cur : ℕ) (c : Proc) (t : Table) (p : Proc)
    → cur < nproc
    → change cur c t cur p
      ≡ dead (
          wake_if
            (inherits cur c t)
            t.initproc
            (adopted cur t.initproc (wake (parent_channel c.parent) (closed p))))
unfolding change at_slot
change_self cur c t p lt =
    let e : (leb 0 cur && ltb cur (0 + nproc)) ≡ true = ground arith in rw (==_refl cur, e) refl

pub change_other :
    (cur : ℕ) (c : Proc) (t : Table) (j : ℕ) (p : Proc)
    → j < nproc
    → j ≢ cur
    → change cur c t j p
      ≡ wake_if
          (inherits cur c t)
          t.initproc
          (adopted cur t.initproc (wake (parent_channel c.parent) p))
unfolding change at_slot
change_other cur c t j p lt ne =
    let e : (leb 0 j && ltb j (0 + nproc)) ≡ true = ground arith in rw (ne→== j cur ne, e) refl

-- a process that is woken, adopted and woken again
abbrev pub settled : Bool → Channel → ℕ → ℕ → Proc → Proc
settled b chan cur init p = wake_if b init (adopted cur init (wake chan p))

module _ (b : Bool) (cur init : ℕ) where
  pub settled_parent :
      (chan : Channel) (p : Proc)
      → (settled b chan cur init p).parent ≡ (if is_slot cur p.parent then some init else p.parent)
  settled_parent chan p = ground arith

  pub settled_dead :
      (chan : Channel) (p : Proc) → (settled b chan cur init p).state ≡ zombie → p.state ≡ zombie
  settled_dead chan p h = ground arith

  pub settled_chan : (chan : Channel) (p : Proc) → (settled b chan cur init p).chan ≡ p.chan
  settled_chan chan p = ground arith

  pub settled_asleep :
      (chan : Channel) (p : Proc)
      → (settled b chan cur init p).state ≡ sleeping
      → p.state ≡ sleeping
  settled_asleep chan p h = ground arith

  -- what still sleeps was not waited for by the dying process
  pub settled_parent_woken :
      (i : ℕ) (p : Proc) → (settled b (of_proc i) cur init p).state ≡ sleeping → p.chan ≢ of_proc i
  settled_parent_woken i p h e = ground arith

  pub settled_init_woken :
      (chan : Channel) (p : Proc)
      → b ≡ true
      → (settled b chan cur init p).state ≡ sleeping
      → p.chan ≢ of_proc init
  settled_init_woken chan p t h e = ground arith

  pub settled_used :
      (chan : Channel) (p : Proc) → p.state ≢ unused → (settled b chan cur init p).state ≢ unused
  settled_used chan p h = ground arith
