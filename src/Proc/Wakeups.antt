-- ===== src/Proc/Wakeups.antt =====
-- No process sleeps in wait for ever while a child of its is a zombie: what every table must keep.
use mathlib.Core.Option
use fp_sisop20_f.Base.{
  ℕ, ◌≤◌, ◌≡◌, ◌≢◌, refl, ◌∙◌, ap, sym, ◌⊎◌, inl, inr, none, some, arith, ◌==◌, if◌then◌else◌,
  Bool-cases, Option-cases, get_elem?, length,
}
use fp_sisop20_f.Proc.{Proc, Table, unused, sleeping, zombie, of_proc, modify, nproc}
use fp_sisop20_f.Proc.Lookup.{get-modify, length-modify, opt_if}

-- the process in a slot
abbrev pub At : Table → ℕ → Proc → Type 0
At t i p = get_elem? t.procs i ≡ some p

-- The process in slot `i` sleeps in `wait`.
abbrev pub Waits : Table → ℕ → Type 0
Waits t i = (p : Proc) × At t i p × (p.state ≡ sleeping) × (p.chan ≡ of_proc i)

-- It has a zombie child.
abbrev pub HasZombie : Table → ℕ → Type 0
HasZombie t i = (j : ℕ) × ((q : Proc) × At t j q × (q.state ≡ zombie) × (q.parent ≡ some i))

pub record IsSound (t : Table) : Type 0 where
  pub fits : length t.procs ≤ nproc
  pub no_self : (i : ℕ) (p : Proc) → At t i p → p.parent ≢ some i
  pub init : (p : Proc) × At t t.initproc p × (p.parent ≡ none) × (p.state ≢ unused)
  pub no_lost : (i : ℕ) → Waits t i → HasZombie t i → ⊥

-- Each slot of `t'` is its slot of `t`, changed by `f`.
pub record Slotwise (f : ℕ → Proc → Proc) (t t' : Table) : Type 0 where
  pub slots : (j : ℕ) → get_elem? t'.procs j ≡ Option.map (f j) (get_elem? t.procs j)
  pub same_init : t'.initproc ≡ t.initproc
  pub same_length : length t'.procs ≡ length t.procs

-- A change that is harmless in slot `j`.
pub record IsCalm (j : ℕ) (q q' : Proc) : Type 0 where
  pub sleeps :
      q'.state ≡ sleeping
      → ((q.state ≡ sleeping) × (q'.chan ≡ q.chan)) ⊎ ((i : ℕ) → q'.chan ≢ of_proc i)
  pub dies : q'.state ≡ zombie → (q.state ≡ zombie) × (q'.parent ≡ q.parent)
  pub adopts : q.parent ≢ some j → q'.parent ≢ some j
  pub stays : q.parent ≡ none → q.state ≢ unused → (q'.parent ≡ none) × (q'.state ≢ unused)

pub At-back :
    (f : ℕ → Proc → Proc) (t t' : Table) (j : ℕ) (q' : Proc)
    → Slotwise f t t'
    → At t' j q'
    → (q : Proc) × At t j q × (q' ≡ f j q)
At-back f t t' j q' s a = elim (Option-cases (get_elem? t.procs j)) [
  | inl e ↦ let n : get_elem? t'.procs j ≡ none = s.slots j ∙ ap (Option.map (f j)) e in absurd (cc)
  | inr (q, e) ↦
      let n : get_elem? t'.procs j ≡ some (f j q) = s.slots j ∙ ap (Option.map (f j)) e in
      (q, e, cc)
]

pub At-forth :
    (f : ℕ → Proc → Proc) (t t' : Table) (j : ℕ) (q : Proc)
    → Slotwise f t t'
    → At t j q
    → At t' j (f j q)
At-forth f t t' j q s a = s.slots j ∙ ap (Option.map (f j)) a

-- what of soundness does not speak of sleep: kept by changes that satisfy the last two conditions
pub keep_rest :
    (f : ℕ → Proc → Proc) (t t' : Table)
    → Slotwise f t t'
    → ((j : ℕ) (q : Proc) → At t j q → q.parent ≢ some j → (f j q).parent ≢ some j)
    → ((q : Proc)
        → At t t.initproc q
        → q.parent ≡ none
        → q.state ≢ unused
        → ((f t.initproc q).parent ≡ none) × ((f t.initproc q).state ≢ unused))
    → IsSound t
    → ((i : ℕ) → Waits t' i → HasZombie t' i → ⊥)
    → IsSound t'
keep_rest f t t' s adopts stays v lost =
    let (p, a, par, st) = v.init in
    record {
      fits = rw s.same_length v.fits;
      no_self = λ i q' a' e.
          let (q, b, eq) = At-back f t t' i q' s a' in adopts i q b (v.no_self i q b) (rw (← eq) e);
      init = rw s.same_init (
          let (par', st') = stays p a par st in
          (f t.initproc p, At-forth f t t' t.initproc p s a, par', st'));
      no_lost = lost;
    }

pub calm-IsSound :
    (f : ℕ → Proc → Proc) (t t' : Table)
    → Slotwise f t t'
    → ((j : ℕ) (q : Proc) → At t j q → IsCalm j q (f j q))
    → IsSound t
    → IsSound t'
calm-IsSound f t t' s calm v =
    keep_rest f t t' s (λ j q a. (calm j q a).adopts) (λ q a. (calm t.initproc q a).stays) v lost
  where
    slept :
        (i : ℕ) (p : Proc)
        → (((p.state ≡ sleeping) × ((f i p).chan ≡ p.chan)) ⊎ ((k : ℕ) → (f i p).chan ≢ of_proc k))
        → (f i p).chan ≡ of_proc i
        → At t i p
        → HasZombie t i
        → ⊥
    slept i p (inl (st, same)) ch a h = v.no_lost i (p, a, st, sym same ∙ ch) h
    slept i p (inr other) ch a h = other i ch

    lost : (i : ℕ) → Waits t' i → HasZombie t' i → ⊥
    lost i (p', a, st, ch) (j, (q', b, z, par)) =
        let (p, a0, ep) = At-back f t t' i p' s a in
        let (q, b0, eq) = At-back f t t' j q' s b in
        let (z0, par0) = (calm j q b0).dies (rw (← eq) z) in
        let child : q.parent ≡ some i = sym par0 ∙ rw (← eq) par in
        slept i p ((calm i p a0).sleeps (rw (← ep) st)) (rw (← ep) ch) a0 (j, (q, b0, z0, child))

-- one slot changed
unfoldable pub at_slot : ℕ → (Proc → Proc) → ℕ → Proc → Proc
at_slot i f j p = if j == i then f p else p

pub modify-Slotwise :
    (i : ℕ) (f : Proc → Proc) (t t' : Table)
    → t'.procs ≡ modify i f t.procs
    → t'.initproc ≡ t.initproc
    → Slotwise (at_slot i f) t t'
unfolding at_slot
modify-Slotwise i f t t' e h = record {
  slots = λ j. ap (λ ps. get_elem? ps j) e ∙ get-modify i f t.procs j ∙ opt_if (j == i) f _;
  same_init = h;
  same_length = ap length e ∙ length-modify i f t.procs;
}

unchanged : (j : ℕ) (q : Proc) → IsCalm j q q
unchanged j q = record {
  sleeps = λ s. inl (s, refl);
  dies = λ z. (z, refl);
  adopts = λ h. h;
  stays = λ p s. (p, s);
}

-- A change of one slot is harmless if it is harmless there.
pub modify-IsSound :
    (i : ℕ) (f : Proc → Proc) (t t' : Table)
    → t'.procs ≡ modify i f t.procs
    → t'.initproc ≡ t.initproc
    → ((q : Proc) → At t i q → IsCalm i q (f q))
    → IsSound t
    → IsSound t'
unfolding at_slot
modify-IsSound i f t t' e h calm v =
    calm-IsSound (at_slot i f) t t' (modify-Slotwise i f t t' e h) each v
  where
    each : (j : ℕ) (q : Proc) → At t j q → IsCalm j q (at_slot i f j q)
    each j q a = elim (Bool-cases (j == i)) [
      | inl b ↦ let b' : j ≡ i = ground arith in rw (b, b') (calm q (rw (← b') a))
      | inr b ↦ rw b (unchanged j q)
    ]
