-- ===== src/Spinlock/Exclusion.antt =====
-- Any number of CPUs that call acquire and release on one lock. A step is what a call does between two
-- accesses to the lock that others can see: its test of `holding`, each exchange of the lock word, and the
-- fields that are written behind or before it.
use fp_sisop20_f.Base.{
  ℕ, ◌≡◌, ◌≢◌, ◌⊎◌, inl, inr, refl, ap, ok, Bool-cases, Bool, true, false, arith, update, List,
  Option, some, none,
}
use fp_sisop20_f.Spinlock.{
  Cpu, acquire, acquire_round, release, Lock, holding, is_cpu, exchanged, recorded, cleared, freed,
}

-- where a CPU stands: outside; in the loop of `acquire`; behind the exchange that took the lock; behind
-- `acquire`; in `release`, before its exchange
pub data Place : Type 0 where
  outside spinning taking inside leaving : Place

abbrev pub is_past : Place → Bool
is_past outside = false
is_past spinning = false
is_past _ = true

pub record Machine : Type 0 where
  pub lock : Lock
  pub place : ℕ → Place

abbrev pub at : Machine → ℕ → Place → Lock → Machine
at m i p lk = record { lock = lk; place = update m.place i p }

-- Any CPU that is in neither function may call either, and goes on if the call does not panic; a round of
-- `acquire` ends its loop or not.
pub data Step (m : Machine) : Machine → Type 0 where
  acquires :
      (i : ℕ) (pcs : List ℕ) (c : Cpu) (r : Option (Cpu × Lock))
      → (m.place i ≡ outside) ⊎ (m.place i ≡ inside)
      → acquire i pcs c m.lock ≡ ok r
      → Step m (at m i spinning m.lock)
  spins :
      (i : ℕ) (pcs : List ℕ)
      → m.place i ≡ spinning
      → acquire_round i pcs m.lock ≡ none
      → Step m (record m { lock = exchanged m.lock })
  takes :
      (i : ℕ) (pcs : List ℕ) (lk : Lock)
      → m.place i ≡ spinning
      → acquire_round i pcs m.lock ≡ some lk
      → Step m (at m i taking (exchanged m.lock))
  records :
      (i : ℕ) (pcs : List ℕ) → m.place i ≡ taking → Step m (at m i inside (recorded i pcs m.lock))
  releases :
      (i : ℕ) (c : Cpu) (r : Cpu × Lock)
      → (m.place i ≡ outside) ⊎ (m.place i ≡ inside)
      → release i c m.lock ≡ ok r
      → Step m (at m i leaving (cleared m.lock))
  frees : (i : ℕ) → m.place i ≡ leaving → Step m (at m i outside (freed m.lock))

pub data Reaches (s : Machine) : Machine → Type 0 where
  here : Reaches s s
  next : {m n : Machine} → Reaches s m → Step m n → Reaches s n

-- At most one CPU is past its exchange, the lock word is set then, and the holder's number is that of
-- the CPU inside: who is inside holds the lock.
pub record IsExclusive (m : Machine) : Type 0 where
  pub one : (i j : ℕ) → is_past (m.place i) ≡ true → is_past (m.place j) ≡ true → i ≡ j
  pub held : (i : ℕ) → is_past (m.place i) ≡ true → m.lock.locked ≡ true
  pub holder : (i : ℕ) → is_cpu i m.lock.cpu ≡ true → m.place i ≡ inside
  pub known : (i : ℕ) → m.place i ≡ inside → is_cpu i m.lock.cpu ≡ true

-- What the code has tested where a call goes on.
acquire-ok :
    (i : ℕ) (pcs : List ℕ) (c : Cpu) (lk : Lock) (r : Option (Cpu × Lock))
    → acquire i pcs c lk ≡ ok r
    → holding i lk ≡ false
unfolding acquire
acquire-ok i pcs c lk r e = elim (Bool-cases (holding i lk)) [
  | inl h ↦ absurd (let q = rw h at e in cc)
  | inr h ↦ h
]

release-ok :
    (i : ℕ) (c : Cpu) (lk : Lock) (r : Cpu × Lock) → release i c lk ≡ ok r → holding i lk ≡ true
unfolding release
release-ok i c lk r e = elim (Bool-cases (holding i lk)) [
  | inl h ↦ h
  | inr h ↦ absurd (let q = rw h at e in cc)
]

acquire_round-none :
    (i : ℕ) (pcs : List ℕ) (lk : Lock) → acquire_round i pcs lk ≡ none → lk.locked ≡ true
unfolding acquire_round
acquire_round-none i pcs lk e = elim (Bool-cases lk.locked) [
  | inl l ↦ l
  | inr l ↦ absurd (let q = rw l at e in cc)
]

acquire_round-some :
    (i : ℕ) (pcs : List ℕ) (lk lk' : Lock) → acquire_round i pcs lk ≡ some lk' → lk.locked ≡ false
unfolding acquire_round
acquire_round-some i pcs lk lk' e = elim (Bool-cases lk.locked) [
  | inl l ↦ absurd (let q = rw l at e in cc)
  | inr l ↦ l
]

Step-IsExclusive : {m n : Machine} → Step m n → IsExclusive m → IsExclusive n
unfolding update holding
Step-IsExclusive {m} (acquires i pcs c r (inl p) h) v = record {
  one = λ j k a b. ground (arith, v.one j k);
  held = λ j a. ground (arith, v.held j);
  holder = λ j a. ground (arith, v.holder j a);
  known = λ j a. ground (arith, v.known j);
}
Step-IsExclusive {m} (acquires i pcs k r (inr p) e) v =
    let h = acquire-ok i pcs k m.lock r e in
    let l : m.lock.locked ≡ true = v.held i (ap is_past p) in let c = v.known i p in absurd (cc)
Step-IsExclusive {m} (spins i pcs p e) v = record {
  one = v.one;
  held = λ j a. refl;
  holder = v.holder;
  known = v.known;
}
Step-IsExclusive {m} (takes i pcs lk p e) v =
    let l = acquire_round-some i pcs m.lock lk e in
    record {
      one = λ j k a b. ground (arith, v.held j, v.held k);
      held = λ j a. refl;
      holder = λ j a. ground (arith, v.holder j a, v.held j);
      known = λ j a. ground (arith, v.known j);
    }
Step-IsExclusive {m} (records i pcs p) v = record {
  one = λ j k a b. ground (arith, v.one j k, v.one i k, v.one j i);
  held = λ j a. ground (arith, v.held i, v.held j);
  holder = λ j a. ground arith;
  known = λ j a. ground (arith, v.one j i);
}
Step-IsExclusive {m} (releases i k r p e) v =
    let h = release-ok i k m.lock r e in
    record {
      one = λ j k a b. ground (arith, v.one j k, v.one i k, v.one j i, v.holder i);
      held = λ j a. ground (arith, v.held i, v.held j, v.holder i);
      holder = λ j a. absurd (cc);
      known = λ j a. ground (arith, v.one j i, v.holder i);
    }
Step-IsExclusive {m} (frees i p) v = record {
  one = λ j k a b. ground (arith, v.one j k, v.one i k, v.one j i);
  held = λ j a. ground (arith, v.one i j);
  holder = λ j a. ground (arith, v.holder j a);
  known = λ j a. ground (arith, v.known j);
}

Reaches-IsExclusive : {s m : Machine} → IsExclusive s → Reaches s m → IsExclusive m
Reaches-IsExclusive v here = v
Reaches-IsExclusive v (next r st) = Step-IsExclusive st (Reaches-IsExclusive v r)

-- From a lock that records no holder, with all CPUs outside of acquire and release, in any
-- interleaving in which any CPU may call acquire or release: no two different CPUs are inside, that is,
-- behind an acquire and before the release.
pub mutual_exclusion :
    {s m : Machine} (i j : ℕ)
    → s.lock.cpu ≡ none
    → ((k : ℕ) → s.place k ≡ outside)
    → Reaches s m
    → i ≢ j
    → ¬ ((m.place i ≡ inside) × (m.place j ≡ inside))
mutual_exclusion {s} {m} i j f o r ne (a, b) =
    let start : IsExclusive s = record {
      one = λ k l x y. absurd (let p = o k in cc);
      held = λ k x. absurd (let p = o k in cc);
      holder = λ k x. absurd (let c = ap (is_cpu k) f in cc);
      known = λ k x. absurd (let p = o k in cc);
    } in
    ne ((Reaches-IsExclusive start r).one i j (ap is_past a) (ap is_past b))
