-- ===== src/Log/Atomic.antt =====
-- A transaction, from begin_trans to commit_trans, happens as a whole or not at all.
use fp_sisop20_f.Base.{
  ℕ, ◌+◌, ◌-◌, ◌<◌, ◌≤◌, ◌≡◌, refl, ◌∙◌, sym, subst, ◌⊎◌, inl, inr, List, [], ◌∷◌, arith, true,
  false, ◌||◌, leb, Bool-cases, update, update_ne, some, Result, ok, panic, ◌>>=◌, length,
  >>=-eq-ok,
}
use fp_sisop20_f.Log.{
  Block, Disk, Log, log_size, bwrite, modify, begin_trans, commit_trans, find_slot, log_slot,
  log_write,
}
use fp_sisop20_f.Log.Recovery.{All, SameHome, recovered, recovered-old}
use fp_sisop20_f.Log.Commit.{IsOpen, OldOrNew, Done, commit-Done, idle}
use fp_sisop20_f.Log.Write.{
  find_slot-Found, logged, slotted, logged_lem, slotted-IsOpen, Writes, write_all, transaction,
  written, AreHome,
}

log_write_cases :
    (b : ℕ) (c : Block) (l : Log)
    → (log_write b (modify b c l) ≡ panic)
      ⊎ ((l.n < log_size)
          × (log_write b (modify b c l) ≡ ok (logged b c (find_slot l.sector b 0 l.n) l)))
unfolding log_write logged modify
log_write_cases b c l = elim (Bool-cases (leb log_size l.n || leb (l.size - 1) l.n)) [
  | inl e ↦ inl (rw e refl)
  | inr e ↦ elim (Bool-cases l.busy) [
    | inl h ↦ inr (ground arith, rw (e, h) refl)
    | inr h ↦ inl (rw (e, h) refl)
  ]
]

-- what the writes of a transaction have done, in terms of the home blocks `old` before it
record Logged (old : Disk) (start : ℕ) (new : Disk) (l : Log) : Type 0 where
  unfinished : IsOpen l
  begins : l.start ≡ start
  untouched : SameHome start l.disk old
  cached : SameHome start l.cache new
  crashes : All (λ d. SameHome start (recovered start d) old) l.history

slotted-Logged :
    (old : Disk) (new : Disk) (b : ℕ) (c : Block) (l : Log)
    → Logged old l.start new l
    → b < l.start
    → l.n < log_size
    → Logged old l.start (update new b c) (slotted b c (find_slot l.sector b 0 l.n) l)
slotted-Logged old new b c l g lt room =
    let i = find_slot l.sector b 0 l.n in
    let d = update l.disk (l.start + i + 1) c in
    let f = find_slot-Found l.sector b 0 l.n l.n (omega arith) in
    let o = slotted-IsOpen b c i l g.unfinished f lt room in
    let same : SameHome l.start d old =
      λ a la. update_ne l.disk (l.start + i + 1) c a (omega arith) ∙ g.untouched a la in
    record {
      unfinished = o;
      begins = refl;
      untouched = same;
      cached = λ a la.
          update_ne (update l.cache b c) (l.start + i + 1) c a (omega arith)
          ∙ (unfold update in ground (arith, g.cached a la));
      crashes = (λ a la. recovered-old l.start d o.clear a la ∙ same a la, g.crashes);
    }

-- one write, at any name for where the log starts
step-Logged :
    (old new : Disk) (start b : ℕ) (c : Block) (l : Log)
    → Logged old start new l
    → b < start
    → l.n < log_size
    → Logged old start (update new b c) (slotted b c (find_slot l.sector b 0 l.n) l)
step-Logged old new start b c l g lt room =
    subst (λ s. Logged old s (update new b c) (slotted b c (find_slot l.sector b 0 l.n) l)) g.begins
      (slotted-Logged old new b c l (subst (λ s. Logged old s new l) (sym g.begins) g)
        (rw g.begins lt) room)

write_all-Logged :
    (old new : Disk) (start : ℕ) (ws : Writes) (l l' : Log)
    → Logged old start new l
    → AreHome start ws
    → write_all ws l ≡ ok l'
    → Logged old start (written ws new) l'
unfolding write_all
write_all-Logged old new start [] l l' g h e = subst (Logged old start new) (cc) g
write_all-Logged old new start ((b, c) ∷ ws) l l' g h e = elim (log_write_cases b c l) [
  | inl p ↦
      let q : panic ≡ ok l' = subst (λ (r : Result Log). (r >>= write_all ws) ≡ ok l') p e in
      absurd (cc)
  | inr (room, p) ↦
      let i = find_slot l.sector b 0 l.n in
      let q : write_all ws (logged b c i l) ≡ ok l' =
        subst (λ (r : Result Log). (r >>= write_all ws) ≡ ok l') p e in
      write_all-Logged old (update new b c) start ws (slotted b c i l) l'
        (step-Logged old new start b c l g h.0 room) h.1
        (subst (λ m. write_all ws m ≡ ok l') (logged_lem b c i l) q)
]

-- The log between two transactions.
pub record IsIdle (l : Log) : Type 0 where
  pub nothing : l.n ≡ 0
  pub consistent : IsOpen l
  pub crashless : l.history ≡ []

-- what a transaction leaves
pub record Atomic (ws : Writes) (l l' : Log) : Type 0 where
  pub complete : SameHome l.start l'.disk (written ws l.disk)
  pub crashes : All (OldOrNew l.start l.disk (written ws l.disk)) l'.history
  pub emptied : l'.n ≡ 0
  pub consistent : IsOpen l'
  pub free : l'.busy ≡ false

written-SameHome :
    (start : ℕ) (ws : Writes) (d e : Disk)
    → SameHome start d e
    → SameHome start (written ws d) (written ws e)
written-SameHome start [] d e h = h
written-SameHome start ((b, c) ∷ ws) d e h =
    written-SameHome start ws (update d b c) (update e b c)
      (λ a la. unfold update in ground (arith, h a la))

All-map : (P Q : Disk → Type 0) (ds : List Disk) → ((d : Disk) → P d → Q d) → All P ds → All Q ds
All-map P Q [] f h = h
All-map P Q (d ∷ ds) f (p, h) = (f d p, All-map P Q ds f h)

-- the commit at the end of a transaction
committed :
    (old new : Disk) (m : Log)
    → Logged old m.start new m
    → Done m (commit_trans m)
      × SameHome m.start (commit_trans m).disk new
      × All (OldOrNew m.start old new) (commit_trans m).history
committed old new m g =
    let d =
      commit-Done m g.unfinished
        (All-map _ _ m.history (λ e p. inl (λ a la. p a la ∙ sym (g.untouched a la))) g.crashes) in
    (
      d,
      λ a la. d.installed a la ∙ g.cached a la,
      All-map (OldOrNew m.start m.disk m.cache) (OldOrNew m.start old new) (commit_trans m).history
          settle d.crashes,
    )
  where
    settle : (e : Disk) → OldOrNew m.start m.disk m.cache e → OldOrNew m.start old new e
    settle e (inl p) = inl (λ a la. p a la ∙ g.untouched a la)
    settle e (inr p) = inr (λ a la. p a la ∙ g.cached a la)

begin : (l0 l : Log) → begin_trans l0 ≡ some l → l ≡ record l0 { busy = true }
unfolding begin_trans
begin l0 l e = ground arith

-- A transaction that begins on an idle log, writes home blocks and returns leaves all of its writes
-- on the disk, the log empty and free. A crash at any time before, between or after its disk writes
-- leaves, after recovery, either every home block as it was before the transaction, or every home
-- block as the transaction leaves it.
pub transaction-Atomic :
    (ws : Writes) (l0 l l' : Log)
    → IsIdle l0
    → AreHome l0.start ws
    → begin_trans l0 ≡ some l
    → transaction ws l ≡ ok l'
    → Atomic ws l0 l'
unfolding transaction
transaction-Atomic ws l0 l l' i h b t =
    let l1 = record l0 { busy = true } in
    let same : SameHome l0.start l0.cache l0.disk =
      λ a la. i.consistent.coherent a la (λ j z lj. absurd (omega (arith, i.nothing))) in
    let g : Logged l0.disk l0.start l0.cache l1 = record {
      unfinished = idle l0 i.consistent true;
      begins = refl;
      untouched = λ a la. refl;
      cached = λ a la. refl;
      crashes = rw i.crashless tt;
    } in
    finish g same (subst (λ m. transaction ws m ≡ ok l') (begin l0 l b) t)
  where
    asked_too :
        SameHome l0.start (written ws l0.cache) (written ws l0.disk)
        → (d : Disk) → OldOrNew l0.start l0.disk (written ws l0.cache) d
        → OldOrNew l0.start l0.disk (written ws l0.disk) d
    asked_too same d (inl p) = inl p
    asked_too same d (inr p) = inr (λ a la. p a la ∙ same a la)

    finish :
        Logged l0.disk l0.start l0.cache (record l0 { busy = true })
        → SameHome l0.start l0.cache l0.disk
        → transaction ws (record l0 { busy = true }) ≡ ok l'
        → Atomic ws l0 l'
    finish g same e =
        let (m, wrote, returned) = >>=-eq-ok (write_all ws (record l0 { busy = true })) _ e in
        let g' = write_all-Logged l0.disk l0.cache l0.start ws _ m g h wrote in
        let g'' : Logged l0.disk m.start (written ws l0.cache) m =
          subst (λ s. Logged l0.disk s (written ws l0.cache) m) (sym g'.begins) g' in
        let (d, whole, crashed) = committed l0.disk (written ws l0.cache) m g'' in
        let final : commit_trans m ≡ l' = cc in
        let asked = written-SameHome l0.start ws l0.cache l0.disk same in
        rw (← final) (record {
          complete = λ a la. whole a (rw g'.begins la) ∙ asked a la;
          crashes =
              All-map (OldOrNew l0.start l0.disk (written ws l0.cache))
                (OldOrNew l0.start l0.disk (written ws l0.disk)) (commit_trans m).history
                (λ x. asked_too asked x)
                (subst
                  (λ s. All (OldOrNew s l0.disk (written ws l0.cache)) (commit_trans m).history)
                  g'.begins crashed);
          emptied = d.empty;
          consistent = d.reopened;
          free = d.free;
        })

logged_more :
    (b : ℕ) (c : Block) (i : ℕ) (l : Log)
    → ((logged b c i l).n ≤ l.n + 1)
      × ((logged b c i l).size ≡ l.size)
      × ((logged b c i l).busy ≡ l.busy)
unfolding logged log_slot bwrite modify
logged_more b c i l = (ground arith, refl, refl)

one_fits :
    (b : ℕ) (c : Block) (l : Log)
    → l.busy ≡ true
    → l.n < log_size
    → l.n < l.size - 1
    → log_write b (modify b c l) ≡ ok (logged b c (find_slot l.sector b 0 l.n) l)
unfolding log_write logged modify
one_fits b c l busy h k =
    let e : (leb log_size l.n || leb (l.size - 1) l.n) ≡ false = ground arith in rw (e, busy)

write_all_fits :
    (ws : Writes) (l : Log)
    → l.busy ≡ true
    → l.n + length ws ≤ log_size
    → l.n + length ws ≤ l.size - 1
    → (l' : Log) × (write_all ws l ≡ ok l')
unfolding write_all
write_all_fits [] l b h k = (l, refl)
write_all_fits ((b, c) ∷ ws) l busy h k =
    let i = find_slot l.sector b 0 l.n in
    let (n, s, u) = logged_more b c i l in
    let (l', e) = write_all_fits ws (logged b c i l) (u ∙ busy) (omega arith) (omega arith) in
    (l', rw (one_fits b c l busy (omega arith) (omega arith)) e)

-- A transaction of as many writes as the log has slots does not panic.
pub transaction_fits :
    (ws : Writes) (l0 : Log)
    → IsIdle l0
    → l0.busy ≡ false
    → length ws ≤ log_size
    → length ws ≤ l0.size - 1
    → (l l' : Log) × (begin_trans l0 ≡ some l) × (transaction ws l ≡ ok l')
unfolding transaction begin_trans
transaction_fits ws l0 i b h k =
    let (m, e) =
      write_all_fits ws (record l0 { busy = true }) refl (omega (arith, i.nothing))
        (omega (arith, i.nothing)) in
    (record l0 { busy = true }, commit_trans m, rw b refl, rw e refl)
