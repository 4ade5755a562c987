-- ===== src/Log/Commit.antt =====
-- commit_trans is atomic: every disk that it leaves recovers to the old home blocks or to the new.
use fp_sisop20_f.Base.{
  ℕ, zero, suc, ◌+◌, ◌<◌, ◌≤◌, ◌≡◌, refl, ◌∙◌, sym, subst, ◌⊎◌, inl, inr, arith, Bool, false, ltb,
  Bool-cases, update, update_self, update_ne, copy_words_lem,
}
use fp_sisop20_f.Log.{
  Disk, Log, log_size, int_rounds, bwrite, modify, install, install_loop, install_trans, head_block,
  write_head, commit_trans,
}
use fp_sisop20_f.Log.Recovery.{
  All, SameHome, recovered, Unlisted, Committed, Installing, install_trans-Installing,
  recovered-new, recovered-old, write_head_disk, write_head_ne, rounds_small,
}

-- A transaction that is not committed: the log's slots on the disk hold what the cache has for the
-- blocks that they are for, and home blocks that are not logged are cached as they stand on disk.
pub record IsOpen (l : Log) : Type 0 where
  pub few : l.n ≤ log_size
  pub home : (j : ℕ) → j < l.n → l.sector j < l.start
  pub distinct : (j k : ℕ) → j < l.n → k < l.n → l.sector j ≡ l.sector k → j ≡ k
  pub logged : (j : ℕ) → j < l.n → l.disk (l.start + j + 1) ≡ l.cache (l.sector j)
  pub cached : (j : ℕ) → j < l.n → l.cache (l.start + j + 1) ≡ l.cache (l.sector j)
  pub coherent :
      (a : ℕ) → a < l.start → Unlisted l.start l.n l.sector l.cache 0 a → l.cache a ≡ l.disk a
  pub clear : l.disk l.start 0 ≡ 0

-- the two outcomes of a crash
abbrev pub OldOrNew : ℕ → Disk → Disk → Disk → Type 0
OldOrNew start old new d =
    SameHome start (recovered start d) old ⊎ SameHome start (recovered start d) new

head_count : (l : Log) → head_block l 0 ≡ l.n
head_count l =
    copy_words_lem (update (l.cache l.start) 0 l.n) 1 l.sector 0 (int_rounds l.n) 0
    ∙ ground (arith, update_self (l.cache l.start) 0 l.n)

head_listed : (l : Log) (j : ℕ) → l.n ≤ log_size → j < l.n → head_block l (1 + j) ≡ l.sector j
head_listed l j few lt =
    copy_words_lem (update (l.cache l.start) 0 l.n) 1 l.sector 0 (int_rounds l.n) (1 + j)
    ∙ ground (arith, rounds_small l.n few)

-- `write_head` is the commit.
write_head-Committed :
    (l : Log) → IsOpen l → Committed l.start l.n l.sector l.cache (write_head l).disk
write_head-Committed l o =
    let e = write_head_disk l in
    record {
      few = o.few;
      home = o.home;
      count = rw (e, update_self l.disk l.start (head_block l)) (head_count l);
      listed = λ j lt. rw (e, update_self l.disk l.start (head_block l)) (head_listed l j o.few lt);
      logged = λ j lt. write_head_ne l (l.start + j + 1) (omega arith) ∙ o.logged j lt;
      rest = λ a la u. write_head_ne l a (omega arith) ∙ sym (o.coherent a la u);
    }

write_head-Installing :
    (l : Log) → IsOpen l → Installing l.start l.n l.sector l.cache 0 (write_head l)
unfolding write_head bwrite modify
write_head-Installing l o =
    let c = write_head-Committed l o in
    record {
      committed = (unfold write_head bwrite modify in c);
      begins = refl;
      sectors = λ j lt. refl;
      cached = λ j lt.
          update_ne l.cache l.start (head_block l) (l.start + j + 1) (omega arith) ∙ o.cached j lt;
      done = c.rest;
      fresh = λ a la u. update_ne l.cache l.start (head_block l) a (omega arith);
    }

write_head_history :
    (P : Disk → Type 0) (l : Log)
    → P (write_head l).disk
    → All P l.history
    → All P (write_head l).history
unfolding write_head bwrite modify
write_head_history P l p h = (p, h)

-- The busy flag is no part of the invariant.
pub idle : (l : Log) → IsOpen l → (b : Bool) → IsOpen (record l { busy = b })
idle l o b = record {
  few = o.few;
  home = o.home;
  distinct = o.distinct;
  logged = o.logged;
  cached = o.cached;
  coherent = o.coherent;
  clear = o.clear;
}

-- what a commit leaves, in terms of the log `l` before it
pub record Done (l : Log) (l' : Log) : Type 0 where
  pub begins : l'.start ≡ l.start
  pub size : l'.size ≡ l.size
  pub empty : l'.n ≡ 0
  pub free : l'.busy ≡ false
  pub reopened : IsOpen l'
  pub installed : SameHome l.start l'.disk l.cache
  pub crashes : All (OldOrNew l.start l.disk l.cache) l'.history

abbrev emptied : Log → Log
emptied m = record m { n = 0 }

cleared : (m : Log) (s : ℕ) → m.start ≡ s → (write_head (emptied m)).disk s 0 ≡ 0
cleared m s e =
    subst (λ s'. (write_head (emptied m)).disk s' 0 ≡ 0) e
      (rw (write_head_disk (emptied m), update_self m.disk m.start (head_block (emptied m)))
        (head_count (emptied m)))

clearing :
    (l : Log) (m : Log)
    → Installing l.start l.n l.sector l.cache l.n m
    → All (OldOrNew l.start l.disk l.cache) m.history
    → m.size ≡ l.size
    → Done l (record (write_head (emptied m)) { busy = false })
unfolding write_head bwrite modify
clearing l m v h z =
    let all_done : (a : ℕ) → a < l.start → (write_head (emptied m)).disk a ≡ l.cache a = λ a la.
      write_head_ne (emptied m) a (rw v.begins (omega arith))
      ∙ v.done a la (λ j i k. absurd (omega arith)) in
    record {
      begins = v.begins;
      size = z;
      empty = refl;
      free = refl;
      reopened = record {
        few = omega arith;
        home = λ j lt. absurd (omega arith);
        distinct = λ j k lt. absurd (omega arith);
        logged = λ j lt. absurd (omega arith);
        cached = λ j lt. absurd (omega arith);
        coherent = λ a la u.
            update_ne m.cache m.start (head_block (emptied m)) a (omega arith)
            ∙ v.fresh a (rw v.begins at la) (λ j i k. absurd (omega arith))
            ∙ sym (all_done a (rw v.begins at la));
        clear = cleared m m.start refl;
      };
      installed = all_done;
      crashes = (
        inr (λ a la.
            recovered-old l.start (write_head (emptied m)).disk (cleared m l.start v.begins) a la
            ∙ all_done a la),
        h,
      );
    }

install_size : (tail k : ℕ) (l : Log) → (install_loop tail k l).size ≡ l.size
unfolding install_loop install bwrite modify
install_size tail zero l = refl
install_size tail (suc k) l = install_size (tail + 1) k (install tail l)

committed_size : (l : Log) → (install_trans (write_head l)).size ≡ l.size
unfolding install_trans write_head bwrite modify
committed_size l = install_size 0 (int_rounds l.n) (write_head l)

-- `commit_trans` ends with the whole transaction on the disk and an empty log; and a crash after
-- any of its writes, or before them, leaves after recovery either the home blocks from before the
-- transaction or all of the transaction's.
pub commit-Done :
    (l : Log) → IsOpen l → All (OldOrNew l.start l.disk l.cache) l.history → Done l (commit_trans l)
unfolding commit_trans
commit-Done l o h = elim (Bool-cases (ltb 0 (int_rounds l.n))) [
  | inl e ↦
      let c = write_head-Committed l o in
      let (v, hs) =
        install_trans-Installing l.start l.n l.sector l.cache (OldOrNew l.start l.disk l.cache)
          (write_head l) (λ d cd. inr (recovered-new l.start l.n l.sector l.cache d cd))
          (unfold write_head bwrite modify in refl) (write_head-Installing l o)
          (write_head_history _ l (inr (recovered-new l.start l.n l.sector l.cache _ c)) h) in
      rw e (clearing l (install_trans (write_head l)) v hs (committed_size l))
  | inr e ↦ rw e (record {
    begins = refl;
    size = refl;
    empty = ground (arith, rounds_small l.n o.few);
    free = refl;
    reopened = idle l o false;
    installed = λ a la.
        let z : l.n ≡ 0 = ground (arith, rounds_small l.n o.few) in
        sym (o.coherent a la (λ j i k. absurd (omega arith)));
    crashes = h;
  })
]
