-- ===== src/Log/Recovery.antt =====
-- What recovery makes of the disk that a crash left.
use fp_sisop20_f.Base.{
  Bool-cases, subst, ℕ, zero, suc, ◌+◌, ◌<◌, ◌≤◌, ◌≡◌, ◌≢◌, refl, ◌∙◌, ap, sym, inl, inr, List, [],
  ◌∷◌, arith, ◌==◌, update, update_self, update_ne, copy_words_lem,
}
use fp_sisop20_f.Log.{
  Disk, Log, log_size, int_rounds, bwrite, modify, install, install_loop, install_trans, read_head,
  head_block, write_head, recover_from_log, boot,
}

-- what holds of every disk of a history
abbrev pub All : (Disk → Type 0) → List Disk → Type 0
All P [] = Unit
All P (d ∷ ds) = P d × All P ds

-- Two disks have the same blocks before the log, which starts at `start`.
abbrev pub SameHome : ℕ → Disk → Disk → Type 0
SameHome start d e = (a : ℕ) → a < start → d a ≡ e a

-- the disk after a reboot, when `initlog` has recovered from a log that starts at `start`
abbrev pub recovered : ℕ → Disk → Disk
recovered start d = (recover_from_log (record (boot d) { start = start })).disk

pub rounds_small : (n : ℕ) → n ≤ log_size → int_rounds n ≡ n
rounds_small n h = ground arith

-- what `write_head` writes, and where
pub write_head_disk : (l : Log) → (write_head l).disk ≡ update l.disk l.start (head_block l)
unfolding write_head bwrite modify
write_head_disk l = rw (update_self l.cache l.start (head_block l))

pub write_head_ne : (l : Log) (a : ℕ) → a ≢ l.start → (write_head l).disk a ≡ l.disk a
write_head_ne l a h = rw (write_head_disk l) (update_ne l.disk l.start (head_block l) a h)

-- The parameters: where the log starts, how many blocks it lists and which, and the home blocks
-- that they lead to.
module _ (start n : ℕ) (sector : ℕ → ℕ) (new : Disk) where
  -- `a` is none of the blocks listed from slot `i` on.
  abbrev pub Unlisted : ℕ → ℕ → Type 0
  Unlisted i a = (j : ℕ) → i ≤ j → j < n → sector j ≢ a

  -- a disk with the commit record: the log leads to `new`
  pub record Committed (d : Disk) : Type 0 where
    pub few : n ≤ log_size
    pub home : (j : ℕ) → j < n → sector j < start
    pub count : d start 0 ≡ n
    pub listed : (j : ℕ) → j < n → d start (1 + j) ≡ sector j
    pub logged : (j : ℕ) → j < n → d (start + j + 1) ≡ new (sector j)
    pub rest : (a : ℕ) → a < start → Unlisted 0 a → d a ≡ new a

  -- an installation of which the slots before `i` are done
  pub record Installing (i : ℕ) (l : Log) : Type 0 where
    pub committed : Committed l.disk
    pub begins : l.start ≡ start
    pub sectors : (j : ℕ) → j < n → l.sector j ≡ sector j
    pub cached : (j : ℕ) → j < n → l.cache (start + j + 1) ≡ new (sector j)
    pub done : (a : ℕ) → a < start → Unlisted i a → l.disk a ≡ new a
    pub fresh : (a : ℕ) → a < start → Unlisted i a → l.cache a ≡ new a

  Committed-update :
      (d : Disk) (i : ℕ) → i < n → Committed d → Committed (update d (sector i) (new (sector i)))
  Committed-update d i lt c =
      let b = new (sector i) in
      let h = c.home i lt in
      record {
        few = c.few;
        home = c.home;
        count = rw (update_ne d (sector i) b start (omega arith)) c.count;
        listed = λ j l. rw (update_ne d (sector i) b start (omega arith)) (c.listed j l);
        logged = λ j l. rw (update_ne d (sector i) b (start + j + 1) (omega arith)) (c.logged j l);
        rest =
            λ a l u. update_ne d (sector i) b a (λ e. u i (omega arith) lt (sym e)) ∙ c.rest a l u;
      }

  install_disk :
      (l : Log) (i : ℕ)
      → i < n
      → Installing i l
      → (install i l).disk ≡ update l.disk (sector i) (new (sector i))
  unfolding install bwrite modify
  install_disk l i lt v =
      rw (v.sectors i lt, v.begins, v.cached i lt, update_self l.cache (sector i) (new (sector i)))

  install_cache :
      (l : Log) (i : ℕ)
      → i < n
      → Installing i l
      → (install i l).cache ≡ update l.cache (sector i) (new (sector i))
  unfolding install bwrite modify
  install_cache l i lt v = rw (v.sectors i lt, v.begins, v.cached i lt)

  one_more :
      (f : Disk) (i : ℕ)
      → ((a : ℕ) → a < start → Unlisted i a → f a ≡ new a)
      → (a : ℕ) → a < start
      → Unlisted (i + 1) a
      → update f (sector i) (new (sector i)) a ≡ new a
  one_more f i h a la u = elim (Bool-cases (a == sector i)) [
    | inl e ↦
        let e' : a ≡ sector i = ground arith in rw e' (update_self f (sector i) (new (sector i)))
    | inr e ↦
        update_ne f (sector i) (new (sector i)) a (ground arith)
        ∙ h a la (λ j ij jn. elim (Bool-cases (j == i)) [
          | inl g ↦ (let g' : j ≡ i = ground arith in rw g' (λ q. ground arith))
          | inr g ↦ u j (ground arith) jn
        ])
  ]

  install-Installing : (l : Log) (i : ℕ) → i < n → Installing i l → Installing (i + 1) (install i l)
  install-Installing l i lt v =
      let b = new (sector i) in
      let h = v.committed.home i lt in
      record {
        committed = rw (install_disk l i lt v) (Committed-update l.disk i lt v.committed);
        begins = (unfold install bwrite modify in v.begins);
        sectors = (unfold install bwrite modify in v.sectors);
        cached = λ j lj.
            rw
              (install_cache l i lt v, update_ne l.cache (sector i) b (start + j + 1) (omega arith))
              (v.cached j lj);
        done = λ a la u. rw (install_disk l i lt v) (one_more l.disk i v.done a la u);
        fresh = λ a la u. rw (install_cache l i lt v) (one_more l.cache i v.fresh a la u);
      }

  install_history :
      (P : Disk → Type 0) (l : Log) (i : ℕ)
      → P (install i l).disk
      → All P l.history
      → All P (install i l).history
  unfolding install bwrite modify
  install_history P l i p h = (p, h)

  -- The loop ends with the home blocks installed, and every disk on the way is still committed.
  pub install_loop-Installing :
      (P : Disk → Type 0) (k i : ℕ) (l : Log)
      → ((d : Disk) → Committed d → P d)
      → i + k ≡ n
      → Installing i l
      → All P l.history
      → Installing n (install_loop i k l) × All P (install_loop i k l).history
  unfolding install_loop
  install_loop-Installing P zero i l imp e v h =
      (subst (λ (t : ℕ). Installing t l) (omega arith) v, h)
  install_loop-Installing P (suc k) i l imp e v h =
      let v' = install-Installing l i (omega arith) v in
      install_loop-Installing P k (i + 1) (install i l) imp (omega arith) v'
        (install_history P l i (imp _ v'.committed) h)

  reading : (d : Disk) → Committed d → Installing 0 (read_head (record (boot d) { start = start }))
  unfolding read_head
  reading d c = record {
    committed = c;
    begins = refl;
    sectors = λ j lt.
        rw (c.count, rounds_small n c.few)
          (copy_words_lem (λ _. 0) 0 (d start) 1 n j ∙ ground (arith, c.listed j lt));
    cached = c.logged;
    done = c.rest;
    fresh = c.rest;
  }

  -- `install_trans` at a header of `n` slots
  pub install_trans-Installing :
      (P : Disk → Type 0) (l : Log)
      → ((d : Disk) → Committed d → P d)
      → l.n ≡ n
      → Installing 0 l
      → All P l.history
      → Installing n (install_trans l) × All P (install_trans l).history
  unfolding install_trans
  install_trans-Installing P l imp e v h =
      let e' : int_rounds l.n ≡ n = ap int_rounds e ∙ rounds_small n v.committed.few in
      rw e' (install_loop-Installing P n 0 l imp (omega arith) v h)

  -- From a disk with the commit record, recovery completes the transaction.
  pub recovered-new : (d : Disk) → Committed d → SameHome start (recovered start d) new
  unfolding recover_from_log
  recovered-new d c a la =
      let (v, _) =
        install_trans-Installing (λ _. Unit) (read_head (record (boot d) { start = start }))
          (λ _ _. tt) (unfold read_head in c.count) (reading d c) (unfold read_head in tt) in
      write_head_ne _ a (rw v.begins (omega arith)) ∙ v.done a la (λ j l m. absurd (omega arith))

pub install_none : (l : Log) → l.n ≡ 0 → install_trans l ≡ l
unfolding install_trans install_loop
install_none l e =
    let e' : int_rounds l.n ≡ 0 = ap int_rounds e in
    subst (λ (k : ℕ). install_loop 0 k l ≡ l) (sym e') refl

-- From a disk whose log is empty, recovery changes no home block.
pub recovered-old : (start : ℕ) (d : Disk) → d start 0 ≡ 0 → SameHome start (recovered start d) d
unfolding recover_from_log read_head
recovered-old start d e a la =
    let none_done = install_none (read_head (record (boot d) { start = start })) e in
    write_head_ne _ a (λ q. ground (arith, ap (λ (l : Log). l.start) none_done))
    ∙ ap (λ (l : Log). l.disk a) none_done
