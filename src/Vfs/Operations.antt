-- ===== src/Vfs/Operations.antt =====
-- What the operations on inodes take and give back.
use fp_sisop20_f.Base.{
  ℕ, ◌-◌, ◌<◌, ◌≡◌, ◌≢◌, refl, sym, subst, ◌∙◌, arith, inl, Bool, true, false, not, ◌&&◌, Option,
  none, some, List, ◌∷◌, Result, ok, panic, ◌==◌,
}
use fp_sisop20_f.Inode
use fp_sisop20_f.Inode.{Inode, Dinode, Icache, Event, wakes, put_slot}
use fp_sisop20_f.Inode.Effects.{
  put_slot-Sets, idup-Sets, iupdate-Sets, Refers, iget-Refers, ialloc-Refers, Locks, ilock-Locks,
  iunlock-Sets, iput-Sets,
}
use fp_sisop20_f.Content.{Fs}
use fp_sisop20_f.Vfs.{
  Kernel, in_iget, in_iunlock, in_iput, in_ialloc, Site, slot, with_slot, iget, idup, with_lock,
  ilock, free_blocks, with_blocks, with_events, iunlock, indirect_of, iput, iunlockput, frees, logs,
  lock_site, iupdate, change, with_contents, on_contents, ialloc,
}
use fp_sisop20_f.Vfs.Runs.{Runs, IsResource, >>-Runs, weaken-Runs, guard-Runs}
use fp_sisop20_f.Vfs.Owned.{count, member, Owns, moved, kept, more}

module _ {b : Kernel} {t : Bool} (refs locks : List ℕ) (k : Kernel)
    (v : Owns b refs locks t k) where
  module _ {S : Kernel → Type 0} where
    with_slot-Owns :
        (s : Site) (r : Result (ℕ × Icache))
        → IsResource s
        → Refers k.icache r
        → Runs (λ i k'. Owns b (i ∷ refs) locks t k') S (with_slot k r s)
    with_slot-Owns s panic h f = record { ends = h }
    with_slot-Owns s (ok (i, c)) h (d, g, e) = record { ends = more refs locks k v i d c g e }

    pub iget-Owns : (dev inum : ℕ) → Runs (λ i k'. Owns b (i ∷ refs) locks t k') S (iget dev inum k)
    unfolding iget
    iget-Owns dev inum =
        with_slot-Owns in_iget (Inode.iget dev inum k.icache) tt (iget-Refers dev inum k.icache)

    pub ialloc-Owns :
        (dev type : ℕ) → Runs (λ i k'. Owns b (i ∷ refs) locks t k') S (ialloc dev type k)
    unfolding ialloc
    ialloc-Owns dev type =
        guard-Runs k.log_busy _ _
          (with_slot-Owns in_ialloc (Inode.ialloc dev k.fs.ninodes type k.icache) tt
            (ialloc-Refers dev k.fs.ninodes type k.icache))
          (record { ends = tt })

    pub idup-Owns : (i : ℕ) → Runs (λ j k'. Owns b (j ∷ refs) locks t k') S (idup i k)
    unfolding idup
    idup-Owns i = record {
      ends =
          more refs locks k v i (slot i k).busy (Inode.idup i k.icache) (idup-Sets i k.icache)
            (inl refl);
    }

    pub iupdate-Owns : (i : ℕ) → Runs (λ _ k'. Owns b refs locks t k') S (iupdate i k)
    unfolding iupdate
    iupdate-Owns i =
        guard-Runs k.log_busy _ _
          (record {
            ends = kept refs locks k v i (Inode.iupdate i k.icache) k.fs (iupdate-Sets i k.icache);
          })
          (record { ends = tt })

    pub logs-Owns : Runs (λ _ k'. Owns b refs locks t k') S (logs k)
    logs-Owns = guard-Runs k.log_busy _ _ (record { ends = v }) (record { ends = tt })

    pub change-Owns :
        (i : ℕ) (f : Dinode → Dinode) → Runs (λ _ k'. Owns b refs locks t k') S (change i f k)
    unfolding change
    change-Owns i f = record {
      ends =
          kept refs locks k v i
            (put_slot i (record (slot i k) { copy = f (slot i k).copy }) k.icache) k.fs
            (put_slot-Sets i (record (slot i k) { copy = f (slot i k).copy }) k.icache);
    }

    with_contents-Owns :
        {A : Type 0} (i : ℕ) (r : Result (A × Dinode × Fs))
        → Runs (λ _ k'. Owns b refs locks t k') S (with_contents i k r)
    with_contents-Owns i panic = record { ends = tt }
    with_contents-Owns i (ok (a, d, fs)) = record {
      ends =
          kept refs locks k v i (put_slot i (record (slot i k) { copy = d }) k.icache) fs
            (put_slot-Sets i (record (slot i k) { copy = d }) k.icache);
    }

    pub on_contents-Owns :
        {A : Type 0} (i : ℕ) (f : Dinode → Fs → Result (A × Dinode × Fs))
        → Runs (λ _ k'. Owns b refs locks t k') S (on_contents i f k)
    unfolding on_contents
    on_contents-Owns i f = with_contents-Owns i (f (slot i k).copy k.fs)

    with_lock-Owns :
        (i : ℕ) (s : Site) (r : Result (Option Icache))
        → IsResource s
        → Locks i k.icache r
        → 0 < count i refs
        → (member i locks ≡ true → S k)
        → Runs (λ _ k'. Owns b refs (i ∷ locks) t k' × (member i locks ≡ false)) S (with_lock k s r)
    with_lock-Owns i s panic y h n f = record { ends = y }
    with_lock-Owns i s (ok none) y h n f = record { ends = f (sym (v.held i) ∙ h) }
    with_lock-Owns i s (ok (some c)) y (f, h) n g = record {
      ends = (
        moved refs locks k v i (slot i k).ref true c k.fs refs (i ∷ locks) h (v.ref_counts i)
            (λ _ _. refl) (ground arith) (λ j ne. ground arith) (λ _. n),
        sym (v.held i) ∙ f,
      );
    }

    pub ilock-free :
        (i : ℕ)
        → 0 < count i refs
        → (member i locks ≡ true → S k)
        → Runs (λ _ k'. Owns b refs (i ∷ locks) t k' × (member i locks ≡ false)) S (ilock i k)
    unfolding ilock
    ilock-free i n =
        let z : ((slot i k).ref == 0) ≡ false = ground (arith, v.ref_counts i, n) in
        with_lock-Owns i (lock_site i k) (Inode.ilock i k.icache) (rw z tt) (ilock-Locks i k.icache)
          n

    -- `ilock` of an inode that is referred to sleeps only if the call has locked it itself.
    pub ilock-Owns :
        (i : ℕ)
        → 0 < count i refs
        → (member i locks ≡ true → S k)
        → Runs (λ _ k'. Owns b refs (i ∷ locks) t k') S (ilock i k)
    ilock-Owns i n s = weaken-Runs (ilock i k) (ilock-free i n s) (λ _ k' w. w.0)

    with_blocks-Owns :
        (refs' locks' : List ℕ) (c : Icache) (r : Result Fs)
        → ((fs : Fs) → Owns b refs' locks' t (record k { icache = c; fs = fs }))
        → Runs (λ _ k'. Owns b refs' locks' t k') S (with_blocks k c r)
    with_blocks-Owns refs' locks' c panic h = record { ends = tt }
    with_blocks-Owns refs' locks' c (ok fs) h = record { ends = h fs }

-- `iunlock` of the last inode that the call has locked
pub iunlock-Owns :
    {b : Kernel} {t : Bool} {S : Kernel → Type 0} (i : ℕ) (refs locks : List ℕ) (k : Kernel)
    → Owns b refs (i ∷ locks) t k
    → member i locks ≡ false
    → Runs (λ _ k'. Owns b refs locks t k') S (iunlock i k)
unfolding iunlock free_blocks
iunlock-Owns {b} {t} {S} i refs locks k v m =
    let r : 0 < count i refs = v.referred i (ground arith) in
    let (c, e, s) =
      iunlock-Sets i k.icache (v.held i ∙ ground arith) (omega (arith, v.ref_counts i, r)) in
    subst (λ o. Runs (λ _ k'. Owns b refs locks t k') S (with_events k in_iunlock o)) (sym e)
      (with_blocks-Owns refs (i ∷ locks) k v refs locks c (ok k.fs) (λ fs.
        moved refs (i ∷ locks) k v i (slot i k).ref false c fs refs locks s (v.ref_counts i)
          (λ _ _. refl) (sym m) (λ j ne. ground arith) (λ f. absurd (cc))))

-- `iput` of an inode that is not the call's last reference to a locked one
pub iput-Owns :
    {b : Kernel} {t : Bool} {S : Kernel → Type 0} (i : ℕ) (refs locks : List ℕ) (k : Kernel)
    → Owns b (i ∷ refs) locks t k
    → (member i locks ≡ true → 0 < count i refs)
    → Runs (λ _ k'. Owns b refs locks t k') S (iput i k)
unfolding iput
iput-Owns {b} {t} {S} i refs locks k v m =
    let more_left : (slot i k).busy ≡ true → (slot i k).ref ≢ 1 =
      λ f. let l : 0 < count i refs = m (sym (v.held i) ∙ f) in ground (arith, v.ref_counts i) in
    guard-Runs (frees i k && not k.log_busy) _ _ (record { ends = tt })
      (let (c, es, e, s) = iput-Sets (indirect_of i k) i k.icache more_left in
        subst (λ o. Runs (λ _ k'. Owns b refs locks t k') S (with_events k in_iput o)) (sym e)
          (with_blocks-Owns (i ∷ refs) locks k v refs locks c (free_blocks es k.fs) (λ fs.
            moved (i ∷ refs) locks k v i ((slot i k).ref - 1) (slot i k).busy c fs refs locks s
              (ground (arith, v.ref_counts i)) (λ j ne. ground arith) (v.held i) (λ _ _. refl)
              (λ f. m (sym (v.held i) ∙ f)))))

pub iunlockput-Owns :
    {b : Kernel} {t : Bool} {S : Kernel → Type 0} (i : ℕ) (refs locks : List ℕ) (k : Kernel)
    → Owns b (i ∷ refs) (i ∷ locks) t k
    → member i locks ≡ false
    → Runs (λ _ k'. Owns b refs locks t k') S (iunlockput i k)
unfolding iunlockput
iunlockput-Owns i refs locks k v m =
    >>-Runs (iunlock i) (iput i) k (iunlock-Owns i (i ∷ refs) locks k v m)
      (λ _ k' w. iput-Owns i refs locks k' w (λ e. absurd (cc)))
