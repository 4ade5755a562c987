-- ===== src/Calls/Balance.antt =====
-- The log, and inodes that are locked one after another.
use fp_sisop20_f.Base.{ℕ, refl, Bool, true, false, List, [], ◌∷◌}
use fp_sisop20_f.Vfs.{Kernel, Act, ◌>>◌, pure, iupdate, change}
use fp_sisop20_f.Vfs.Runs.{Runs, >>-Runs}
use fp_sisop20_f.Vfs.Owned.{Owns}
use fp_sisop20_f.Vfs.Operations.{iupdate-Owns, change-Owns}
use fp_sisop20_f.Inode.{Dinode}
use fp_sisop20_f.Calls.{begin_trans, commit_trans, must}

-- A call sleeps on an inode that it has locked itself: a directory with an entry for itself.
abbrev pub Deadlocks : Kernel → List ℕ → Kernel → Type 0
Deadlocks b refs k = (i : ℕ) × Owns b (i ∷ i ∷ refs) (i ∷ []) true k

-- It has given back all references and locks, and no transaction is open.
abbrev pub Balanced : {A : Type 0} → Kernel → A → Kernel → Type 0
Balanced b _ k = Owns b [] [] false k

abbrev pub Never : Kernel → Type 0
Never k = ⊥

module _ {b : Kernel} (refs locks : List ℕ) (k : Kernel) where
  with_log :
      {t : Bool} (u : Bool)
      → Owns b refs locks t k
      → Owns b refs locks u (record k { log_busy = u })
  with_log u v = record {
    ref_counts = v.ref_counts;
    held = v.held;
    referred = v.referred;
    log = refl;
    same_files = v.same_files;
    same_ofile = v.same_ofile;
    same_cwd = v.same_cwd;
  }

  pub begin_trans-Owns :
      {S : Kernel → Type 0}
      → Owns b refs locks false k
      → Runs (λ _ k'. Owns b refs locks true k') S (begin_trans k)
  unfolding begin_trans
  begin_trans-Owns v = rw v.log (record { ends = with_log true v })

  pub commit_trans-Owns :
      {S : Kernel → Type 0} {t : Bool}
      → Owns b refs locks t k
      → Runs (λ _ k'. Owns b refs locks false k') S (commit_trans k)
  unfolding commit_trans
  commit_trans-Owns v = record { ends = with_log false v }

  -- what stands between a panic and the rest
  pub must-Owns :
      {S : Kernel → Type 0} {t : Bool} (c : Bool)
      → Owns b refs locks t k
      → Runs (λ _ k'. Owns b refs locks t k') S (must c k)
  must-Owns true v = record { ends = v }
  must-Owns false v = record { ends = tt }

-- `commit_trans` and an answer
pub committed :
    {A : Type 0} {b : Kernel} {S : Kernel → Type 0} {t : Bool} (refs locks : List ℕ) (a : A)
    (k : Kernel)
    → Owns b refs locks t k
    → Runs (λ _ k'. Owns b refs locks false k') S ((commit_trans >> pure a) k)
committed refs locks a k v =
    >>-Runs commit_trans _ k (commit_trans-Owns refs locks k v) (λ _ k' w. record { ends = w })

-- a change of the copy of an inode, and `iupdate`
pub changed :
    {A : Type 0} {b : Kernel} {S : Kernel → Type 0} {t : Bool} {Q : A → Kernel → Type 0}
    (refs locks : List ℕ) (i : ℕ) (f : Dinode → Dinode) (rest : Act A) (k : Kernel)
    → Owns b refs locks t k
    → ((k' : Kernel) → Owns b refs locks t k' → Runs Q S (rest k'))
    → Runs Q S ((change i f >> (iupdate i >> rest)) k)
changed refs locks i f rest k v h =
    >>-Runs (change i f) _ k (change-Owns refs locks k v i f)
      (λ _ k1 w. >>-Runs (iupdate i) _ k1 (iupdate-Owns refs locks k1 w i) (λ _ k2 u. h k2 u))
