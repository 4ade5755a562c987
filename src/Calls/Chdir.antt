-- ===== src/Calls/Chdir.antt =====
-- chdir moves the reference of the current directory.
use fp_sisop20_f.Base.{
  ℕ, ◌+◌, ◌-◌, ◌≤◌, ◌≡◌, refl, sym, arith, Bool, true, false, not, Option, none, some, List, [],
  ◌∷◌, ◌==◌, Bool-cases, inl, inr, ℤ, subst, update, update_self, update_ne,
}
use fp_sisop20_f.Dir.{Name, t_dir}
use fp_sisop20_f.Vfs.{Kernel, slot, ◌>>◌, pure, ilock, iunlock, iput, iunlockput}
use fp_sisop20_f.Vfs.Names.{namei}
use fp_sisop20_f.Vfs.Runs.{Runs, >>=-Runs, >>-Runs, gets-Runs, if-Runs}
use fp_sisop20_f.Vfs.Owned.{Owns, Owns-reorder, count}
use fp_sisop20_f.Vfs.Operations.{ilock-Owns, iunlock-Owns, iput-Owns, iunlockput-Owns}
use fp_sisop20_f.Calls.Balance.{Never}
use fp_sisop20_f.Calls.Links.{NamedOne, namei-NamedOne}
use fp_sisop20_f.Calls.Nodes.{set_cwd, change_to, sys_chdir}
use fp_sisop20_f.Inode.{Inode}

abbrev less_one : Inode → Inode
less_one s = record s { ref = s.ref - 1 }

-- The kernel without the reference of the current directory.
abbrev pub lent : Kernel → Kernel
lent b = record b {
  icache = record b.icache {
    slots = update b.icache.slots b.cwd (less_one (b.icache.slots b.cwd));
  };
}

-- After a success, the process refers to its new directory, and no longer to the old one; after a
-- failure, all is as it was.
abbrev pub Moved : Kernel → Bool → Kernel → Type 0
Moved b true k = (ip : ℕ) × Owns (record (lent b) { cwd = ip }) (ip ∷ []) [] false k
Moved b false k = Owns b [] [] false k

module _ (b : Kernel) (h : 1 ≤ (slot b.cwd b).ref) where
  lent-ref : (j : ℕ) → (slot j b).ref ≡ (slot j (lent b)).ref + count j (b.cwd ∷ [])
  lent-ref j = elim (Bool-cases (j == b.cwd)) [
    | inl e ↦
        let q : j ≡ b.cwd = ground arith in
        let l = update_self b.icache.slots b.cwd (less_one (b.icache.slots b.cwd)) in
        rw e (
          subst (λ j. (slot j b).ref ≡ (slot j (lent b)).ref + 1) (sym q) (rw l (omega (arith, h))))
    | inr e ↦
        let l = update_ne b.icache.slots b.cwd (less_one (b.icache.slots b.cwd)) j (ground arith) in
        rw (e, l) (omega arith)
  ]

  taken : (t : Bool) (k : Kernel) → Owns b [] [] t k → Owns (lent b) (b.cwd ∷ []) [] t k
  taken t k v = record {
    ref_counts = λ j. omega (arith, v.ref_counts j, lent-ref j);
    held = v.held;
    referred = λ j m. absurd (cc);
    log = v.log;
    same_files = v.same_files;
    same_ofile = v.same_ofile;
    same_cwd = v.same_cwd;
  }

  returned : (t : Bool) (k : Kernel) → Owns (lent b) (b.cwd ∷ []) [] t k → Owns b [] [] t k
  returned t k v = record {
    ref_counts = λ j. omega (arith, v.ref_counts j, lent-ref j);
    held = v.held;
    referred = λ j m. absurd (cc);
    log = v.log;
    same_files = v.same_files;
    same_ofile = v.same_ofile;
    same_cwd = v.same_cwd;
  }

  set_cwd-Moved :
      (ip : ℕ) (k : Kernel)
      → Owns (lent b) (ip ∷ []) [] false k
      → Runs (Moved b) Never ((set_cwd ip >> pure true) k)
  set_cwd-Moved ip k v =
      >>-Runs {Q = λ _ k'. Moved b true k'} (set_cwd ip) (pure true) k
        (unfold set_cwd in
          record {
            ends = (
              ip,
              record {
                ref_counts = v.ref_counts;
                held = v.held;
                referred = v.referred;
                log = v.log;
                same_files = v.same_files;
                same_ofile = v.same_ofile;
                same_cwd = refl;
              },
            );
          })
        (λ _ k1 w. record { ends = w })

  change_to-Moved :
      (o : Option ℕ) (k : Kernel)
      → NamedOne (lent b) (b.cwd ∷ []) false o k
      → Runs (Moved b) Never (change_to o k)
  change_to-Moved none k v = record { ends = returned false k v }
  change_to-Moved (some ip) k v =
      >>-Runs (ilock ip) _ k
        (ilock-Owns (ip ∷ b.cwd ∷ []) [] k v ip (ground arith) (λ e. absurd (cc)))
        (λ _ k1 w.
          gets-Runs (λ k. (slot ip k).copy.type) _ k1
            (gets-Runs (λ k. k.cwd) _ k1
              (if-Runs (not ((slot ip k1).copy.type == t_dir)) _ _ k1
                (λ _.
                  >>-Runs (iunlockput ip) _ k1 (iunlockput-Owns ip (b.cwd ∷ []) [] k1 w refl)
                    (λ _ k2 u. record { ends = returned false k2 u }))
                (λ _.
                  >>-Runs (iunlock ip) _ k1 (iunlock-Owns ip (ip ∷ b.cwd ∷ []) [] k1 w refl)
                    (λ _ k2 u.
                      >>-Runs (iput k1.cwd) _ k2
                        (iput-Owns k1.cwd (ip ∷ []) [] k2
                          (Owns-reorder (ip ∷ b.cwd ∷ []) (k1.cwd ∷ ip ∷ []) []
                            (λ j. rw w.same_cwd (ground arith)) u)
                          (λ e. absurd (cc)))
                        (λ _ k3 z. set_cwd-Moved ip k3 z))))))

-- chdir, run while nobody has locked an inode, no transaction is open and the process has a reference
-- to its current directory: it does not sleep and does not panic for a lock or a reference that is
-- misused. When it succeeds, the reference of the old directory is given back, the process has one to
-- its new directory, and nothing else is taken or locked. When it fails, everything is given back and
-- the current directory is the old one.
pub sys_chdir-Moved :
    (driver : ℕ → Option ℤ) (b : Kernel) (path : Option (List ℕ)) (buffer : Name)
    → Owns b [] [] false b
    → 1 ≤ (slot b.cwd b).ref
    → Runs (Moved b) Never (sys_chdir driver path buffer b)
unfolding sys_chdir
sys_chdir-Moved driver b none buffer v h = record { ends = v }
sys_chdir-Moved driver b (some path) buffer v h =
    >>=-Runs (namei driver path buffer) _ b
      (namei-NamedOne driver (b.cwd ∷ []) path buffer b (taken b h false b v))
      (λ o k w. change_to-Moved b h o k w)
