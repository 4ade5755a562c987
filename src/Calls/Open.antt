-- ===== src/Calls/Open.antt =====
-- open gives back all but the file that it answers.
use fp_sisop20_f.Base.{
  ℕ, ◌≡◌, refl, sym, ◌∙◌, arith, false, not, Option, none, some, List, [], ◌∷◌, ◌==◌, ◌&&◌,
  Bool-cases, inl, inr, ℤ, subst,
}
use fp_sisop20_f.Dir.{Name, t_dir}
use fp_sisop20_f.Vfs.{Kernel, slot, ◌>>◌, pure, ilock, iunlock, iunlockput}
use fp_sisop20_f.Vfs.Names.{namei}
use fp_sisop20_f.Vfs.Runs.{Runs, >>=-Runs, >>-Runs, gets-Runs, if-Runs}
use fp_sisop20_f.Vfs.Owned.{Owns}
use fp_sisop20_f.Vfs.Operations.{ilock-Owns, iunlock-Owns, iunlockput-Owns}
use fp_sisop20_f.Calls.Balance.{Deadlocks, begin_trans-Owns, commit_trans-Owns}
use fp_sisop20_f.Base.{update, update_self, update_ne, ◌≢◌, ap}
use fp_sisop20_f.File.{File, fd_none}
use fp_sisop20_f.Syscall.{entry}
use fp_sisop20_f.Calls.Links.{NamedOne, namei-NamedOne}
use fp_sisop20_f.Calls.Create.{Created, create-Created}
use fp_sisop20_f.Calls.Nodes.{
  creates, opened_file, set_file, open_failed, open_fd, open_file, open_inode, open_found, sys_open,
}
use fp_sisop20_f.Calls.{
  begin_trans, commit_trans, t_file, create, closes, closed_files, fileclose, filealloc, fdalloc,
}
use fp_sisop20_f.Calls.Taken.{
  Owns-files, IsIdle, Opened, IsOpened, opened_file-IsOpened, ended, fileclose-fresh, Claimed,
  Given, filealloc-Claimed, fdalloc-Given,
}

module _ (b : Kernel) (omode ip : ℕ) {S : Kernel → Type 0} where
  -- the two ends of open behind `fdalloc`
  open_fd-Opened :
      (f : ℕ) (o : Option ℕ) (k : Kernel)
      → IsIdle b.files
      → Given b ip f o k
      → Runs (Opened omode b) S (open_fd omode ip f o k)
  unfolding set_file fileclose closes
  open_fd-Opened f (some fd) k idle (z, n, e, v) =
      >>-Runs (iunlock ip) _ k (iunlock-Owns ip (ip ∷ []) [] k v refl) (λ _ k1 w.
        let files = update k1.files f (opened_file omode ip (k1.files f)) in
        >>-Runs {Q = λ _ k2. Opened omode b (some fd) k2} (set_file f omode ip) (pure (some fd)) k1
          (record {
            ends = (
              ip,
              f,
              z,
              n,
              ap (λ os. entry os fd) w.same_ofile ∙ e,
              subst (IsOpened omode ip)
                  (sym (update_self k1.files f (opened_file omode ip (k1.files f))))
                  (opened_file-IsOpened omode ip (k1.files f) (
                    ap (λ t. (t f).ref) w.same_files
                    ∙ ap File.ref (update_self b.files f (record (b.files f) { ref = 1 })))),
              λ j ne.
                  update_ne k1.files f (opened_file omode ip (k1.files f)) j ne
                  ∙ ap (λ t. t j) w.same_files
                  ∙ update_ne b.files f (record (b.files f) { ref = 1 }) j ne,
              Owns-files (ip ∷ []) [] files k1.ofile w,
            );
          })
          (λ _ k2 u. record { ends = u }))
  open_fd-Opened f none k idle (z, v) =
      let fresh : k.files f ≡ record (b.files f) { ref = 1 } =
        ap (λ t. t f) v.same_files ∙ update_self b.files f (record (b.files f) { ref = 1 }) in
      let files = update k.files f (record (k.files f) { ref = 0; type = fd_none }) in
      >>-Runs
        {Q = λ _ k1.
          ((j : ℕ) → (k1.files j).ref ≡ (b.files j).ref)
          × Owns (record b { files = k1.files }) (ip ∷ []) (ip ∷ []) false k1}
        (fileclose f) (open_failed ip) k
        (subst
          (λ o.
            Runs
              (λ _ k1.
                ((j : ℕ) → (k1.files j).ref ≡ (b.files j).ref)
                × Owns (record b { files = k1.files }) (ip ∷ []) (ip ∷ []) false k1)
              S (closed_files k o))
          (sym (fileclose-fresh k.files f (ap File.ref fresh) (ap File.type fresh ∙ idle f z)))
          (record {
            ends = (
              λ j. elim (Bool-cases (j == f)) [
                | inl e ↦
                    let q : j ≡ f = ground arith in
                    subst (λ j. (files j).ref ≡ (b.files j).ref) (sym q)
                      (ap File.ref
                          (update_self k.files f (record (k.files f) { ref = 0; type = fd_none }))
                        ∙ sym z)
                | inr e ↦
                    let q : j ≢ f = ground arith in
                    ap File.ref (
                      update_ne k.files f (record (k.files f) { ref = 0; type = fd_none }) j q
                      ∙ ap (λ t. t j) v.same_files
                      ∙ update_ne b.files f (record (b.files f) { ref = 1 }) j q)
              ],
              subst
                  (λ os.
                    Owns (record b { files = files; ofile = os }) (ip ∷ []) (ip ∷ []) false
                      (record k { files = files }))
                  v.same_ofile (Owns-files (ip ∷ []) (ip ∷ []) files k.ofile v),
            );
          }))
        (λ _ k1 (h, w).
          >>-Runs (iunlockput ip) (pure none) k1 (iunlockput-Owns ip [] [] k1 w refl) (λ _ k2 u.
            record {
              ends = (
                λ j. ap (λ t. (t j).ref) u.same_files ∙ h j,
                subst (λ t. Owns (record b { files = t }) [] [] false k2) (sym u.same_files) u,
              );
            }))

  open_file-Opened :
      (o : Option ℕ) (k : Kernel)
      → IsIdle b.files
      → Claimed b ip o k
      → Runs (Opened omode b) S (open_file omode ip o k)
  open_file-Opened none k idle v =
      >>-Runs (iunlockput ip) (pure none) k (iunlockput-Owns ip [] [] k v refl)
        (λ _ k1 w. record { ends = ended b omode k1 w })
  open_file-Opened (some f) k idle v =
      >>=-Runs (fdalloc f) (open_fd omode ip f) k (fdalloc-Given b omode ip f k v)
        (λ o k1 w. open_fd-Opened f o k1 idle w)

  open_inode-Opened :
      (k : Kernel)
      → IsIdle b.files
      → Owns b (ip ∷ []) (ip ∷ []) false k
      → Runs (Opened omode b) S (open_inode omode (some ip) k)
  open_inode-Opened k idle v =
      >>=-Runs filealloc (open_file omode ip) k (filealloc-Claimed b omode ip k v)
        (λ o k1 w. open_file-Opened o k1 idle w)

module _ (driver : ℕ → Option ℤ) (b : Kernel) (omode : ℕ) (idle : IsIdle b.files) where
  open_found-Opened :
      (o : Option ℕ) (k : Kernel)
      → NamedOne b [] false o k
      → Runs (Opened omode b) (Deadlocks b []) (open_found omode o k)
  open_found-Opened none k v = record { ends = ended b omode k v }
  open_found-Opened (some ip) k v =
      >>-Runs (ilock ip) _ k (ilock-Owns (ip ∷ []) [] k v ip (ground arith) (λ e. absurd (cc)))
        (λ _ k1 w.
          gets-Runs (λ k. (slot ip k).copy.type) _ k1
            (if-Runs (((slot ip k1).copy.type == t_dir) && not (omode == 0)) _ _ k1
              (λ _.
                >>-Runs (iunlockput ip) _ k1 (iunlockput-Owns ip [] [] k1 w refl)
                  (λ _ k2 u. record { ends = ended b omode k2 u }))
              (λ _. open_inode-Opened b omode ip k1 idle w)))

  committed-Opened :
      (o : Option ℕ) (k : Kernel)
      → Created b o k
      → Runs (Opened omode b) (Deadlocks b []) ((commit_trans >> open_inode omode o) k)
  committed-Opened none k v =
      >>-Runs commit_trans _ k (commit_trans-Owns [] [] k v)
        (λ _ k1 w. record { ends = ended b omode k1 w })
  committed-Opened (some ip) k v =
      >>-Runs commit_trans _ k (commit_trans-Owns (ip ∷ []) (ip ∷ []) k v)
        (λ _ k1 w. open_inode-Opened b omode ip k1 idle w)

-- open, run while nobody has locked an inode, no transaction is open and the free files have no type.
-- Without a descriptor, it gives back every reference and lock that it took, the file of the table
-- included. With a descriptor, that one was free, and it now stands for a file that was free; the file
-- starts at 0, is readable and writable as the mode says, and has the one reference to an inode that is
-- kept. No inode stays locked and the transaction is closed. It sleeps only on an inode that it
-- has locked itself, within its transaction, and does not panic for a lock or a reference that is misused.
pub sys_open-Opened :
    (driver : ℕ → Option ℤ) (b : Kernel) (path : List ℕ) (omode : ℕ) (buffer : Name)
    → Owns b [] [] false b
    → IsIdle b.files
    → Runs (Opened omode b) (Deadlocks b []) (sys_open driver (some path) (some omode) buffer b)
unfolding sys_open
sys_open-Opened driver b path omode buffer v idle =
    if-Runs (creates omode) _ _ b
      (λ _. >>-Runs begin_trans _ b (begin_trans-Owns [] [] b v) (λ _ k w.
        >>=-Runs (create driver path t_file 0 0 buffer) _ k
          (create-Created driver path t_file 0 0 buffer k w)
          (λ o k1 u. committed-Opened driver b omode idle o k1 u)))
      (λ _.
        >>=-Runs (namei driver path buffer) _ b (namei-NamedOne driver [] path buffer b v)
          (λ o k w. open_found-Opened driver b omode idle o k w))
