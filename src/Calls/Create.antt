-- ===== src/Calls/Create.antt =====
-- create, mkdir and mknod give back all that they take.
use fp_sisop20_f.Base.{
  ℕ, ◌≡◌, refl, arith, Bool, true, false, Option, none, some, List, [], ◌∷◌, ◌==◌, ◌&&◌,
  if◌then◌else◌, ℤ,
}
use fp_sisop20_f.Dir.{Name, t_dir}
use fp_sisop20_f.Vfs.{Kernel, slot, ◌>>=◌, ◌>>◌, pure, gets, ilock, iunlockput, ialloc}
use fp_sisop20_f.Vfs.Names.{lookup, dirlink, nameiparent}
use fp_sisop20_f.Vfs.Runs.{Runs, >>=-Runs, >>-Runs, gets-Runs, if-Runs}
use fp_sisop20_f.Vfs.Owned.{Owns, Owns-reorder, Owns-relock, member}
use fp_sisop20_f.Vfs.Operations.{ilock-Owns, ilock-free, iunlockput-Owns, ialloc-Owns}
use fp_sisop20_f.Vfs.Entries.{Found, lookup-Found, dirlink-Owns}
use fp_sisop20_f.Vfs.Paths.{Named}
use fp_sisop20_f.Calls.Balance.{
  Deadlocks, Balanced, begin_trans-Owns, must-Owns, committed, changed,
}
use fp_sisop20_f.Calls.Links.{nameiparent-Named}
use fp_sisop20_f.Calls.Unlink.{same-Deadlocks}
use fp_sisop20_f.Calls.Nodes.{made_node, make_node, sys_mkdir, node_of, sys_mknod}
use fp_sisop20_f.Calls.{
  begin_trans, one_more, dot, dot_dot, t_file, made, must, make_dots, create_at, create_in, create,
}

-- `create` answers an inode that it has locked and refers to.
abbrev pub Created : Kernel → Option ℕ → Kernel → Type 0
Created b none k = Owns b [] [] true k
Created b (some ip) k = Owns b (ip ∷ []) (ip ∷ []) true k

module _ (driver : ℕ → Option ℤ) {b : Kernel} where
  dirlink_if :
      (c : Bool) (i : ℕ) (name : Name) (inum : ℕ) (refs locks : List ℕ) (k : Kernel)
      → Owns b refs locks true k
      → Runs
          (λ _ k'. Owns b refs locks true k')
          (Deadlocks b [])
          ((if c then dirlink driver i name inum else pure false) k)
  dirlink_if true i name inum refs locks k v = dirlink-Owns driver refs locks i name inum k v
  dirlink_if false i name inum refs locks k v = record { ends = v }

  dots_if :
      (c : Bool) (dp ip : ℕ) (refs locks : List ℕ) (k : Kernel)
      → Owns b refs locks true k
      → Runs
          (λ _ k'. Owns b refs locks true k')
          (Deadlocks b [])
          ((if c then make_dots driver dp ip else pure tt) k)
  dots_if true dp ip refs locks k v = changed refs locks dp one_more _ k v (λ k1 w1.
      gets-Runs (λ k. (slot ip k).inum) _ k1
        (gets-Runs (λ k. (slot dp k).inum) _ k1
          (>>=-Runs (dirlink driver ip dot (slot ip k1).inum) _ k1
            (dirlink-Owns driver refs locks ip dot (slot ip k1).inum k1 w1)
            (λ one k2 w2.
              >>=-Runs (if one then dirlink driver ip dot_dot (slot dp k1).inum else pure false) _
                k2 (dirlink_if one ip dot_dot (slot dp k1).inum refs locks k2 w2)
                (λ two k3 w3. must-Owns refs locks k3 two w3)))))
  dots_if false dp ip refs locks k v = record { ends = v }

  create_at-Created :
      (type major minor dp : ℕ) (name : Name) (o : Option (ℕ × ℕ)) (k : Kernel)
      → Found b (dp ∷ []) (dp ∷ []) true o k
      → Runs (Created b) (Deadlocks b []) (create_at driver type major minor dp name o k)
  create_at-Created type major minor dp name (some (off, ip)) k v =
      >>-Runs (iunlockput dp) _ k
        (iunlockput-Owns dp (ip ∷ []) [] k
          (Owns-reorder (ip ∷ dp ∷ []) (dp ∷ ip ∷ []) (dp ∷ []) (λ j. ground arith) v) refl)
        (λ _ k1 w1.
          >>-Runs (ilock ip) _ k1
            (ilock-Owns (ip ∷ []) [] k1 w1 ip (ground arith) (λ e. absurd (cc)))
            (λ _ k2 w2.
              gets-Runs (λ k. (slot ip k).copy.type) _ k2
                (if-Runs ((type == t_file) && ((slot ip k2).copy.type == t_file)) _ _ k2
                  (λ _. record { ends = w2 })
                  (λ _.
                    >>-Runs (iunlockput ip) _ k2 (iunlockput-Owns ip [] [] k2 w2 refl)
                      (λ _ k3 w3. record { ends = w3 })))))
  create_at-Created type major minor dp name none k v =
      gets-Runs (λ k. (slot dp k).dev) _ k
        (>>=-Runs (ialloc (slot dp k).dev type) _ k
          (ialloc-Owns (dp ∷ []) (dp ∷ []) k v (slot dp k).dev type)
          (λ ip k1 w1.
            >>-Runs (ilock ip) _ k1
              (ilock-free (ip ∷ dp ∷ []) (dp ∷ []) k1 w1 ip (ground arith)
                (same-Deadlocks ip dp k1 w1))
              (λ _ k2 (w2, m).
                changed (ip ∷ dp ∷ []) (ip ∷ dp ∷ []) ip (made major minor) _ k2 w2 (λ k3 w3.
                  >>-Runs (if type == t_dir then make_dots driver dp ip else pure tt) _ k3
                    (dots_if (type == t_dir) dp ip (ip ∷ dp ∷ []) (ip ∷ dp ∷ []) k3 w3)
                    (λ _ k4 w4. ends ip m k4 w4)))))
    where
      ends :
          (ip : ℕ)
          → member ip (dp ∷ []) ≡ false
          → (k : Kernel) → Owns b (ip ∷ dp ∷ []) (ip ∷ dp ∷ []) true k
          → Runs (Created b) (Deadlocks b []) (
              (gets (λ k. (slot ip k).inum) >>= λ inum. dirlink driver dp name inum >>= λ linked.
              must linked >> (iunlockput dp >> pure (some ip)))
                k)
      ends ip m k w =
          gets-Runs (λ k. (slot ip k).inum) _ k
            (>>=-Runs (dirlink driver dp name (slot ip k).inum) _ k
              (dirlink-Owns driver (ip ∷ dp ∷ []) (ip ∷ dp ∷ []) dp name (slot ip k).inum k w)
              (λ linked k5 w5.
                >>-Runs (must linked) _ k5 (must-Owns (ip ∷ dp ∷ []) (ip ∷ dp ∷ []) k5 linked w5)
                  (λ _ k6 w6.
                    >>-Runs (iunlockput dp) _ k6
                      (iunlockput-Owns dp (ip ∷ []) (ip ∷ []) k6
                        (Owns-relock (dp ∷ ip ∷ []) (ip ∷ dp ∷ []) (dp ∷ ip ∷ [])
                          (λ j. ground arith)
                          (Owns-reorder (ip ∷ dp ∷ []) (dp ∷ ip ∷ []) (ip ∷ dp ∷ [])
                            (λ j. ground arith) w6))
                        (ground arith))
                      (λ _ k7 w7. record { ends = w7 }))))

  create_in-Created :
      (type major minor : ℕ) (r : Option ℕ × Name) (k : Kernel)
      → Named b [] true r k
      → Runs (Created b) (Deadlocks b []) (create_in driver type major minor r k)
  create_in-Created type major minor (none, name) k v = record { ends = v }
  create_in-Created type major minor (some dp, name) k v =
      >>-Runs (ilock dp) _ k (ilock-Owns (dp ∷ []) [] k v dp (ground arith) (λ e. absurd (cc)))
        (λ _ k1 w1.
          >>=-Runs (lookup driver name dp) _ k1
            (lookup-Found driver (dp ∷ []) (dp ∷ []) name dp k1 w1)
            (λ o k2 w2. create_at-Created type major minor dp name o k2 w2))

  pub create-Created :
      (path : List ℕ) (type major minor : ℕ) (buffer : Name) (k : Kernel)
      → Owns b [] [] true k
      → Runs (Created b) (Deadlocks b []) (create driver path type major minor buffer k)
  unfolding create
  create-Created path type major minor buffer k v =
      >>=-Runs (nameiparent driver path buffer) _ k (nameiparent-Named driver [] path buffer k v)
        (λ r k1 w1. create_in-Created type major minor r k1 w1)

  made_node-Balanced :
      (o : Option ℕ) (k : Kernel)
      → Created b o k
      → Runs (Balanced b) (Deadlocks b []) (made_node driver o k)
  made_node-Balanced none k v = committed [] [] false k v
  made_node-Balanced (some ip) k v =
      >>-Runs (iunlockput ip) _ k (iunlockput-Owns ip [] [] k v refl)
        (λ _ k1 w. committed [] [] true k1 w)

  make_node-Balanced :
      (type major minor : ℕ) (path : Option (List ℕ)) (buffer : Name) (k : Kernel)
      → Owns b [] [] true k
      → Runs (Balanced b) (Deadlocks b []) (make_node driver type major minor path buffer k)
  make_node-Balanced type major minor none buffer k v = made_node-Balanced none k v
  make_node-Balanced type major minor (some path) buffer k v =
      >>=-Runs (create driver path type major minor buffer) _ k
        (create-Created path type major minor buffer k v) (λ o k1 w. made_node-Balanced o k1 w)

-- mkdir, run while nobody has locked an inode and no transaction is open: when it returns, on whatever
-- way, it has given back every reference and lock that it took, and its transaction is closed. It
-- sleeps only on an inode that it has locked itself, within its transaction. It does
-- not panic for a lock or a reference that is misused.
pub sys_mkdir-Balanced :
    (driver : ℕ → Option ℤ) (b : Kernel) (path : Option (List ℕ)) (buffer : Name)
    → Owns b [] [] false b
    → Runs (Balanced b) (Deadlocks b []) (sys_mkdir driver path buffer b)
unfolding sys_mkdir
sys_mkdir-Balanced driver b path buffer v =
    >>-Runs begin_trans _ b (begin_trans-Owns [] [] b v)
      (λ _ k w. make_node-Balanced driver t_dir 0 0 path buffer k w)

-- mknod, run while nobody has locked an inode and no transaction is open: when it returns, on
-- whatever way, it has given back every reference and lock that it took, and its transaction is
-- closed. It sleeps only on an inode that it has locked itself, within its transaction. It does not panic for
-- a lock or a reference that is misused.
pub sys_mknod-Balanced :
    (driver : ℕ → Option ℤ) (b : Kernel) (path : Option (List ℕ)) (major minor : Option ℕ)
    (buffer : Name)
    → Owns b [] [] false b
    → Runs (Balanced b) (Deadlocks b []) (sys_mknod driver path major minor buffer b)
unfolding sys_mknod
sys_mknod-Balanced driver b path major minor buffer v =
    >>-Runs begin_trans _ b (begin_trans-Owns [] [] b v) (λ _ k w. by_numbers major minor k w)
  where
    by_numbers :
        (major minor : Option ℕ) (k : Kernel)
        → Owns b [] [] true k
        → Runs (Balanced b) (Deadlocks b []) (node_of driver path major minor buffer k)
    by_numbers (some major) (some minor) k w = make_node-Balanced driver _ _ _ path buffer k w
    by_numbers (some major) none k w = made_node-Balanced driver none k w
    by_numbers none minor k w = made_node-Balanced driver none k w
