-- ===== src/Calls/Links.antt =====
-- link gives back all that it takes.
use fp_sisop20_f.Base.{
  ℕ, refl, arith, Bool, true, false, Option, none, some, List, [], ◌∷◌, ◌==◌, if◌then◌else◌, ℤ,
}
use fp_sisop20_f.Dir.{Name, t_dir}
use fp_sisop20_f.Vfs.{Kernel, slot, pure, ilock, iunlock, iput, iunlockput}
use fp_sisop20_f.Vfs.Names.{dirlink, namei, nameiparent, namex}
use fp_sisop20_f.Vfs.Runs.{Runs, >>=-Runs, >>-Runs, gets-Runs, if-Runs}
use fp_sisop20_f.Vfs.Owned.{Owns}
use fp_sisop20_f.Vfs.Operations.{ilock-Owns, iunlock-Owns, iput-Owns, iunlockput-Owns}
use fp_sisop20_f.Vfs.Entries.{dirlink-Owns}
use fp_sisop20_f.Vfs.Paths.{Named, namex-Named}
use fp_sisop20_f.Calls.Balance.{Balanced, Never, begin_trans-Owns, committed, changed}
use fp_sisop20_f.Calls.{begin_trans, one_more, one_less, link_bad, link_into, link_from, sys_link}

-- What `namei` answers is a reference to the inode that it found.
abbrev pub NamedOne : Kernel → (refs : List ℕ) → Bool → Option ℕ → Kernel → Type 0
NamedOne b refs t none k = Owns b refs [] t k
NamedOne b refs t (some i) k = Owns b (i ∷ refs) [] t k

module _ (driver : ℕ → Option ℤ) {b : Kernel} {S : Kernel → Type 0} where
  pub namei-NamedOne :
      {t : Bool} (refs : List ℕ) (path : List ℕ) (buffer : Name) (k : Kernel)
      → Owns b refs [] t k
      → Runs (NamedOne b refs t) S (namei driver path buffer k)
  unfolding namei
  namei-NamedOne {t} refs path buffer k v =
      >>=-Runs (namex driver false path buffer) _ k (namex-Named driver refs false path buffer k v)
        only
    where
      only :
          (r : Option ℕ × Name) (k' : Kernel)
          → Named b refs t r k'
          → Runs (NamedOne b refs t) S (pure r.0 k')
      only (none, name) k' w = record { ends = w }
      only (some i, name) k' w = record { ends = w }

  pub nameiparent-Named :
      {t : Bool} (refs : List ℕ) (path : List ℕ) (buffer : Name) (k : Kernel)
      → Owns b refs [] t k
      → Runs (Named b refs t) S (nameiparent driver path buffer k)
  unfolding nameiparent
  nameiparent-Named refs path buffer k v = namex-Named driver refs true path buffer k v

  link_bad-Balanced :
      (ip : ℕ) (k : Kernel) → Owns b (ip ∷ []) [] true k → Runs (Balanced b) S (link_bad ip k)
  link_bad-Balanced ip k v =
      >>-Runs (ilock ip) _ k (ilock-Owns (ip ∷ []) [] k v ip (ground arith) (λ e. absurd (cc)))
        (λ _ k1 w. changed (ip ∷ []) (ip ∷ []) ip one_less _ k1 w (λ k2 w2.
          >>-Runs (iunlockput ip) _ k2 (iunlockput-Owns ip [] [] k2 w2 refl)
            (λ _ k3 w3. committed [] [] false k3 w3)))

  dirlink_if :
      (c : Bool) (dp : ℕ) (name : Name) (inum : ℕ) (refs locks : List ℕ) (k : Kernel)
      → Owns b refs locks true k
      → Runs
          (λ _ k'. Owns b refs locks true k')
          S
          ((if c then dirlink driver dp name inum else pure false) k)
  dirlink_if true dp name inum refs locks k v = dirlink-Owns driver refs locks dp name inum k v
  dirlink_if false dp name inum refs locks k v = record { ends = v }

  link_into-Balanced :
      (ip : ℕ) (r : Option ℕ × Name) (k : Kernel)
      → Named b (ip ∷ []) true r k
      → Runs (Balanced b) S (link_into driver ip r k)
  link_into-Balanced ip (none, name) k v = link_bad-Balanced ip k v
  link_into-Balanced ip (some dp, name) k v =
      >>-Runs (ilock dp) _ k (ilock-Owns (dp ∷ ip ∷ []) [] k v dp (ground arith) (λ e. absurd (cc)))
        (λ _ k1 w1.
          gets-Runs (λ k. (slot dp k).dev) _ k1
            (gets-Runs (λ k. (slot ip k).dev) _ k1
              (gets-Runs (λ k. (slot ip k).inum) _ k1
                (>>=-Runs
                  (if (slot dp k1).dev == (slot ip k1).dev
                    then dirlink driver dp name (slot ip k1).inum
                    else pure false)
                  _ k1
                  (dirlink_if ((slot dp k1).dev == (slot ip k1).dev) dp name (slot ip k1).inum
                    (dp ∷ ip ∷ []) (dp ∷ []) k1 w1)
                  (λ linked k2 w2.
                    >>-Runs (iunlockput dp) _ k2 (iunlockput-Owns dp (ip ∷ []) [] k2 w2 refl)
                      (λ _ k3 w3.
                        if-Runs linked _ (link_bad ip) k3
                          (λ _.
                            >>-Runs (iput ip) _ k3 (iput-Owns ip [] [] k3 w3 (λ e. absurd (cc)))
                              (λ _ k4 w4. committed [] [] true k4 w4))
                          (λ _. link_bad-Balanced ip k3 w3)))))))

  link_from-Balanced :
      (new : List ℕ) (buffer : Name) (o : Option ℕ) (k : Kernel)
      → NamedOne b [] false o k
      → Runs (Balanced b) S (link_from driver new buffer o k)
  link_from-Balanced new buffer none k v = record { ends = v }
  link_from-Balanced new buffer (some ip) k v =
      >>-Runs begin_trans _ k (begin_trans-Owns (ip ∷ []) [] k v) (λ _ k1 w1.
        >>-Runs (ilock ip) _ k1 (ilock-Owns (ip ∷ []) [] k1 w1 ip (ground arith) (λ e. absurd (cc)))
          (λ _ k2 w2.
            gets-Runs (λ k. (slot ip k).copy.type) _ k2
              (if-Runs ((slot ip k2).copy.type == t_dir) _ _ k2
                (λ _.
                  >>-Runs (iunlockput ip) _ k2 (iunlockput-Owns ip [] [] k2 w2 refl)
                    (λ _ k3 w3. committed [] [] false k3 w3))
                (λ _. changed (ip ∷ []) (ip ∷ []) ip one_more _ k2 w2 (λ k3 w3.
                  >>-Runs (iunlock ip) _ k3 (iunlock-Owns ip (ip ∷ []) [] k3 w3 refl) (λ _ k4 w4.
                    >>=-Runs (nameiparent driver new buffer) _ k4
                      (nameiparent-Named (ip ∷ []) new buffer k4 w4)
                      (λ r k5 w5. link_into-Balanced ip r k5 w5)))))))

-- link, run while nobody has locked an inode and no transaction is open, never sleeps and does not
-- panic for a lock or a reference that is misused. When it returns, on whatever way, it has given
-- back every reference and lock that it took, and its transaction is closed.
pub sys_link-Balanced :
    (driver : ℕ → Option ℤ) (b : Kernel) (old new : Option (List ℕ)) (buffer : Name)
    → Owns b [] [] false b
    → Runs (Balanced b) Never (sys_link driver old new buffer b)
unfolding sys_link
sys_link-Balanced driver b none new buffer v = record { ends = v }
sys_link-Balanced driver b (some old) none buffer v = record { ends = v }
sys_link-Balanced driver b (some old) (some new) buffer v =
    >>=-Runs (namei driver old buffer) _ b (namei-NamedOne driver [] old buffer b v)
      (λ o k w. link_from-Balanced driver new buffer o k w)
