-- ===== src/Calls/Unlink.antt =====
-- unlink gives back all that it takes.
use fp_sisop20_f.Base.{
  ℕ, ◌≡◌, refl, arith, Bool, true, false, Option, none, some, List, [], ◌∷◌, ◌==◌, ◌||◌,
  if◌then◌else◌, ℤ, subst,
}
use fp_sisop20_f.Content.{writei}
use fp_sisop20_f.Dir.{Name, t_dir, entry_size, namecmp, is_zero, is_whole}
use fp_sisop20_f.Vfs.{
  Kernel, in_call, slot, ◌>>◌, pure, fail, ilock, iunlockput, iupdate, change, on_contents,
}
use fp_sisop20_f.Vfs.Names.{lookup, writes, nameiparent}
use fp_sisop20_f.Vfs.Runs.{Runs, >>=-Runs, >>-Runs, gets-Runs, if-Runs}
use fp_sisop20_f.Vfs.Owned.{Owns, Owns-reorder, Owns-relock, member}
use fp_sisop20_f.Vfs.Operations.{
  ilock-Owns, ilock-free, change-Owns, iupdate-Owns, iunlockput-Owns, on_contents-Owns,
}
use fp_sisop20_f.Vfs.Entries.{Found, lookup-Found, writes-Owns}
use fp_sisop20_f.Vfs.Paths.{Named}
use fp_sisop20_f.Calls.Balance.{Deadlocks, Balanced, begin_trans-Owns, committed, changed}
use fp_sisop20_f.Calls.Links.{nameiparent-Named}
use fp_sisop20_f.Calls.{
  begin_trans, one_less, no_link, dot, dot_dot, isdirempty, unlink_bad, unlink_entry, unlink_found,
  unlink_in, sys_unlink,
}

-- The inode that is found is the directory itself, which is locked.
pub same-Deadlocks :
    {b : Kernel} (ip dp : ℕ) (k : Kernel)
    → Owns b (ip ∷ dp ∷ []) (dp ∷ []) true k
    → member ip (dp ∷ []) ≡ true
    → Deadlocks b [] k
same-Deadlocks {b} ip dp k v m =
    let q : ip ≡ dp = ground arith in (dp, subst (λ x. Owns b (x ∷ dp ∷ []) (dp ∷ []) true k) q v)

guard-Owns :
    {b : Kernel} {S : Kernel → Type 0} {t : Bool} (c : Bool) (refs locks : List ℕ) (k : Kernel)
    → Owns b refs locks t k
    → Runs (λ _ k'. Owns b refs locks t k') S ((if c then fail in_call else pure tt) k)
guard-Owns true refs locks k v = record { ends = tt }
guard-Owns false refs locks k v = record { ends = v }

whole-Owns :
    {b : Kernel} {S : Kernel → Type 0} {t : Bool} (c : Bool) (refs locks : List ℕ) (k : Kernel)
    → Owns b refs locks t k
    → Runs (λ _ k'. Owns b refs locks t k') S ((if c then pure tt else fail in_call) k)
whole-Owns true refs locks k v = record { ends = v }
whole-Owns false refs locks k v = record { ends = tt }

module _ (driver : ℕ → Option ℤ) {b : Kernel} where
  unlink_bad-Balanced :
      (dp : ℕ) (k : Kernel)
      → Owns b (dp ∷ []) (dp ∷ []) true k
      → Runs (Balanced b) (Deadlocks b []) (unlink_bad dp k)
  unlink_bad-Balanced dp k v =
      >>-Runs (iunlockput dp) _ k (iunlockput-Owns dp [] [] k v refl)
        (λ _ k1 w. committed [] [] false k1 w)

  less_link :
      (c : Bool) (dp : ℕ) (refs locks : List ℕ) (k : Kernel)
      → Owns b refs locks true k
      → Runs
          (λ _ k'. Owns b refs locks true k')
          (Deadlocks b [])
          ((if c then change dp one_less >> iupdate dp else pure tt) k)
  less_link true dp refs locks k v =
      >>-Runs (change dp one_less) _ k (change-Owns refs locks k v dp one_less)
        (λ _ k1 w. iupdate-Owns refs locks k1 w dp)
  less_link false dp refs locks k v = record { ends = v }

  unlink_entry-Balanced :
      (dp off ip type : ℕ) (k : Kernel)
      → Owns b (ip ∷ dp ∷ []) (ip ∷ dp ∷ []) true k
      → member ip (dp ∷ []) ≡ false
      → Runs (Balanced b) (Deadlocks b []) (unlink_entry driver dp off ip type k)
  unlink_entry-Balanced dp off ip type k v m =
      let two = ip ∷ dp ∷ [] in
      gets-Runs (λ k. (slot dp k).inum) _ k
        (>>=-Runs (writes driver dp (writei driver (slot dp k).inum off entry_size (λ _. 0))) _ k
          (writes-Owns driver two two dp (writei driver (slot dp k).inum off entry_size (λ _. 0)) k
            v)
          (λ r k1 w1.
            >>-Runs (if is_whole r then pure tt else fail in_call) _ k1
              (whole-Owns (is_whole r) two two k1 w1)
              (λ _ k2 w2.
                >>-Runs (if type == t_dir then change dp one_less >> iupdate dp else pure tt) _ k2
                  (less_link (type == t_dir) dp two two k2 w2)
                  (λ _ k3 w3.
                    >>-Runs (iunlockput dp) _ k3
                      (iunlockput-Owns dp (ip ∷ []) (ip ∷ []) k3
                        (Owns-relock (dp ∷ ip ∷ []) two (dp ∷ ip ∷ []) (λ j. ground arith)
                          (Owns-reorder two (dp ∷ ip ∷ []) two (λ j. ground arith) w3))
                        (ground arith))
                      (λ _ k4 w4. changed (ip ∷ []) (ip ∷ []) ip one_less _ k4 w4 (λ k5 w5.
                        >>-Runs (iunlockput ip) _ k5 (iunlockput-Owns ip [] [] k5 w5 refl)
                          (λ _ k6 w6. committed [] [] true k6 w6)))))))

  check_empty :
      (c : Bool) (ip : ℕ) (refs locks : List ℕ) (k : Kernel)
      → Owns b refs locks true k
      → Runs
          (λ _ k'. Owns b refs locks true k')
          (Deadlocks b [])
          ((if c then on_contents ip (isdirempty driver) else pure true) k)
  check_empty true ip refs locks k v = on_contents-Owns refs locks k v ip (isdirempty driver)
  check_empty false ip refs locks k v = record { ends = v }

  unlink_found-Balanced :
      (dp : ℕ) (o : Option (ℕ × ℕ)) (k : Kernel)
      → Found b (dp ∷ []) (dp ∷ []) true o k
      → Runs (Balanced b) (Deadlocks b []) (unlink_found driver dp o k)
  unlink_found-Balanced dp none k v = unlink_bad-Balanced dp k v
  unlink_found-Balanced dp (some (off, ip)) k v =
      let two = ip ∷ dp ∷ [] in
      >>-Runs (ilock ip) _ k
        (ilock-free two (dp ∷ []) k v ip (ground arith) (same-Deadlocks ip dp k v))
        (λ _ k1 (w1, m).
          gets-Runs (λ k. (slot ip k).copy.nlink) _ k1
            (>>-Runs (if no_link (slot ip k1).copy.nlink then fail in_call else pure tt) _ k1
              (guard-Owns (no_link (slot ip k1).copy.nlink) two two k1 w1)
              (λ _ k2 w2.
                gets-Runs (λ k. (slot ip k).copy.type) _ k2
                  (>>=-Runs
                    (if (slot ip k2).copy.type == t_dir
                      then on_contents ip (isdirempty driver)
                      else pure true)
                    _ k2 (check_empty ((slot ip k2).copy.type == t_dir) ip two two k2 w2)
                    (λ e k3 w3.
                      if-Runs e _ _ k3
                        (λ _. unlink_entry-Balanced dp off ip (slot ip k2).copy.type k3 w3 m)
                        (λ _.
                          >>-Runs (iunlockput ip) _ k3
                            (iunlockput-Owns ip (dp ∷ []) (dp ∷ []) k3 w3 m)
                            (λ _ k4 w4. unlink_bad-Balanced dp k4 w4)))))))

  unlink_in-Balanced :
      (r : Option ℕ × Name) (k : Kernel)
      → Named b [] false r k
      → Runs (Balanced b) (Deadlocks b []) (unlink_in driver r k)
  unlink_in-Balanced (none, name) k v = record { ends = v }
  unlink_in-Balanced (some dp, name) k v =
      >>-Runs begin_trans _ k (begin_trans-Owns (dp ∷ []) [] k v) (λ _ k1 w1.
        >>-Runs (ilock dp) _ k1 (ilock-Owns (dp ∷ []) [] k1 w1 dp (ground arith) (λ e. absurd (cc)))
          (λ _ k2 w2.
            if-Runs (is_zero (namecmp name dot) || is_zero (namecmp name dot_dot)) _ _ k2
              (λ _. unlink_bad-Balanced dp k2 w2)
              (λ _.
                >>=-Runs (lookup driver name dp) _ k2
                  (lookup-Found driver (dp ∷ []) (dp ∷ []) name dp k2 w2)
                  (λ o k3 w3. unlink_found-Balanced dp o k3 w3))))

-- unlink, run while nobody has locked an inode and no transaction is open: when it returns, on
-- whatever way, it has given back every reference and lock that it took, and its transaction is
-- closed. It sleeps only on an inode that it has locked itself, within its transaction. It does not panic for a lock or a reference that is misused.
pub sys_unlink-Balanced :
    (driver : ℕ → Option ℤ) (b : Kernel) (path : Option (List ℕ)) (buffer : Name)
    → Owns b [] [] false b
    → Runs (Balanced b) (Deadlocks b []) (sys_unlink driver path buffer b)
unfolding sys_unlink
sys_unlink-Balanced driver b none buffer v = record { ends = v }
sys_unlink-Balanced driver b (some path) buffer v =
    >>=-Runs (nameiparent driver path buffer) _ b (nameiparent-Named driver [] path buffer b v)
      (λ r k w. unlink_in-Balanced driver r k w)
