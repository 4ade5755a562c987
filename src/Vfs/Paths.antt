-- ===== src/Vfs/Paths.antt =====
-- Following a path.
use fp_sisop20_f.Base.{
  ℕ, zero, suc, refl, arith, Bool, true, false, not, ◌&&◌, Option, none, some, List, [], ◌∷◌, ◌==◌,
  if◌then◌else◌, ℤ, length,
}
use fp_sisop20_f.Dir.{Name, t_dir, skipelem}
use fp_sisop20_f.Vfs.{Kernel, Act, slot, iget, idup, ilock, iunlock, iput, iunlockput, ◌>>◌, pure}
use fp_sisop20_f.Vfs.Names.{
  lookup, at_last, searched, step, path_after, name_after, walk, no_path, is_absolute, root_dev,
  root_ino, namex,
}
use fp_sisop20_f.Vfs.Runs.{Runs, >>=-Runs, >>-Runs, gets-Runs, if-Runs}
use fp_sisop20_f.Vfs.Owned.{Owns, Owns-reorder}
use fp_sisop20_f.Vfs.Operations.{
  iget-Owns, idup-Owns, iput-Owns, ilock-Owns, iunlock-Owns, iunlockput-Owns,
}
use fp_sisop20_f.Vfs.Entries.{Found, lookup-Found}

-- What `namex` answers is a reference to the inode that it found.
abbrev pub Named : Kernel → (refs : List ℕ) → Bool → Option ℕ × Name → Kernel → Type 0
Named b refs t (none, name) k = Owns b refs [] t k
Named b refs t (some i, name) k = Owns b (i ∷ refs) [] t k

module _ (driver : ℕ → Option ℤ) {b : Kernel} {t : Bool} {S : Kernel → Type 0} (refs : List ℕ) where
  at_last-Named :
      (parent : Bool) (ip : ℕ) (name : Name) (k : Kernel)
      → Owns b (ip ∷ refs) [] t k
      → Runs (Named b refs t) S (at_last driver parent ip name k)
  at_last-Named true ip name k v =
      >>-Runs (iput ip) _ k (iput-Owns ip refs [] k v (λ e. absurd (cc)))
        (λ _ k' w. record { ends = w })
  at_last-Named false ip name k v = record { ends = v }

  give_up :
      (ip : ℕ) (name : Name) (k : Kernel)
      → Owns b (ip ∷ refs) (ip ∷ []) t k
      → Runs (Named b refs t) S ((iunlockput ip >> pure (none, name)) k)
  give_up ip name k v =
      >>-Runs (iunlockput ip) _ k (iunlockput-Owns ip refs [] k v refl)
        (λ _ k' w. record { ends = w })

  searched-Named :
      (on : ℕ → Act (Option ℕ × Name)) (ip : ℕ) (name : Name) (o : Option (ℕ × ℕ)) (k : Kernel)
      → ((next : ℕ) (k' : Kernel)
          → Owns b (next ∷ refs) [] t k'
          → Runs (Named b refs t) S (on next k'))
      → Found b (ip ∷ refs) (ip ∷ []) t o k
      → Runs (Named b refs t) S (searched driver on ip name o k)
  searched-Named on ip name none k h v = give_up ip name k v
  searched-Named on ip name (some (off, next)) k h v =
      >>-Runs (iunlockput ip) (on next) k
        (iunlockput-Owns ip (next ∷ refs) [] k
          (Owns-reorder (next ∷ ip ∷ refs) (ip ∷ next ∷ refs) (ip ∷ []) (λ j. ground arith) v) refl)
        (λ _ k' w. h next k' w)

  step-Named :
      (on : ℕ → Act (Option ℕ × Name)) (parent : Bool) (ip : ℕ) (o : Option (Name × List ℕ))
      (name : Name) (k : Kernel)
      → ((next : ℕ) (k' : Kernel)
          → Owns b (next ∷ refs) [] t k'
          → Runs (Named b refs t) S (on next k'))
      → Owns b (ip ∷ refs) [] t k
      → Runs (Named b refs t) S (step driver on parent ip o name k)
  step-Named on parent ip none name k h v = at_last-Named parent ip name k v
  step-Named on parent ip (some (name', rest)) name k h v =
      >>-Runs (ilock ip) _ k (ilock-Owns (ip ∷ refs) [] k v ip (ground arith) (λ e. absurd (cc)))
        (λ _ k1 w.
          gets-Runs (λ k. (slot ip k).copy.type) _ k1
            (if-Runs (not ((slot ip k1).copy.type == t_dir)) _ _ k1 (λ _. give_up ip name' k1 w)
              (λ _.
                if-Runs (parent && no_path rest) _ _ k1
                  (λ _.
                    >>-Runs (iunlock ip) _ k1 (iunlock-Owns ip (ip ∷ refs) [] k1 w refl)
                      (λ _ k2 u. record { ends = u }))
                  (λ _.
                    >>=-Runs (lookup driver name' ip) _ k1
                      (lookup-Found driver (ip ∷ refs) (ip ∷ []) name' ip k1 w)
                      (λ o k2 u. searched-Named on ip name' o k2 h u)))))

  walk-Named :
      (n : ℕ) (parent : Bool) (path : List ℕ) (ip : ℕ) (name : Name) (k : Kernel)
      → Owns b (ip ∷ refs) [] t k
      → Runs (Named b refs t) S (walk driver n parent path ip name k)
  unfolding walk
  walk-Named zero parent path ip name k v = at_last-Named parent ip name k v
  walk-Named (suc n) parent path ip name k v =
      step-Named _ parent ip (skipelem path name) name k
        (λ next k' w.
          walk-Named n parent (path_after driver (skipelem path name)) next
            (name_after driver (skipelem path name) name) k' w)
        v

  -- namex from a state where the caller has locked no inode and nobody else has one: it never sleeps,
  -- and it does not panic for a lock or a reference that is misused. When it returns, it has given
  -- back all that it took but the reference to the inode that it answers, and no inode is locked.
  pub namex-Named :
      (parent : Bool) (path : List ℕ) (buffer : Name) (k : Kernel)
      → Owns b refs [] t k
      → Runs (Named b refs t) S (namex driver parent path buffer k)
  unfolding namex
  namex-Named parent path buffer k v =
      gets-Runs (λ k. k.cwd) _ k
        (>>=-Runs (if is_absolute path then iget root_dev root_ino else idup k.cwd) _ k
          (if-Runs (is_absolute path) (iget root_dev root_ino) (idup k.cwd) k
            (λ _. iget-Owns refs [] k v root_dev root_ino) (λ _. idup-Owns refs [] k v k.cwd))
          (λ ip k' w. walk-Named (suc (length path)) parent path ip buffer k' w))
