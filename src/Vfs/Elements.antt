-- ===== src/Vfs/Elements.antt =====
-- The loop of namex over the elements of its path.
use fp_sisop20_f.Base.{
  ℕ, Bool, not, ◌&&◌, Option, none, some, List, [], ◌∷◌, ◌==◌, if◌then◌else◌, ℤ,
}
use fp_sisop20_f.Dir.{Name, t_dir, set_name}
use fp_sisop20_f.Dir.Skips.{Skips, is_empty}
use fp_sisop20_f.Vfs.{Act, slot, ilock, iunlock, iput, iunlockput, gets, ◌>>=◌, ◌>>◌, pure}
use fp_sisop20_f.Vfs.Names.{lookup, searched}

module _ (driver : ℕ → Option ℤ) (parent : Bool) where
  -- From directory to directory, one for each element; the parent's is the last but one.
  pub visit : (elements : List (List ℕ)) → (ip : ℕ) → Name → Act (Option ℕ × Name)
  visit [] ip name = if parent then iput ip >> pure (none, name) else pure (some ip, name)
  visit (p ∷ ps) ip name = do
    ilock ip
    type ← gets (λ k. (slot ip k).copy.type)
    if not (type == t_dir)
        then iunlockput ip >> pure (none, set_name p name)
        else (if parent && is_empty ps then iunlock ip >> pure (some ip, set_name p name) else (do
          found ← lookup driver (set_name p name) ip
          searched driver (λ next. visit ps next (set_name p name)) ip (set_name p name) found))

  -- a round behind skipelem, and what it depends on
  abbrev round :
      (on : ℕ → Act (Option ℕ × Name)) → (last : Bool) → (ip : ℕ) → Name → Act (Option ℕ × Name)
  round on last ip name = do
    ilock ip
    type ← gets (λ k. (slot ip k).copy.type)
    if not (type == t_dir)
        then iunlockput ip >> pure (none, name)
        else (if parent && last
            then iunlock ip >> pure (some ip, name)
            else (lookup driver name ip >>= searched driver on ip name))
