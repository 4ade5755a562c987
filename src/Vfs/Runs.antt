-- ===== src/Vfs/Runs.antt =====
-- What a call ends with: it returns, or sleeps, or panics, each with a property.
use fp_sisop20_f.Base.{Bool, true, false, ◌≡◌, refl, if◌then◌else◌}
use fp_sisop20_f.Vfs.{
  Kernel, Site, in_ilock, in_files, in_iunlock, in_iput, Outcome, done, asleep, panicked, Act,
  then_do, ◌>>=◌, ◌>>◌, gets,
}

-- A panic that is not for misuse of a lock or a reference.
abbrev pub IsResource : Site → Type 0
IsResource in_ilock = ⊥
IsResource in_files = ⊥
IsResource in_iunlock = ⊥
IsResource in_iput = ⊥
IsResource _ = Unit

abbrev pub Ends : {A : Type 0} → (A → Kernel → Type 0) → (Kernel → Type 0) → Outcome A → Type 0
Ends Q S (done a k) = Q a k
Ends Q S (asleep k) = S k
Ends Q S (panicked s) = IsResource s

-- It returns with `Q`, sleeps with `S`, or panics, but never for misuse of a lock or a reference.
pub record Runs {A : Type 0} (Q : A → Kernel → Type 0) (S : Kernel → Type 0) (o : Outcome A)
    : Type 0 where
  pub ends : Ends Q S o

module _ {A B : Type 0} {S : Kernel → Type 0} where
  then_do-Runs :
      (Q : A → Kernel → Type 0) (R : B → Kernel → Type 0) (o : Outcome A) (f : A → Act B)
      → Ends Q S o
      → ((a : A) (k : Kernel) → Q a k → Runs R S (f a k))
      → Runs R S (then_do o f)
  then_do-Runs Q R (done a k) f q g = g a k q
  then_do-Runs Q R (asleep k) f q g = record { ends = q }
  then_do-Runs Q R (panicked s) f q g = record { ends = q }

  pub >>=-Runs :
      {Q : A → Kernel → Type 0} {R : B → Kernel → Type 0} (m : Act A) (f : A → Act B) (k : Kernel)
      → Runs Q S (m k)
      → ((a : A) (k' : Kernel) → Q a k' → Runs R S (f a k'))
      → Runs R S ((m >>= f) k)
  unfolding ◌>>=◌
  >>=-Runs {Q} {R} m f k r g = then_do-Runs Q R (m k) f r.ends g

  pub >>-Runs :
      {Q : A → Kernel → Type 0} {R : B → Kernel → Type 0} (m : Act A) (n : Act B) (k : Kernel)
      → Runs Q S (m k)
      → ((a : A) (k' : Kernel) → Q a k' → Runs R S (n k'))
      → Runs R S ((m >> n) k)
  unfolding ◌>>◌
  >>-Runs {Q} {R} m n k r g = then_do-Runs Q R (m k) (λ _. n) r.ends g

  pub gets-Runs :
      {R : B → Kernel → Type 0} (h : Kernel → A) (f : A → Act B) (k : Kernel)
      → Runs R S (f (h k) k)
      → Runs R S ((gets h >>= f) k)
  unfolding gets ◌>>=◌
  gets-Runs h f k r = r

module _ {A : Type 0} {S : Kernel → Type 0} where
  pub if-Runs :
      {Q : A → Kernel → Type 0} (b : Bool) (m n : Act A) (k : Kernel)
      → (b ≡ true → Runs Q S (m k))
      → (b ≡ false → Runs Q S (n k))
      → Runs Q S ((if b then m else n) k)
  if-Runs true m n k f g = f refl
  if-Runs false m n k f g = g refl

  pub weaken-Runs :
      {Q R : A → Kernel → Type 0} (o : Outcome A)
      → Runs Q S o
      → ((a : A) (k : Kernel) → Q a k → R a k)
      → Runs R S o
  weaken-Runs (done a k) r f = record { ends = f a k r.ends }
  weaken-Runs (asleep k) r f = record { ends = r.ends }
  weaken-Runs (panicked s) r f = record { ends = r.ends }

  pub guard-Runs :
      {Q : A → Kernel → Type 0} (c : Bool) (o o' : Outcome A)
      → Runs Q S o
      → Runs Q S o'
      → Runs Q S (if c then o else o')
  guard-Runs true o o' r r' = r
  guard-Runs false o o' r r' = r'
