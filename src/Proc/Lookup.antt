-- ===== src/Proc/Lookup.antt =====
-- Slots of the process table: what the searches and updates of proc.c do to each.
use mathlib.Core.Option
use fp_sisop20_f.Base.{
  ℕ, zero, suc, ◌+◌, ◌<◌, ◌≡◌, refl, ◌∙◌, ap, sym, subst, inl, inr, Bool, true, false, Option, none,
  some, List, [], ◌∷◌, map, arith, ◌==◌, if◌then◌else◌, Bool-cases, get_elem?, length,
}
use fp_sisop20_f.Proc.{Proc, find, modify}

pub get-modify :
    (i : ℕ) (f : Proc → Proc) (ps : List Proc) (j : ℕ)
    → get_elem? (modify i f ps) j
      ≡ (if j == i then Option.map f (get_elem? ps j) else get_elem? ps j)
unfolding modify
get-modify i f [] j = ground arith
get-modify zero f (p ∷ ps) zero = refl
get-modify zero f (p ∷ ps) (suc j) = ground arith
get-modify (suc i) f (p ∷ ps) zero = ground arith
get-modify (suc i) f (p ∷ ps) (suc j) = get-modify i f ps j ∙ ground arith

pub opt_ext :
    (f g : Proc → Proc)
    → ((p : Proc) → f p ≡ g p)
    → (o : Option Proc) → Option.map f o ≡ Option.map g o
opt_ext f g e none = refl
opt_ext f g e (some p) = ap some (e p)

pub opt_comp :
    (f g h : Proc → Proc)
    → ((p : Proc) → f (g p) ≡ h p)
    → (o : Option Proc) → Option.map f (Option.map g o) ≡ Option.map h o
opt_comp f g h e none = refl
opt_comp f g h e (some p) = ap some (e p)

pub opt_id : (f : Proc → Proc) → ((p : Proc) → f p ≡ p) → (o : Option Proc) → Option.map f o ≡ o
opt_id f e none = refl
opt_id f e (some p) = ap some (e p)

pub opt_if :
    (b : Bool) (f : Proc → Proc) (o : Option Proc)
    → (if b then Option.map f o else o) ≡ Option.map (λ p. if b then f p else p) o
opt_if true f o = refl
opt_if false f o = sym (opt_id (λ p. p) (λ p. refl) o)

pub length-modify : (i : ℕ) (f : Proc → Proc) (ps : List Proc) → length (modify i f ps) ≡ length ps
unfolding modify
length-modify i f [] = refl
length-modify zero f (p ∷ ps) = refl
length-modify (suc i) f (p ∷ ps) = ap suc (length-modify i f ps)

pub get-map :
    (f : Proc → Proc) (ps : List Proc) (j : ℕ)
    → get_elem? (map f ps) j ≡ Option.map f (get_elem? ps j)
get-map f [] j = refl
get-map f (p ∷ ps) zero = refl
get-map f (p ∷ ps) (suc j) = get-map f ps j

pub length-map : (f : Proc → Proc) (ps : List Proc) → length (map f ps) ≡ length ps
length-map f [] = refl
length-map f (p ∷ ps) = ap suc (length-map f ps)

-- what a search from slot `i` finds
abbrev pub Finds : (Proc → Bool) → ℕ → List Proc → Option ℕ → Type 0
Finds test i ps none = (k : ℕ) (p : Proc) → get_elem? ps k ≡ some p → test p ≡ false
Finds test i ps (some j) =
    (k : ℕ) × (j ≡ i + k)
    × ((p : Proc) × (get_elem? ps k ≡ some p) × (test p ≡ true))
    × ((k' : ℕ) (p : Proc) → k' < k → get_elem? ps k' ≡ some p → test p ≡ false)

all_fail :
    (test : Proc → Bool) (p : Proc) (ps : List Proc) (n : ℕ)
    → test p ≡ false
    → ((k : ℕ) (q : Proc) → k < n → get_elem? ps k ≡ some q → test q ≡ false)
    → (k : ℕ) (q : Proc) → k < suc n
    → get_elem? (p ∷ ps) k ≡ some q
    → test q ≡ false
all_fail test p ps n e h zero q l g = let pq : p ≡ q = cc in rw (← pq) e
all_fail test p ps n e h (suc k) q l g = h k q (omega arith) g

Finds-suc :
    (test : Proc → Bool) (i : ℕ) (p : Proc) (ps : List Proc) (r : Option ℕ)
    → test p ≡ false
    → Finds test (i + 1) ps r
    → Finds test i (p ∷ ps) r
Finds-suc test i p ps none e h =
    λ k q g. all_fail test p ps k e (λ k' q' l g'. h k' q' g') k q (omega arith) g
Finds-suc test i p ps (some j) e (k, s, found, before) =
    (suc k, omega arith, found, all_fail test p ps k e before)

-- `find` gives the first slot whose process passes the test, and none only if no process does.
pub find-Finds : (test : Proc → Bool) (i : ℕ) (ps : List Proc) → Finds test i ps (find test i ps)
unfolding find
find-Finds test i [] = λ k p e. absurd (cc)
find-Finds test i (p ∷ ps) = elim (Bool-cases (test p)) [
  | inl e ↦ rw e (0, omega arith, (p, refl, e), λ k' q l. absurd (omega arith))
  | inr e ↦ rw e (Finds-suc test i p ps _ e (find-Finds test (i + 1) ps))
]

pub modify-modify :
    (i : ℕ) (f g : Proc → Proc) (ps : List Proc)
    → modify i g (modify i f ps) ≡ modify i (λ p. g (f p)) ps
unfolding modify
modify-modify i f g [] = refl
modify-modify zero f g (p ∷ ps) = refl
modify-modify (suc i) f g (p ∷ ps) = ap (λ l. p ∷ l) (modify-modify i f g ps)

-- a search from slot 0
pub find_at :
    (test : Proc → Bool) (ps : List Proc) (i : ℕ)
    → find test 0 ps ≡ some i
    → (p : Proc) × (get_elem? ps i ≡ some p) × (test p ≡ true)
find_at test ps i e =
    let f : Finds test 0 ps (some i) = subst (Finds test 0 ps) e (find-Finds test 0 ps) in
    let (k, s, (p, a, t), _) = f in let k' : k ≡ i = omega arith in (p, rw (← k') a, t)

pub find-none :
    (test : Proc → Bool) (ps : List Proc) (k : ℕ) (p : Proc)
    → find test 0 ps ≡ none
    → get_elem? ps k ≡ some p
    → test p ≡ false
find-none test ps k p e =
    let f : Finds test 0 ps none = subst (Finds test 0 ps) e (find-Finds test 0 ps) in f k p
