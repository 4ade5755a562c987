-- ===== src/Dir/Skips.antt =====
-- One call of skipelem takes one element of the path.
use fp_sisop20_f.Base.{
  ℕ, ◌<◌, ◌≡◌, refl, ◌∙◌, ap, subst, arith, Bool, true, false, none, some, Option, List, [], ◌∷◌,
  length,
}
use fp_sisop20_f.Dir.{Name, skip_slashes, element, set_name, skip_from, skipelem}
use fp_sisop20_f.Dir.Elements.{
  pieces, pieces_slashes, pieces-element, length-skip_slashes, length-element, no_slash,
}

abbrev pub is_empty : {A : Type 0} → List A → Bool
is_empty [] = true
is_empty (_ ∷ _) = false

-- what a call takes, of a path with the given elements
abbrev pub Skips : (path : List ℕ) → Name → List (List ℕ) → Option (Name × List ℕ) → Type 0
Skips path name [] o = o ≡ none
Skips path name (p ∷ ps) o =
    (rest : List ℕ) × (o ≡ some (set_name p name, rest))
    × (pieces [] rest ≡ ps)
    × (length rest < length path)
    × (is_empty rest ≡ is_empty ps)

-- behind slashes, a path is empty exactly if it has no elements
is_empty-pieces : (path : List ℕ) → is_empty (skip_slashes path) ≡ is_empty (pieces [] path)
is_empty-pieces path = by_start (skip_slashes path) refl ∙ ap is_empty (pieces_slashes path)
  where
    by_start : (q : List ℕ) → skip_slashes path ≡ q → is_empty q ≡ is_empty (pieces [] q)
    by_start [] e = refl
    by_start (c ∷ cs) e = rw (no_slash path c cs e, pieces-element (c ∷ []) cs) refl

pub skipelem-Skips :
    (path : List ℕ) (name : Name) → Skips path name (pieces [] path) (skipelem path name)
unfolding skipelem
skipelem-Skips path name =
    subst (λ ps. Skips path name ps (skip_from (skip_slashes path) name)) (pieces_slashes path)
      (by_start (skip_slashes path) refl)
  where
    by_start :
        (q : List ℕ) → skip_slashes path ≡ q → Skips path name (pieces [] q) (skip_from q name)
    by_start [] e = refl
    by_start (c ∷ cs) e =
        let n = no_slash path c cs e in
        let rest = (element cs).1 in
        let l = ap length e in
        rw (n, pieces-element (c ∷ []) cs)
          (
            skip_slashes rest,
            refl,
            pieces_slashes rest,
            omega (arith, length-skip_slashes rest, length-element cs, length-skip_slashes path, l),
            is_empty-pieces rest,
          )
