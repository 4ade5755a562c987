-- ===== src/Dir/Elements.antt =====
-- skipelem splits a path at its slashes.
use fp_sisop20_f.Base.{
  ℕ, zero, suc, ◌<◌, ◌≤◌, ◌≡◌, refl, ◌∙◌, ap, sym, arith, inl, inr, false, none, some, List, [],
  ◌∷◌, ◌++◌, append-nil, append_assoc, Bool-cases, ◌==◌, if◌then◌else◌, length,
}
use fp_sisop20_f.Dir.{Name, skip_slashes, element, set_name, skip_from, skipelem}

-- The reference: the pieces between slashes that are not empty. `cur` is the piece so far.
abbrev pub close : List ℕ → List (List ℕ) → List (List ℕ)
close [] ps = ps
close (c ∷ cs) ps = (c ∷ cs) ∷ ps

abbrev pub pieces : (cur path : List ℕ) → List (List ℕ)
pieces cur [] = close cur []
pieces cur (c ∷ cs) = if c == 47 then close cur (pieces [] cs) else pieces (cur ++ c ∷ []) cs

-- the names that calls of `skipelem` give until it answers 0, each in a `name` of its own
pub all_names : (fuel : ℕ) → List ℕ → Name → List Name
all_names zero path name = []
all_names (suc k) path name = elim (skipelem path name) [
  | none ↦ []
  | some (n, rest) ↦ n ∷ all_names k rest name
]

abbrev pub named : List (List ℕ) → Name → List Name
named [] name = []
named (s ∷ ss) name = set_name s name ∷ named ss name

pub pieces_slashes : (path : List ℕ) → pieces [] (skip_slashes path) ≡ pieces [] path
unfolding skip_slashes
pieces_slashes [] = refl
pieces_slashes (c ∷ cs) = elim (Bool-cases (c == 47)) [
  | inl e ↦ rw e (pieces_slashes cs)
  | inr e ↦ rw e (rw e refl)
]

pub pieces-element :
    (cur path : List ℕ)
    → pieces cur path ≡ close (cur ++ (element path).0) (pieces [] (element path).1)
unfolding element
pieces-element cur [] = rw (append-nil cur) refl
pieces-element cur (c ∷ cs) = elim (Bool-cases (c == 47)) [
  | inl e ↦ rw (e, append-nil cur) (rw e refl)
  | inr e ↦ rw e (
      pieces-element (cur ++ c ∷ []) cs
      ∙ ap (λ (t : List ℕ). close t (pieces [] (element cs).1))
          (append_assoc cur (c ∷ []) (element cs).0))
]

pub length-skip_slashes : (path : List ℕ) → length (skip_slashes path) ≤ length path
unfolding skip_slashes
length-skip_slashes [] = omega arith
length-skip_slashes (c ∷ cs) = elim (Bool-cases (c == 47)) [
  | inl e ↦ rw e (omega (arith, length-skip_slashes cs))
  | inr e ↦ rw e (omega arith)
]

pub length-element : (path : List ℕ) → length (element path).1 ≤ length path
unfolding element
length-element [] = omega arith
length-element (c ∷ cs) = elim (Bool-cases (c == 47)) [
  | inl e ↦ rw e (omega arith)
  | inr e ↦ rw e (omega (arith, length-element cs))
]

-- no slash is left in front
pub no_slash :
    (path : List ℕ) (c : ℕ) (cs : List ℕ) → skip_slashes path ≡ c ∷ cs → (c == 47) ≡ false
unfolding skip_slashes
no_slash [] c cs e = cc
no_slash (d ∷ ds) c cs e = elim (Bool-cases (d == 47)) [
  | inl h ↦ no_slash ds c cs (rw h at e)
  | inr h ↦ let q = rw h at e in let dc : d ≡ c = cc in ap (λ (x : ℕ). x == 47) (sym dc) ∙ h
]

-- Calls of `skipelem` until it answers 0 give the pieces between the slashes of the path that are not
-- empty, in order, each cut at 14 characters; one more call than the path has characters is enough.
pub all_names_lem :
    (fuel : ℕ) (path : List ℕ) (name : Name)
    → length path < fuel
    → all_names fuel path name ≡ named (pieces [] path) name
unfolding all_names skipelem
all_names_lem zero path name h = absurd (omega arith)
all_names_lem (suc k) path name h =
    by_rest (skip_slashes path) refl (λ p l. all_names_lem k p name l)
    ∙ ap (λ (ps : List (List ℕ)). named ps name) (pieces_slashes path)
  where
    by_rest :
        (q : List ℕ)
        → skip_slashes path ≡ q
        → ((p : List ℕ) → length p < k → all_names k p name ≡ named (pieces [] p) name)
        → (elim (skip_from q name) as (λ _. List Name) [
          | none ↦ []
          | some (n, rest) ↦ n ∷ all_names k rest name
        ])
          ≡ named (pieces [] q) name
    by_rest [] e ih = refl
    by_rest (c ∷ cs) e ih =
        let n = no_slash path c cs e in
        let rest = (element cs).1 in
        let l = ap length e in
        let short : length (skip_slashes rest) < k =
          omega (arith, length-skip_slashes rest, length-element cs, length-skip_slashes path, l) in
        rw n (
          ap (λ (ns : List Name). set_name (c ∷ (element cs).0) name ∷ ns)
            (ih (skip_slashes rest) short
              ∙ ap (λ (ps : List (List ℕ)). named ps name) (pieces_slashes rest))
          ∙ ap (λ (ps : List (List ℕ)). named ps name) (sym (pieces-element (c ∷ []) cs)))
