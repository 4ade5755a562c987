-- ===== src/Grep/Rules.antt =====
-- The matcher decides the matching relation.
use fp_sisop20_f.Base.{
  ℕ, ◌≡◌, ◌≢◌, refl, arith, ◌⊎◌, inl, inr, ◌↔◌, Bool, true, List, [], ◌∷◌, Bool-cases, ◌==◌,
}
use fp_sisop20_f.Grep.{matchhere, star_loop, one_char}

-- a character that `c` in an expression stands for
abbrev pub Fits : ℕ → ℕ → Type 0
Fits c t = (c ≡ 46) ⊎ (c ≡ t)

-- The expression `re` matches a beginning of the text: a star stands for any number of characters that
-- fit, `$` at the end for the end of the text.
pub data Matches : List ℕ → List ℕ → Type 0 where
  done : {text : List ℕ} → Matches [] text
  at_end : Matches (36 ∷ []) []
  star_none : {c : ℕ} {re text : List ℕ} → Matches re text → Matches (c ∷ 42 ∷ re) text
  star_more :
      {c t : ℕ} {re text : List ℕ}
      → Fits c t
      → Matches (c ∷ 42 ∷ re) text
      → Matches (c ∷ 42 ∷ re) (t ∷ text)
  last_char : {c t : ℕ} {text : List ℕ} → c ≢ 36 → Fits c t → Matches (c ∷ []) (t ∷ text)
  char :
      {c d t : ℕ} {re text : List ℕ}
      → d ≢ 42
      → Fits c t
      → Matches (d ∷ re) text
      → Matches (c ∷ d ∷ re) (t ∷ text)

star_sound :
    (c : ℕ) (re : List ℕ) (here : List ℕ → Bool) (text : List ℕ)
    → ((ts : List ℕ) → here ts ≡ true → Matches re ts)
    → star_loop c here text ≡ true
    → Matches (c ∷ 42 ∷ re) text
unfolding star_loop
star_sound c re here [] h e = star_none (h [] e)
star_sound c re here (t ∷ ts) h e = elim (Bool-cases (here (t ∷ ts))) [
  | inl b ↦ star_none (h (t ∷ ts) b)
  | inr b ↦ star_more (ground arith) (star_sound c re here ts h (ground arith))
]

matchhere-Matches : (re text : List ℕ) → matchhere re text ≡ true → Matches re text
unfolding matchhere
matchhere-Matches [] text e = done
matchhere-Matches (c ∷ []) [] e = elim (Bool-cases (c == 36)) [
  | inl b ↦ let q : c ≡ 36 = ground arith in rw q at_end
  | inr b ↦ absurd (ground arith)
]
matchhere-Matches (c ∷ []) (t ∷ ts) e = last_char (ground arith) (ground arith)
matchhere-Matches (c ∷ d ∷ re) text e = elim (Bool-cases (d == 42)) [
  | inl b ↦
      let q : d ≡ 42 = ground arith in
      rw q
        (star_sound c re (λ ts. matchhere re ts) text (λ ts. matchhere-Matches re ts) (rw b at e))
  | inr b ↦ by_text text (λ ts. matchhere-Matches (d ∷ re) ts) (rw b at e) (ground arith)
]
  where
    by_text :
        (text : List ℕ)
        → ((ts : List ℕ) → matchhere (d ∷ re) ts ≡ true → Matches (d ∷ re) ts)
        → one_char c (λ ts. matchhere (d ∷ re) ts) text ≡ true
        → d ≢ 42
        → Matches (c ∷ d ∷ re) text
    by_text [] h e ne = absurd (cc)
    by_text (t ∷ ts) h e ne = char ne (ground arith) (h ts (ground arith))

star_here :
    (c : ℕ) (here : List ℕ → Bool) (text : List ℕ) → here text ≡ true → star_loop c here text ≡ true
unfolding star_loop
star_here c here [] e = e
star_here c here (t ∷ ts) e = ground arith

complete : {re text : List ℕ} → Matches re text → matchhere re text ≡ true
unfolding matchhere star_loop
complete done = refl
complete at_end = refl
complete {text} (star_none {c} {re} m) = star_here c (λ ts. matchhere re ts) text (complete m)
complete (star_more f m) = let e = complete m in ground arith
complete (last_char ne f) = ground arith
complete (char ne f m) = let e = complete m in ground arith

-- `matchhere` answers 1 exactly where the expression matches a beginning of the text.
pub matchhere_iff : (re text : List ℕ) → (matchhere re text ≡ true) ↔ Matches re text
matchhere_iff re text = (matchhere-Matches re text, complete)
