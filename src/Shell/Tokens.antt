-- ===== src/Shell/Tokens.antt =====
-- The tokens of the shell: how much of the line they take, and what a word is.
use fp_sisop20_f.Base.{
  ℕ, ◌<◌, ◌≤◌, ◌≡◌, ◌≢◌, refl, subst, arith, inl, inr, true, false, Bool-cases, List, [], ◌∷◌, ◌==◌,
  length,
}
use fp_sisop20_f.Shell.{
  among, whitespace, symbols, skip, in_word, word_loop, after_gt, token_at, gettoken, starts_with,
  peek,
}

pub skip-length : (s : List ℕ) → length (skip s) ≤ length s
unfolding skip
skip-length [] = omega arith
skip-length (c ∷ s) = elim (Bool-cases (among c whitespace)) [
  | inl e ↦ rw e (omega (arith, skip-length s))
  | inr e ↦ rw e (omega arith)
]

-- What is left starts with a character of a token, if there is one.
Starts : List ℕ → Type 0
Starts [] = Unit
Starts (c ∷ s) = among c whitespace ≡ false

skip-Starts : (s : List ℕ) → Starts (skip s)
unfolding skip Starts
skip-Starts [] = tt
skip-Starts (c ∷ s) = elim (Bool-cases (among c whitespace)) [
  | inl e ↦ rw e (skip-Starts s)
  | inr e ↦ rw e e
]

word_loop-length : (s : List ℕ) → length (word_loop s).1 ≤ length s
unfolding word_loop
word_loop-length [] = omega arith
word_loop-length (c ∷ s) = elim (Bool-cases (in_word c)) [
  | inl e ↦ rw e (omega (arith, word_loop-length s))
  | inr e ↦ rw e (omega arith)
]

abbrev pub AllInWord : List ℕ → Type 0
AllInWord [] = Unit
AllInWord (c ∷ w) = (in_word c ≡ true) × AllInWord w

-- One character at least, and no white space and no symbol.
abbrev pub IsWord : List ℕ → Type 0
IsWord [] = ⊥
IsWord (c ∷ w) = (in_word c ≡ true) × AllInWord w

word_loop-AllInWord : (s : List ℕ) → AllInWord (word_loop s).0
unfolding word_loop
word_loop-AllInWord [] = tt
word_loop-AllInWord (c ∷ s) = elim (Bool-cases (in_word c)) [
  | inl e ↦ rw e (e, word_loop-AllInWord s)
  | inr e ↦ rw e tt
]

-- What a token is: the end of the line, or something of the line is taken, and a word is one.
abbrev pub Takes : List ℕ → ℕ × List ℕ × List ℕ → Type 0
Takes [] (ret, text, rest) = (ret ≡ 0) × (length rest ≤ 0)
Takes (c ∷ s) (ret, text, rest) = (length rest ≤ length s) × (ret ≡ 97 → IsWord text)

after_gt-Takes : (c : ℕ) (s : List ℕ) → Takes (c ∷ s) (after_gt s)
after_gt-Takes c [] = (omega arith, λ e. absurd (omega (arith, e)))
after_gt-Takes c (d ∷ s) = elim (Bool-cases (d == 62)) [
  | inl e ↦ rw e (omega arith, λ q. absurd (omega (arith, q)))
  | inr e ↦ rw e (omega arith, λ q. absurd (omega (arith, q)))
]

-- 'a' is no symbol.
symbol-ne : (c : ℕ) → among c symbols ≡ true → c ≢ 97
symbol-ne c e q = absurd (ground arith)

token_at-Takes : (s : List ℕ) → Starts s → Takes s (token_at s)
unfolding token_at Starts
token_at-Takes [] h = (refl, omega arith)
token_at-Takes (c ∷ s) h = elim (Bool-cases (c == 62)) [
  | inl e ↦ rw e (after_gt-Takes c s)
  | inr e ↦ elim (Bool-cases (among c symbols)) [
    | inl f ↦ rw (f, e) (omega arith, λ q. absurd (symbol-ne c f q))
    | inr f ↦
        let g : in_word c ≡ true = rw (h, f) refl in
        rw (g, f, e) (word_loop-length s, λ _. (g, word_loop-AllInWord s))
  ]
]

Takes-skip :
    (s text rest : List ℕ) (ret : ℕ) → Takes s (ret, text, rest) → Takes s (ret, text, skip rest)
Takes-skip [] text rest ret (p, q) = (p, omega (arith, skip-length rest))
Takes-skip (c ∷ s) text rest ret (p, q) = (omega (arith, skip-length rest), q)

pub gettoken-Takes : (s : List ℕ) → Takes (skip s) (gettoken s)
unfolding gettoken
gettoken-Takes s =
    let (ret, text, rest) = token_at (skip s) in
    Takes-skip (skip s) (token_at (skip s)).1 (token_at (skip s)).2 (token_at (skip s)).0
      (token_at-Takes (skip s) (skip-Starts s))

skip_same : (s : List ℕ) → Starts s → skip s ≡ s
unfolding skip Starts
skip_same [] h = refl
skip_same (c ∷ s) h = rw h refl

shorter :
    (t : List ℕ) (n ret : ℕ) (text rest : List ℕ)
    → Takes t (ret, text, rest)
    → length t ≤ n
    → (length rest ≤ n) × (ret ≢ 0 → length rest < n) × (ret ≡ 97 → IsWord text)
shorter [] n ret text rest (p, q) l =
    (omega arith, λ e. absurd (e p), λ e. absurd (omega (arith, p, e)))
shorter (c ∷ s) n ret text rest (p, q) l = (omega arith, λ _. omega arith, q)

pub gettoken_lem :
    (s : List ℕ)
    → (length (gettoken s).2 ≤ length s)
      × ((gettoken s).0 ≢ 0 → length (gettoken s).2 < length s)
      × ((gettoken s).0 ≡ 97 → IsWord (gettoken s).1)
gettoken_lem s =
    shorter (skip s) (length s) (gettoken s).0 (gettoken s).1 (gettoken s).2 (gettoken-Takes s)
      (skip-length s)

found_shorter :
    (toks t : List ℕ) (n ret : ℕ) (text rest : List ℕ)
    → Takes t (ret, text, rest)
    → length t ≤ n
    → starts_with toks t ≡ true
    → length rest < n
found_shorter toks [] n ret text rest h l e = absurd (cc)
found_shorter toks (c ∷ s) n ret text rest (p, q) l e = omega arith

-- The token that `peek` has found is taken off the line.
pub peek_lem :
    (toks s : List ℕ)
    → (length (peek toks s).1 ≤ length s)
      × (length (gettoken (peek toks s).1).2 ≤ length s)
      × ((peek toks s).0 ≡ true → length (gettoken (peek toks s).1).2 < length s)
unfolding peek
peek_lem toks s =
    let t = skip s in
    let h : Takes t (gettoken t) =
      subst (λ x. Takes x (gettoken t)) (skip_same t (skip-Starts s)) (gettoken-Takes t) in
    let (le, _, _) = gettoken_lem t in
    let l = skip-length s in
    (
      l,
      omega (arith, le, l),
      found_shorter toks t (length s) (gettoken t).0 (gettoken t).1 (gettoken t).2 h l,
    )
