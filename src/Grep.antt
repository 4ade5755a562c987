-- ===== src/Grep.antt =====
-- grep.c: the matcher of Kernighan and Pike. An expression and a text are the characters before the
-- NUL. `match` restarts and `matchstar` repeats on ever shorter texts, and `matchhere` goes on with
-- ever shorter expressions.
pub mod Rules
mod Tests
use fp_sisop20_f.Base.{
  ℕ, zero, suc, ◌+◌, Bool, true, false, not, ◌&&◌, ◌||◌, List, [], ◌∷◌, ◌==◌, if◌then◌else◌,
}

-- `do { if(matchhere(re, text)) return 1; } while(*text != '\0' && (*text++ == c || c == '.'))`, for
-- the answers `here` of `matchhere` on the rest of the expression
unfoldable pub star_loop : (c : ℕ) → (here : List ℕ → Bool) → List ℕ → Bool
star_loop c here [] = here []
star_loop c here (t ∷ ts) =
    let rest = star_loop c here ts in here (t ∷ ts) || ((t == c) || (c == 46)) && rest

abbrev pub is_empty : List ℕ → Bool
is_empty [] = true
is_empty (_ ∷ _) = false

-- one character of the text against one of the expression, and then the rest
abbrev pub one_char : (c : ℕ) → (here : List ℕ → Bool) → List ℕ → Bool
one_char c here [] = false
one_char c here (t ∷ ts) = ((c == 46) || (c == t)) && here ts

unfoldable pub matchhere : List ℕ → List ℕ → Bool
unfolding star_loop
matchhere [] text = true
matchhere (c ∷ []) text = if c == 36 then is_empty text else one_char c (λ ts. matchhere [] ts) text
matchhere (c ∷ d ∷ re) text =
    if d == 42
    then star_loop c (λ ts. matchhere re ts) text
    else one_char c (λ ts. matchhere (d ∷ re) ts) text

unfoldable pub matchstar : (c : ℕ) → (re text : List ℕ) → Bool
unfolding star_loop matchhere
matchstar c re text = star_loop c (matchhere re) text

-- the loop of `match`
unfoldable pub search : (here : List ℕ → Bool) → List ℕ → Bool
search here [] = here []
search here (t ∷ ts) = let rest = search here ts in here (t ∷ ts) || rest

unfoldable pub match_re : List ℕ → List ℕ → Bool
unfolding search matchhere
match_re [] text = search (matchhere []) text
match_re (c ∷ re) text = if c == 94 then matchhere re text else search (matchhere (c ∷ re)) text
