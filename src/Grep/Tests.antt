-- ===== src/Grep/Tests.antt =====
-- An expression and a text, and a witness that the theorem on them applies.
use fp_sisop20_f.Base.{ℕ, ◌≡◌, ◌↔◌, true, List, [], ◌∷◌}
use fp_sisop20_f.Grep.{matchhere}
use fp_sisop20_f.Grep.Rules.{Matches, matchhere_iff}

-- a*b and aab
abbrev pattern_ab : List ℕ
pattern_ab = 97 ∷ 42 ∷ 98 ∷ []

abbrev text_aab : List ℕ
text_aab = 97 ∷ 97 ∷ 98 ∷ []

matchhere_iff_example : (matchhere pattern_ab text_aab ≡ true) ↔ Matches pattern_ab text_aab
matchhere_iff_example = matchhere_iff pattern_ab text_aab
