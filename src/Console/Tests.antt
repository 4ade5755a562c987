-- ===== src/Console/Tests.antt =====
-- A blank console, and witnesses that the theorems on it apply.
use fp_sisop20_f.Base.{ℕ, refl, arith, List, [], ◌∷◌, replicate}
use fp_sisop20_f.Console.{Screen, Input, consoleintr}
use fp_sisop20_f.Console.Line.{IsLine, Keeps, consoleintr-IsLine}

abbrev last_cell : Screen
last_cell = record { cells = λ _. 0; cursor = 1919 }

-- a complete line "ab", of which the first character has been read, and a "c" after it
abbrev one_line : Input
one_line = record { buf = 97 ∷ 98 ∷ 10 ∷ 99 ∷ replicate 124 0; r = 1; w = 3; e = 4 }

one_line-IsLine : IsLine one_line
one_line-IsLine = record {
  whole = refl;
  r_word = omega arith;
  w_word = omega arith;
  e_word = omega arith;
  fits = omega arith;
}

-- "hx", a backspace, C('U'), "i" and the return key
abbrev keys : List ℕ
keys = 104 ∷ 120 ∷ 8 ∷ 21 ∷ 105 ∷ 13 ∷ []

consoleintr-IsLine_example :
    IsLine (consoleintr keys one_line).0 × Keeps one_line (consoleintr keys one_line).0
consoleintr-IsLine_example = consoleintr-IsLine keys one_line one_line-IsLine
