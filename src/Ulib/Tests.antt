-- ===== src/Ulib/Tests.antt =====
-- A small memory, and witnesses that the theorems on the user library apply to it.
use fp_sisop20_f.Base.{ℕ, ◌+◌, ◌≡◌, ◌≤◌, arith, List, [], ◌∷◌, ◌++◌, length, pos}
use fp_sisop20_f.Memory.{Mem, write}
use fp_sisop20_f.Ulib.{gets}
use fp_sisop20_f.Ulib.Strings.{gets_lem}

-- "hi" at 100, and NULs elsewhere
abbrev word_hi : Mem
word_hi = write (write (λ _. 0) 100 104) 101 105

abbrev typed_line : List ℕ
typed_line = 104 ∷ 105 ∷ 10 ∷ 120 ∷ []

gets_lem_example :
    ((gets (pos 9) typed_line).0 ++ (gets (pos 9) typed_line).1 ≡ typed_line)
    × (length (gets (pos 9) typed_line).0 + 1 ≤ 9)
gets_lem_example = gets_lem 9 typed_line (omega arith)
