-- ===== src/Syscall/Tests.antt =====
-- A small process, and witnesses that the theorems on its arguments apply.
use fp_sisop20_f.Base.{none, some, [], ◌∷◌}
use fp_sisop20_f.Syscall.{User}

abbrev caller : User
caller = record { mem = λ _. 0; sz = 4096; esp = 4000; ofile = some 1 ∷ none ∷ some 2 ∷ none ∷ [] }
