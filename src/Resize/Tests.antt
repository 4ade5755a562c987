-- ===== src/Resize/Tests.antt =====
-- A short file, and witnesses that the theorems on its contents apply.
use fp_sisop20_f.Base.{
  min, arith, ℕ, ◌-◌, ◌≡◌, List, [], ◌∷◌, ◌++◌, length, take, replicate, pos, nonneg_part,
}
use fp_sisop20_f.Resize.{truncate, max_size}
use fp_sisop20_f.Resize.Contents.{truncate_lem}

abbrev three_bytes : List ℕ
three_bytes = 1 ∷ 2 ∷ 3 ∷ []

abbrev message : List ℕ
message = 7 ∷ []

truncate_lem_example :
    truncate three_bytes (pos 5)
    ≡ take (nonneg_part (pos 5)) three_bytes
      ++ replicate (min (nonneg_part (pos 5)) max_size - length three_bytes) 0
truncate_lem_example = truncate_lem three_bytes (pos 5) (omega arith)
