-- ===== src/Print/Tests.antt =====
-- A number, and a witness that the theorem on its digits applies.
use fp_sisop20_f.Base.{◌≡◌, arith}
use fp_sisop20_f.Print.{digit_loop, rounds}
use fp_sisop20_f.Print.Digits.{value, AllBelow, digit_loop_lem}

digit_loop_lem_example :
    (value 10 (digit_loop 10 rounds 1234) ≡ 1234)
    × AllBelow 10 (digit_loop 10 rounds 1234)
    × (value 16 (digit_loop 16 rounds 1234) ≡ 1234)
    × AllBelow 16 (digit_loop 16 rounds 1234)
digit_loop_lem_example = digit_loop_lem 1234 (omega arith)
