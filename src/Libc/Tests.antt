-- ===== src/Libc/Tests.antt =====
-- A small memory, and witnesses that the theorems on string.c apply to it.
use fp_sisop20_f.Base.{◌+◌, ◌-◌, ◌≡◌, if◌then◌else◌}
use fp_sisop20_f.Memory.{Mem, write}
use fp_sisop20_f.Libc.{memmove}
use fp_sisop20_f.Libc.Copy.{within, memmove_lem}

-- "hi" at 100, and NULs elsewhere
abbrev greeting : Mem
greeting = write (write (λ _. 0) 100 104) 101 105

memmove_lem_example :
    memmove greeting 101 100 2 102
    ≡ (if within 101 2 102 then greeting (100 + (102 - 101)) else greeting 102)
memmove_lem_example = memmove_lem greeting 101 100 2 102
