-- ===== src/Vm/Tests.antt =====
-- An empty page table with free pages, and witnesses that the theorems on page tables apply.
use mathlib.Core.List.Memᴰ
use fp_sisop20_f.Base.{
  ℕ, ◌≡◌, refl, arith, [], ◌∷◌, ◌==◌, ◌&&◌, if◌then◌else◌, true, false, inl, inr,
}
use fp_sisop20_f.Vm.User.{copyout, copyout_loop, uva2ka}
use fp_sisop20_f.Vm.Copies.{IsApart, Holds, copyout_copies}
use fp_sisop20_f.Vm.Copyout.{Copied, copyout-Copied}
use fp_sisop20_f.Vm.{Vm, Pte, no_entry, mappages, walkpgdir}
use fp_sisop20_f.Vm.Pages.{Space}
use fp_sisop20_f.Vm.Maps.{Maps}
use fp_sisop20_f.Vm.Range.{mappages-Maps}

abbrev empty_space : Vm
empty_space = record { tables = λ _ _. no_entry; bytes = λ _ _. 0; free = 8192 ∷ 12288 ∷ [] }

-- The directory is the page 4096.
empty_space-Space : Space 4096 empty_space
empty_space-Space = record {
  apart = λ i j p. absurd (cc);
  own = λ i p. absurd (cc);
  unused = λ i p. absurd (cc);
  kept = λ m. elim (Memᴰ.cases_cons m) [
    | inl e ↦ absurd (omega (arith, e))
    | inr t ↦ absurd (omega (arith, Memᴰ.eq_of_singleton t))
  ];
  distinct = (λ m. absurd (omega (arith, Memᴰ.eq_of_singleton m)), (λ m. elim m [ ], tt));
}

-- two pages, from the middle of one
mappages-Maps_example :
    Maps 4096 2 4096
      (record { addr = 65536; present = true; writable = true; user = false })
      empty_space
      (mappages 4096 5000 4096 65536 true false empty_space)
mappages-Maps_example =
    mappages-Maps 4096 5000 4096 65536 true false empty_space empty_space-Space (omega arith)
      (omega arith) refl (omega arith)

-- The directory is the page 4096, its table the page 8192, and the user has a page at the address 4096.
abbrev user_tables : (table index : ℕ) → Pte
user_tables t i =
    if (t == 4096) && (i == 0)
    then (record { addr = 8192; present = true; writable = true; user = true })
    else (if (t == 8192) && (i == 1)
        then (record { addr = 12288; present = true; writable = true; user = true })
        else no_entry)

abbrev user_space : Vm
user_space = record { tables = user_tables; bytes = λ _ _. 0; free = [] }

copyout-Copied_example :
    Copied 4096 5000 10 user_space (copyout no_entry 4096 5000 (λ i. i) 10 user_space)
copyout-Copied_example = copyout-Copied no_entry 4096 5000 (λ i. i) 10 user_space refl (omega arith)

user_space-IsApart : IsApart 4096 5000 10 user_space
user_space-IsApart = λ x y l h l' h' e. omega arith

copyout_ends : (copyout no_entry 4096 5000 (λ i. i) 10 user_space).0 ≡ true
unfolding copyout copyout_loop uva2ka walkpgdir
copyout_ends = refl

copyout_copies_example :
    Holds 4096 5000 10 (λ i. i) 0 user_space (copyout no_entry 4096 5000 (λ i. i) 10 user_space).1
copyout_copies_example =
    copyout_copies no_entry 4096 5000 (λ i. i) 10 user_space refl (omega arith) user_space-IsApart
      copyout_ends
