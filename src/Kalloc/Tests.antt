-- ===== src/Kalloc/Tests.antt =====
-- An empty allocator, and witnesses that the theorems on it apply.
use fp_sisop20_f.Base.{ℕ, ◌+◌, ◌-◌, ◌*◌, ◌/◌, ◌≡◌, refl, arith, false, List, [], ◌∷◌, ok}
use fp_sisop20_f.Kalloc.{Kmem, kern_base, page_size, round_up, freerange}
use fp_sisop20_f.Kalloc.Chain.{Frees, pages_onto, freerange-Frees}

abbrev no_pages : Kmem
no_pages = record { use_lock = false; freelist = 0; next = λ _. 0; mem = λ _. 0 }

abbrev low : ℕ
low = kern_base + 10

abbrev high : ℕ
high = kern_base + 3 * page_size

freerange-Frees_example :
    (k' : Kmem) × (freerange kern_base no_pages low high ≡ ok k')
    × Frees k' (pages_onto (round_up low) ((high - round_up low) / page_size) [])
    × (k'.use_lock ≡ false)
freerange-Frees_example =
    freerange-Frees kern_base no_pages low high [] (omega arith) (omega arith) (omega arith)
      (omega arith) refl (λ j lt. tt)

abbrev one_page : Kmem
one_page = record no_pages { freelist = 4096 }

abbrev one_item : List ℕ
one_item = 4096 ∷ []
