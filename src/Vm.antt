-- ===== src/Vm.antt =====
-- Page tables: vm.c over the pages that kalloc.c hands out. A page is known by its physical address and
-- holds either the entries of a page table or bytes; `free` is the free list. `v2p` and `p2v` only
-- change between the two names of a page. What `kfree` fills a free page with is modelled in Kalloc.
pub mod Pages
pub mod Maps
pub mod Range
pub mod Spaces
pub mod User
pub mod Copyout
pub mod Copies
mod Tests
use fp_sisop20_f.Base.{
  ℕ, zero, suc, ◌+◌, ◌-◌, ◌*◌, ◌/◌, ◌%◌, Bool, true, false, not, ◌&&◌, ◌||◌, Option, none, some,
  List, [], ◌∷◌, ◌==◌, ltb, leb, if◌then◌else◌, update, copy_words, add32, sub32, Result, ok, panic,
  ◌>>=◌, ◌>>◌, panic_if,
}

-- An entry of a directory or a table: PTE_ADDR, and the flags PTE_P, PTE_W and PTE_U.
pub record Pte : Type 0 where
  pub addr : ℕ
  pub present : Bool
  pub writable : Bool
  pub user : Bool

pub record Vm : Type 0 where
  pub tables : ℕ → ℕ → Pte
  pub bytes : ℕ → ℕ → ℕ
  pub free : List ℕ

-- PGSIZE, NPTENTRIES and KERNBASE
abbrev pub pgsize : ℕ
pgsize = 4096

abbrev pub nptentries : ℕ
nptentries = 1024

abbrev pub kernbase : ℕ
kernbase = 2147483648

-- PDX, PTX, PGROUNDDOWN and PGROUNDUP of an address of 32 bits
abbrev pub pdx : ℕ → ℕ
pdx va = va / 4194304 % nptentries

abbrev pub ptx : ℕ → ℕ
ptx va = va / pgsize % nptentries

abbrev pub round_down : ℕ → ℕ
round_down a = a / pgsize * pgsize

abbrev pub round_up : ℕ → ℕ
round_up a = round_down (add32 a (pgsize - 1))

abbrev pub no_entry : Pte
no_entry = record { addr = 0; present = false; writable = false; user = false }

abbrev pub set_entry : (table index : ℕ) → Pte → Vm → Vm
set_entry t i e v = record v { tables = update v.tables t (update (v.tables t) i e) }

-- `kalloc` and `kfree`, on the free list
abbrev pub kalloc : Vm → Option ℕ × Vm
kalloc v = elim v.free [ [] ↦ (none, v) | p ∷ l ↦ (some p, record v { free = l }) ]

abbrev pub kfree : ℕ → Vm → Vm
kfree p v = record v { free = p ∷ v.free }

-- `memset(page, 0, PGSIZE)` of a page table, and of a page of bytes
abbrev pub clear_table : ℕ → Vm → Vm
clear_table t v = record v { tables = update v.tables t (λ _. no_entry) }

abbrev pub clear_page : ℕ → Vm → Vm
clear_page p v = record v { bytes = update v.bytes p (λ _. 0) }

-- `walkpgdir` behind its `kalloc`
abbrev pub with_table : (pgdir va : ℕ) → Option ℕ × Vm → Option ℕ × Vm
with_table pgdir va (none, v) = (none, v)
with_table pgdir va (some t, v) = (
  some t,
  set_entry pgdir (pdx va) (record { addr = t; present = true; writable = true; user = true })
      (clear_table t v),
)

-- The entry is that of `ptx va` in the table that is answered.
unfoldable pub walkpgdir : (pgdir va : ℕ) → (alloc : Bool) → Vm → Option ℕ × Vm
walkpgdir pgdir va alloc v =
    let pde = v.tables pgdir (pdx va) in
    if pde.present
    then (some pde.addr, v)
    else (if alloc then with_table pgdir va (kalloc v) else (none, v))

-- the body of the loop of `mappages`, which returns when no table can be allocated
abbrev pub enter : (a : ℕ) → Pte → Option ℕ × Vm → Result (Bool × Vm)
enter a e (none, v) = ok (false, v)
enter a e (some t, v) = panic_if (v.tables t (ptx a)).present >> ok (true, set_entry t (ptx a) e v)

abbrev pub map_page : (pgdir a : ℕ) → Pte → Vm → Result (Bool × Vm)
map_page pgdir a e v = enter a e (walkpgdir pgdir a true v)

-- the entries of a range of physical pages: the address goes on, the permissions stay
abbrev pub next_entry : Pte → Pte
next_entry e = record e { addr = add32 e.addr pgsize }

-- The loop of `mappages`; from `a` to `last` there are `k` pages more.
unfoldable pub map_loop : (pgdir k a last : ℕ) → Pte → Vm → Result (Bool × Vm)
map_loop pgdir zero a last e v = map_page pgdir a e v
map_loop pgdir (suc k) a last e v = do
  (mapped, v') ← map_page pgdir a e v
  let rest = map_loop pgdir k (add32 a pgsize) last (next_entry e) v'
  (if not mapped || (a == last) then ok (mapped, v') else rest)

-- `pa | perm | PTE_P`: PTE_W and PTE_U may stand in the low bits of `pa` too.
abbrev pub entry_for : (pa : ℕ) → (w u : Bool) → Pte
entry_for pa w u = record {
  addr = round_down pa;
  present = true;
  writable = w || (pa / 2 % 2 == 1);
  user = u || (pa / 4 % 2 == 1);
}

-- `false` is -1.
unfoldable pub mappages : (pgdir va size pa : ℕ) → (w u : Bool) → Vm → Result (Bool × Vm)
unfolding map_loop
mappages pgdir va size pa w u v =
    let a = round_down va in
    let last = round_down (sub32 (add32 va size) 1) in
    map_loop pgdir (sub32 last a / pgsize) a last (entry_for pa w u) v

-- the body of the loop of `deallocuvm`: the address that it goes on with
abbrev pub drop_page : (pgdir a : ℕ) → Option ℕ × Vm → Result (ℕ × Vm)
drop_page pgdir a (none, v) = ok (add32 a (nptentries * pgsize), v)
drop_page pgdir a (some t, v) =
    let e = v.tables t (ptx a) in
    if e.present
    then panic_if (e.addr == 0)
      >> ok (add32 a pgsize, set_entry t (ptx a) no_entry (kfree e.addr v))
    else ok (add32 a pgsize, v)

-- Each round goes on by a page at least.
unfoldable pub dealloc_loop : (pgdir k a oldsz : ℕ) → Vm → Result Vm
dealloc_loop pgdir zero a oldsz v = ok v
dealloc_loop pgdir (suc k) a oldsz v =
    let rest = drop_page pgdir a (walkpgdir pgdir a false v) >>= λ (b, v').
    dealloc_loop pgdir k b oldsz v' in
    if ltb a oldsz then rest else ok v

unfoldable pub deallocuvm : (pgdir oldsz newsz : ℕ) → Vm → Result (ℕ × Vm)
unfolding dealloc_loop
deallocuvm pgdir oldsz newsz v =
    if leb oldsz newsz
    then ok (oldsz, v)
    else (dealloc_loop pgdir (oldsz / pgsize + 1) (round_up newsz) oldsz v >>= λ v'. ok (newsz, v'))

-- the body of the loop of `allocuvm` behind its `kalloc`; what `mappages` answers is not looked at
abbrev pub grow_page : (pgdir a oldsz newsz : ℕ) → Option ℕ × Vm → Result (Bool × Vm)
grow_page pgdir a oldsz newsz (none, v) =
    deallocuvm pgdir newsz oldsz v >>= λ (_, v'). ok (false, v')
grow_page pgdir a oldsz newsz (some p, v) =
    mappages pgdir a pgsize p true true (clear_page p v) >>= λ (_, v'). ok (true, v')

unfoldable pub alloc_loop : (pgdir k a oldsz newsz : ℕ) → Vm → Result (ℕ × Vm)
alloc_loop pgdir zero a oldsz newsz v = ok (newsz, v)
alloc_loop pgdir (suc k) a oldsz newsz v =
    let rest = grow_page pgdir a oldsz newsz (kalloc v) >>= λ (grown, v').
    let more = alloc_loop pgdir k (add32 a pgsize) oldsz newsz v' in
    if grown then more else ok (0, v') in
    if ltb a newsz then rest else ok (newsz, v)

unfoldable pub allocuvm : (pgdir oldsz newsz : ℕ) → Vm → Result (ℕ × Vm)
unfolding alloc_loop
allocuvm pgdir oldsz newsz v =
    if leb kernbase newsz
    then ok (0, v)
    else (if ltb newsz oldsz
        then ok (oldsz, v)
        else alloc_loop pgdir (newsz / pgsize + 1) (round_up oldsz) oldsz newsz v)

-- Clear PTE_U of the entry.
abbrev pub kernel_only : ℕ → Option ℕ × Vm → Result Vm
kernel_only uva (none, v) = panic
kernel_only uva (some t, v) =
    ok (set_entry t (ptx uva) (record (v.tables t (ptx uva)) { user = false }) v)

unfoldable pub clearpteu : (pgdir uva : ℕ) → Vm → Result Vm
unfolding walkpgdir
clearpteu pgdir uva v = kernel_only uva (walkpgdir pgdir uva false v)
