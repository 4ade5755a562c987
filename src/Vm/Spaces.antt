-- ===== src/Vm/Spaces.antt =====
-- Whole address spaces: setupkvm, freevm and copyuvm of vm.c.
use fp_sisop20_f.Base.{
  ℕ, zero, suc, ◌+◌, ◌/◌, Bool, true, false, not, Option, none, some, List, [], ◌∷◌, ◌==◌, ltb,
  if◌then◌else◌, update, copy_words, add32, sub32, Result, ok, panic, ◌>>=◌, ◌>>◌, panic_if,
}
use fp_sisop20_f.Vm.{
  Vm, pgsize, nptentries, kernbase, ptx, kalloc, kfree, clear_table, walkpgdir, mappages,
  deallocuvm,
}

-- `struct kmap`; its permission is PTE_W or none.
pub record Kmap : Type 0 where
  pub virt : ℕ
  pub phys_start : ℕ
  pub phys_end : ℕ
  pub writable : Bool

-- EXTMEM, PHYSTOP, DEVSPACE and KERNLINK
abbrev pub extmem : ℕ
extmem = 1048576

abbrev pub phystop : ℕ
phystop = 234881024

abbrev pub devspace : ℕ
devspace = 4261412864

abbrev pub kernlink : ℕ
kernlink = kernbase + extmem

-- `kmap`; the linker chooses the address `data` (`data_start`).
abbrev pub kmap : (data_start : ℕ) → List Kmap
kmap data_start =
    record { virt = kernbase; phys_start = 0; phys_end = extmem; writable = true }
    ∷ record {
      virt = kernlink;
      phys_start = sub32 kernlink kernbase;
      phys_end = sub32 data_start kernbase;
      writable = false;
    }
    ∷ record {
      virt = data_start;
      phys_start = sub32 data_start kernbase;
      phys_end = phystop;
      writable = true;
    }
    ∷ record { virt = devspace; phys_start = devspace; phys_end = 0; writable = true }
    ∷ []

-- the loop of `setupkvm`
unfoldable pub kmap_loop : (pgdir : ℕ) → List Kmap → Vm → Result (Bool × Vm)
unfolding mappages
kmap_loop pgdir [] v = ok (true, v)
kmap_loop pgdir (k ∷ ks) v = do
  (mapped, v') ←
      mappages pgdir k.virt (sub32 k.phys_end k.phys_start) k.phys_start k.writable false v
  let rest = kmap_loop pgdir ks v'
  (if mapped then rest else ok (false, v'))

abbrev pub kernel_space : (data_start : ℕ) → Option ℕ × Vm → Result (Option ℕ × Vm)
kernel_space data_start (none, v) = ok (none, v)
kernel_space data_start (some pgdir, v) = do
  panic_if (ltb devspace (add32 phystop kernbase))
  (mapped, v') ← kmap_loop pgdir (kmap data_start) (clear_table pgdir v)
  ok ((if mapped then some pgdir else none), v')

-- The new directory, if there is one.
unfoldable pub setupkvm : (data_start : ℕ) → Vm → Result (Option ℕ × Vm)
unfolding kmap_loop
setupkvm data_start v = kernel_space data_start (kalloc v)

-- the loop of `freevm` over `k` entries from `i` on
unfoldable pub free_tables : (pgdir i k : ℕ) → Vm → Vm
free_tables pgdir i zero v = v
free_tables pgdir i (suc k) v =
    let pde = v.tables pgdir i in
    free_tables pgdir (i + 1) k (if pde.present then kfree pde.addr v else v)

unfoldable pub freevm : (pgdir : ℕ) → Vm → Result Vm
unfolding deallocuvm free_tables
freevm pgdir v = do
  panic_if (pgdir == 0)
  (_, v') ← deallocuvm pgdir kernbase 0 v
  ok (kfree pgdir (free_tables pgdir 0 nptentries v'))

-- `goto bad` of `copyuvm`
abbrev pub given_up : (d : ℕ) → Vm → Result (Option ℕ × Vm)
given_up d v = freevm d v >>= λ v'. ok (none, v')

-- the body of the loop of `copyuvm` behind its `kalloc`, for the page at `pa`; a page that is copied and
-- cannot be mapped is not freed
abbrev pub copied_page :
    (d i pa : ℕ) → (Vm → Result (Option ℕ × Vm)) → Option ℕ × Vm → Result (Option ℕ × Vm)
copied_page d i pa rest (none, v) = given_up d v
copied_page d i pa rest (some mem, v) =
    let v' = record v {
      bytes = update v.bytes mem (copy_words (v.bytes mem) 0 (v.bytes pa) 0 pgsize);
    } in
    mappages d i pgsize mem true true v' >>= λ (mapped, w). if mapped then rest w else given_up d w

abbrev pub copy_entry :
    (d i : ℕ) → (Vm → Result (Option ℕ × Vm)) → Option ℕ × Vm → Result (Option ℕ × Vm)
copy_entry d i rest (none, v) = panic
copy_entry d i rest (some t, v) =
    let pte = v.tables t (ptx i) in
    panic_if (not pte.present) >> copied_page d i pte.addr rest (kalloc v)

-- A round for each page, and one to end.
unfoldable pub copy_loop : (pgdir d rounds i sz : ℕ) → Vm → Result (Option ℕ × Vm)
unfolding freevm mappages walkpgdir
copy_loop pgdir d zero i sz v = ok (some d, v)
copy_loop pgdir d (suc k) i sz v =
    let copied =
      copy_entry d i (copy_loop pgdir d k (add32 i pgsize) sz) (walkpgdir pgdir i false v) in
    if ltb i sz then copied else ok (some d, v)

abbrev pub copy_into : (pgdir sz : ℕ) → Option ℕ × Vm → Result (Option ℕ × Vm)
copy_into pgdir sz (none, v) = ok (none, v)
copy_into pgdir sz (some d, v) = copy_loop pgdir d (sz / pgsize + 1) 0 sz v

unfoldable pub copyuvm : (data_start pgdir sz : ℕ) → Vm → Result (Option ℕ × Vm)
unfolding setupkvm copy_loop
copyuvm data_start pgdir sz v = setupkvm data_start v >>= copy_into pgdir sz
