-- ===== src/Vm/User.antt =====
-- The kernel's way to user memory: uva2ka and copyout of vm.c.
use fp_sisop20_f.Base.{
  ℕ, zero, suc, ◌+◌, ◌-◌, Bool, true, false, not, ◌||◌, Option, none, some, ◌==◌, ltb,
  if◌then◌else◌, update, copy_words, add32,
}
use fp_sisop20_f.Vm.{Pte, Vm, pgsize, ptx, round_down, walkpgdir}

-- The entry that `walkpgdir` points to. `null` is what address 0 holds: `uva2ka` reads it when there is no
-- table.
abbrev pub pointed_to : (null : Pte) → (uva : ℕ) → Option ℕ × Vm → Pte
pointed_to null uva (none, v) = null
pointed_to null uva (some t, v) = v.tables t (ptx uva)

-- The page of a user address, if the user may have it.
unfoldable pub uva2ka : (null : Pte) → (pgdir uva : ℕ) → Vm → Option ℕ
unfolding walkpgdir
uva2ka null pgdir uva v =
    let e = pointed_to null uva (walkpgdir pgdir uva false v) in
    if not e.present || not e.user then none else some e.addr

-- how many bytes of `len` at `va` lie in its page
abbrev pub in_page : (va len : ℕ) → ℕ
in_page va len = let n = pgsize - (va - round_down va) in if ltb len n then len else n

abbrev pub write_page : (page at : ℕ) → (ℕ → ℕ) → (from n : ℕ) → Vm → Vm
write_page page at p from n v = record v {
  bytes = update v.bytes page (copy_words (v.bytes page) at p from n);
}

abbrev pub copy_page : Option ℕ → (Vm → Bool × Vm) → (ℕ → Vm) → Vm → Bool × Vm
copy_page none rest written v = (false, v)
copy_page (some page) rest written v = rest (written page)

-- The loop of `copyout` on the bytes `p` of the kernel, of which `from` are copied. Each round copies one
-- byte at least.
unfoldable pub copyout_loop :
    (null : Pte) → (pgdir rounds va : ℕ) → (p : ℕ → ℕ) → (from len : ℕ) → Vm → Bool × Vm
unfolding uva2ka
copyout_loop null pgdir zero va p from len v = (true, v)
copyout_loop null pgdir (suc k) va p from len v =
    let va0 = round_down va in
    let n = in_page va len in
    let copied =
      copy_page (uva2ka null pgdir va0 v)
        (copyout_loop null pgdir k (add32 va0 pgsize) p (from + n) (len - n))
        (λ page. write_page page (va - va0) p from n v) v in
    if len == 0 then (true, v) else copied

-- `false` is -1.
unfoldable pub copyout : (null : Pte) → (pgdir va : ℕ) → (p : ℕ → ℕ) → (len : ℕ) → Vm → Bool × Vm
unfolding copyout_loop
copyout null pgdir va p len v = copyout_loop null pgdir len va p 0 len v
