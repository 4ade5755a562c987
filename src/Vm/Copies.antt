-- ===== src/Vm/Copies.antt =====
-- What copyout has copied.
use fp_sisop20_f.Base.{
  ℕ, zero, suc, ◌+◌, ◌-◌, ◌%◌, ◌<◌, ◌≤◌, ◌≡◌, ◌≢◌, refl, sym, ap, subst, ◌∙◌, arith, ◌⊎◌, inl, inr,
  Bool, true, ◌&&◌, Bool-cases, Option, none, some, ◌==◌, leb, ltb, if◌then◌else◌, update_self,
  copy_words_lem, word, add32,
}
use fp_sisop20_f.Vm.{Pte, Vm, pgsize, round_down}
use fp_sisop20_f.Vm.Pages.{entry_of}
use fp_sisop20_f.Vm.User.{uva2ka, in_page, write_page, copy_page, copyout_loop, copyout}
use fp_sisop20_f.Vm.Copyout.{
  IsUser, IsNoUser, uva2ka_lem, entry_of-page, in_page_lem, Copied, copyout_loop-Copied,
}

-- No two pages of the range are one.
abbrev pub IsApart : (pgdir va len : ℕ) → Vm → Type 0
IsApart pgdir va len v =
    (x y : ℕ)
    → va ≤ x
    → x < va + len
    → va ≤ y
    → y < va + len
    → (entry_of pgdir v x).addr ≡ (entry_of pgdir v y).addr
    → round_down x ≡ round_down y

-- The bytes of the range are those of `p` from `from` on.
abbrev pub Holds : (pgdir va len : ℕ) → (p : ℕ → ℕ) → (from : ℕ) → (v v' : Vm) → Type 0
Holds pgdir va len p from v v' =
    (x : ℕ)
    → va ≤ x
    → x < va + len
    → v'.bytes (entry_of pgdir v x).addr (x % pgsize) ≡ p (from + (x - va))

-- a byte of the first page, when it is written
first_byte :
    (pgdir va n page x : ℕ) (p : ℕ → ℕ) (from : ℕ) (v : Vm)
    → n ≤ pgsize - (va - round_down va)
    → va ≤ x
    → x < va + n
    → (write_page page (va - round_down va) p from n v).bytes page (x % pgsize)
      ≡ p (from + (x - va))
first_byte pgdir va n page x p from v hn l h =
    let e : (leb (va - round_down va) (x % pgsize) && ltb (x % pgsize) (va - round_down va + n))
        ≡ true =
      ground arith in
    let z : x % pgsize - (va - round_down va) ≡ x - va = omega arith in
    ap (λ f. f (x % pgsize)) (update_self v.bytes page _)
    ∙ copy_words_lem (v.bytes page) (va - round_down va) p from n (x % pgsize)
    ∙ rw (e, z) refl

page_copies :
    (pgdir va len n b : ℕ) (p : ℕ → ℕ) (from : ℕ) (v : Vm) (o : Option ℕ) (rest : Vm → Bool × Vm)
    → ((page : ℕ) → o ≡ some page → IsUser pgdir (round_down va) page v)
    → va + len ≤ word
    → n ≤ len
    → n ≤ pgsize - (va - round_down va)
    → (n ≡ len) ⊎ ((b ≡ va + n) × (n ≡ pgsize - (va - round_down va)))
    → IsApart pgdir va len v
    → ((w : Vm) → Copied pgdir b (len - n) w (rest w))
    → ((w : Vm)
        → w.tables ≡ v.tables
        → (rest w).0 ≡ true
        → Holds pgdir b (len - n) p (from + n) w (rest w).1)
    → (copy_page o rest (λ page. write_page page (va - round_down va) p from n v) v).0 ≡ true
    → Holds pgdir va len p from v
        (copy_page o rest (λ page. write_page page (va - round_down va) p from n v) v).1
page_copies pgdir va len n b p from v none rest u hw hl hn at apart c ih e x l h = absurd (cc)
page_copies pgdir va len n b p from v (some page) rest u hw hl hn at apart c ih e x l h =
    let w = write_page page (va - round_down va) p from n v in
    elim (Bool-cases (ltb x (va + n))) [
      | inl f ↦
          let z : round_down x ≡ round_down va = ground arith in
          let q : entry_of pgdir v x ≡ entry_of pgdir v (round_down va) =
            entry_of-page pgdir x v (omega arith) ∙ ap (entry_of pgdir v) z in
          let (_, _, r) = u page refl in
          let addr : (entry_of pgdir v x).addr ≡ page = ap (λ y. y.addr) q ∙ r in
          ap (λ y. (rest w).1.bytes y (x % pgsize)) addr
          ∙ (c w).untouched page (x % pgsize) (λ y ly hy (_, _, s) same.
              let t : round_down x ≡ round_down y =
                apart x y l h (omega (arith, at)) (omega (arith, at)) (addr ∙ sym s) in
              absurd (omega (arith, at, t, z)))
          ∙ first_byte pgdir va n page x p from v hn l (ground arith)
      | inr f ↦
          let g : va + n ≤ x = ground arith in
          let z : from + n + (x - b) ≡ from + (x - va) = omega (arith, at) in
          ih w refl e x (omega (arith, at)) (omega (arith, at)) ∙ ap p z
    ]

copyout_loop_copies :
    (null : Pte) (pgdir k va : ℕ) (p : ℕ → ℕ) (from len : ℕ) (v : Vm)
    → IsNoUser null
    → va + len ≤ word
    → len ≤ k
    → IsApart pgdir va len v
    → (copyout_loop null pgdir k va p from len v).0 ≡ true
    → Holds pgdir va len p from v (copyout_loop null pgdir k va p from len v).1
unfolding copyout_loop
copyout_loop_copies null pgdir zero va p from len v n hw h apart ends =
    λ x l r. absurd (omega arith)
copyout_loop_copies null pgdir (suc k) va p from len v n hw h apart ends =
    elim (Bool-cases (len == 0)) [
      | inl e ↦ λ x l r. absurd (ground arith)
      | inr e ↦
          let (some_bytes, less, fits, last) = in_page_lem va len (ground arith) in
          let b = add32 (round_down va) pgsize in
          let m = in_page va len in
          let rest =
            copy_page (uva2ka null pgdir (round_down va) v)
              (copyout_loop null pgdir k b p (from + m) (len - m))
              (λ page. write_page page (va - round_down va) p from m v) v in
          let at : (m ≡ len) ⊎ ((b ≡ va + m) × (m ≡ pgsize - (va - round_down va))) =
            next va len m hw less last in
          subst
            (λ t.
              (if t then (true, v) else rest).0 ≡ true
              → Holds pgdir va len p from v (if t then (true, v) else rest).1)
            (sym e)
            (page_copies pgdir va len m b p from v (uva2ka null pgdir (round_down va) v)
              (copyout_loop null pgdir k b p (from + m) (len - m))
              (λ page q. uva2ka_lem null pgdir (round_down va) page v n q) hw less fits at apart
              (λ w.
                copyout_loop-Copied null pgdir k b p (from + m) (len - m) w n
                  (omega (arith, at, less)) (omega (arith, some_bytes)))
              (λ w same t.
                copyout_loop_copies null pgdir k b p (from + m) (len - m) w n
                  (omega (arith, at, less)) (omega (arith, some_bytes))
                  (λ x y lx hx ly hy s.
                    apart x y (omega (arith, at)) (omega (arith, at)) (omega (arith, at))
                      (omega (arith, at))
                      (subst
                        (λ ts.
                          (entry_of pgdir (record v { tables = ts }) x).addr
                          ≡ (entry_of pgdir (record v { tables = ts }) y).addr)
                        same s))
                  t))
            ends
    ]
  where
    next :
        (va len n : ℕ)
        → va + len ≤ word
        → n ≤ len
        → (n ≡ len) ⊎ (n ≡ pgsize - (va - round_down va))
        → (n ≡ len)
          ⊎ ((add32 (round_down va) pgsize ≡ va + n) × (n ≡ pgsize - (va - round_down va)))
    next va len n hw less (inl e) = inl e
    next va len n hw less (inr e) = elim (Bool-cases (n == len)) [
      | inl f ↦ inl (ground arith)
      | inr f ↦
          let g : n ≢ len = ground arith in
          let z : (round_down va + pgsize) % word ≡ va + n = omega arith in inr (z, e)
    ]

-- Where address 0 holds no entry that the user may have and no two pages of the range are one, a copyout
-- of a range of the address space that succeeds has copied every byte of it.
pub copyout_copies :
    (null : Pte) (pgdir va : ℕ) (p : ℕ → ℕ) (len : ℕ) (v : Vm)
    → IsNoUser null
    → va + len ≤ word
    → IsApart pgdir va len v
    → (copyout null pgdir va p len v).0 ≡ true
    → Holds pgdir va len p 0 v (copyout null pgdir va p len v).1
unfolding copyout
copyout_copies null pgdir va p len v n h apart e =
    copyout_loop_copies null pgdir len va p 0 len v n h (omega arith) apart e
