-- ===== src/Vm/Range.antt =====
-- mappages maps a range of pages and nothing else.
use fp_sisop20_f.Base.{
  ℕ, zero, suc, ◌+◌, ◌-◌, ◌*◌, ◌/◌, ◌%◌, ◌<◌, ◌≤◌, ◌≡◌, refl, sym, ap, ap₂, subst, ◌∙◌, arith, inl,
  inr, Bool, true, false, not, ◌&&◌, ◌||◌, Bool-cases, ◌==◌, leb, ltb, if◌then◌else◌, word, add32,
  sub32, Result, ok, panic, ◌>>=◌,
}
use fp_sisop20_f.Vm.{
  Pte, Vm, pgsize, map_page, next_entry, map_loop, mappages, entry_for, round_down,
}
use fp_sisop20_f.Vm.Pages.{entry_of, Space}
use fp_sisop20_f.Vm.Maps.{Maps, Mapped, map_page-Maps}

-- After the first page, the range goes on with the next entry.
Mapped-next :
    (pgdir n a : ℕ) (e : Pte) (v v1 v2 : Vm)
    → a + suc n * pgsize ≤ word
    → a % pgsize ≡ 0
    → Mapped pgdir 1 a e v v1
    → Mapped pgdir n (a + pgsize) (record e { addr = e.addr + pgsize }) v1 v2
    → Mapped pgdir (suc n) a e v v2
Mapped-next pgdir n a e v v1 v2 h al f g x lx =
    g x lx ∙ elim (Bool-cases (leb (a + pgsize) x && ltb x (a + pgsize + n * pgsize))) [
      | inl q ↦
          let r : (leb a x && ltb x (a + suc n * pgsize)) ≡ true = ground arith in
          let z : e.addr + pgsize + (x - (a + pgsize)) / pgsize * pgsize
              ≡ e.addr + (x - a) / pgsize * pgsize =
            ground arith in
          rw (q, r) (ap (λ y. record e { addr = y }) z)
      | inr q ↦ rw q (
          f x lx ∙ elim (Bool-cases (leb a x && ltb x (a + 1 * pgsize))) [
            | inl t ↦
                let r : (leb a x && ltb x (a + suc n * pgsize)) ≡ true = ground arith in
                rw (t, r) refl
            | inr t ↦
                let r : (leb a x && ltb x (a + suc n * pgsize)) ≡ false = ground arith in
                rw (t, r) refl
          ])
    ]

-- Behind the first page nothing has changed for the later ones.
later_pages :
    (pgdir a i : ℕ) (e : Pte) (v v1 : Vm)
    → a + suc i * pgsize < word
    → Mapped pgdir 1 a e v v1
    → entry_of pgdir v1 (a + pgsize + i * pgsize) ≡ entry_of pgdir v (a + suc i * pgsize)
later_pages pgdir a i e v v1 h f =
    let z : a + pgsize + i * pgsize ≡ a + suc i * pgsize = omega arith in
    let r : (leb a (a + suc i * pgsize) && ltb (a + suc i * pgsize) (a + 1 * pgsize)) ≡ false =
      ground arith in
    ap (entry_of pgdir v1) z ∙ f (a + suc i * pgsize) h ∙ rw r refl

Maps-next :
    (pgdir n a : ℕ) (e : Pte) (v v1 : Vm) (r : Result (Bool × Vm))
    → a + suc n * pgsize ≤ word
    → a % pgsize ≡ 0
    → Mapped pgdir 1 a e v v1
    → (entry_of pgdir v a).present ≡ false
    → Maps pgdir n (a + pgsize) (record e { addr = e.addr + pgsize }) v1 r
    → Maps pgdir (suc n) a e v r
Maps-next pgdir n a e v v1 panic h al f p (i, li, q) = (
  suc i,
  omega arith,
  ap (λ y. y.present) (sym (later_pages pgdir a i e v v1 (omega arith) f)) ∙ q,
)
Maps-next pgdir n a e v v1 (ok (false, v')) h al f p (s, z, (i, li, g)) =
    (s, z, (suc i, omega arith, Mapped-next pgdir i a e v v1 v' (omega arith) al f g))
Maps-next pgdir n a e v v1 (ok (true, v')) h al f p (s, g, q) =
    (s, Mapped-next pgdir n a e v v1 v' h al f g, absent)
  where
    absent : (i : ℕ) → i < suc n → (entry_of pgdir v (a + i * pgsize)).present ≡ false
    absent zero li =
        let z : a + 0 * pgsize ≡ a = omega arith in ap (λ y. (entry_of pgdir v y).present) z ∙ p
    absent (suc i) li =
        ap (λ y. y.present) (sym (later_pages pgdir a i e v v1 (omega arith) f)) ∙ q i (omega arith)

-- the loop, as it goes on behind its first page
abbrev goes_on : (a last : ℕ) → (Vm → Result (Bool × Vm)) → Bool × Vm → Result (Bool × Vm)
goes_on a last rest (mapped, v') = if not mapped || (a == last) then ok (mapped, v') else rest v'

first_page :
    (pgdir k a : ℕ) (e : Pte) (v : Vm) (last : ℕ) (r : Result (Bool × Vm))
    (rest : Vm → Result (Bool × Vm))
    → a + suc (suc k) * pgsize ≤ word
    → a % pgsize ≡ 0
    → last ≡ a + suc k * pgsize
    → ((v1 : Vm)
        → Space pgdir v1
        → Maps pgdir (suc k) (a + pgsize) (record e { addr = e.addr + pgsize }) v1 (rest v1))
    → Maps pgdir 1 a e v r
    → Maps pgdir (suc (suc k)) a e v (r >>= goes_on a last rest)
first_page pgdir k a e v last panic rest h al z ih (i, li, q) = (i, omega arith, q)
first_page pgdir k a e v last (ok (false, v')) rest h al z ih (s, q, (i, li, f)) =
    (s, q, (i, omega arith, f))
first_page pgdir k a e v last (ok (true, v')) rest h al z ih (s, f, p) =
    let n : (a == last) ≡ false = ground arith in
    let y : a + 0 * pgsize ≡ a = omega arith in
    rw n (
      Maps-next pgdir (suc k) a e v v' (rest v') h al f
        (ap (λ b. (entry_of pgdir v b).present) (sym y) ∙ p 0 (omega arith)) (ih v' s))

map_loop-Maps :
    (pgdir k a last : ℕ) (e : Pte) (v : Vm)
    → Space pgdir v
    → a % pgsize ≡ 0
    → a + suc k * pgsize ≤ word
    → e.addr + suc k * pgsize ≤ word
    → last ≡ a + k * pgsize
    → Maps pgdir (suc k) a e v (map_loop pgdir k a last e v)
unfolding map_loop
map_loop-Maps pgdir zero a last e v s al h he z = map_page-Maps pgdir a e v s (omega arith) al
map_loop-Maps pgdir (suc k) a last e v s al h he z =
    let next : add32 a pgsize ≡ a + pgsize = omega arith in
    let pa : add32 e.addr pgsize ≡ e.addr + pgsize = omega arith in
    let step : next_entry e ≡ record e { addr = e.addr + pgsize } =
      ap (λ y. record e { addr = y }) pa in
    first_page pgdir k a e v last (map_page pgdir a e v)
      (λ v1. map_loop pgdir k (add32 a pgsize) last (next_entry e) v1) h al z
      (λ v1 s1.
        subst
          (λ b.
            Maps pgdir (suc k) (a + pgsize) (record e { addr = e.addr + pgsize }) v1
              (map_loop pgdir k b last (next_entry e) v1))
          (sym next)
          (subst
            (λ f.
              Maps pgdir (suc k) (a + pgsize) (record e { addr = e.addr + pgsize }) v1
                (map_loop pgdir k (a + pgsize) last f v1))
            (sym step)
            (map_loop-Maps pgdir k (a + pgsize) last (record e { addr = e.addr + pgsize }) v1 s1
              (omega arith) (omega arith) (omega arith) (omega arith))))
      (map_page-Maps pgdir a e v s (omega arith) al)

-- An address of a page has no permissions in it.
entry_for_page :
    (pa : ℕ) (w u : Bool)
    → pa % pgsize ≡ 0
    → entry_for pa w u ≡ record { addr = pa; present = true; writable = w; user = u }
entry_for_page pa w u h =
    let a : round_down pa ≡ pa = omega (arith, h) in
    let b : (pa / 2 % 2 == 1) ≡ false = ground (arith, h) in
    let c : (pa / 4 % 2 == 1) ≡ false = ground (arith, h) in
    rw (a, b, c)
      (ap₂ (λ (x y : Bool). record { addr = pa; present = true; writable = x; user = y })
        (or_false w) (or_false u))
  where
    or_false : (b : Bool) → (b || false) ≡ b
    or_false true = refl
    or_false false = refl

-- On a page table whose tables are pages of their own, mappages of a size other than 0 within the
-- address space, to a physical address of a page, maps all pages of the range, and then none of them had an entry that was present; or
-- memory runs out and it has mapped the first of them; or it panics since one had such an entry.
-- Every other address keeps its entry.
pub mappages-Maps :
    (pgdir va size pa : ℕ) (w u : Bool) (v : Vm)
    → Space pgdir v
    → 0 < size
    → va + size ≤ word
    → pa % pgsize ≡ 0
    → pa + suc ((va + size - 1) / pgsize - va / pgsize) * pgsize ≤ word
    → Maps pgdir
        (suc ((va + size - 1) / pgsize - va / pgsize))
        (round_down va)
        (record { addr = pa; present = true; writable = w; user = u })
        v
        (mappages pgdir va size pa w u v)
unfolding mappages
mappages-Maps pgdir va size pa w u v s h hv al hp =
    let last : sub32 (add32 va size) 1 ≡ va + size - 1 = omega arith in
    let k : sub32 (round_down (va + size - 1)) (round_down va) / pgsize
        ≡ (va + size - 1) / pgsize - va / pgsize =
      omega arith in
    let e : Pte = record { addr = pa; present = true; writable = w; user = u } in
    rw (last, k, entry_for_page pa w u al)
      (map_loop-Maps pgdir ((va + size - 1) / pgsize - va / pgsize) (round_down va)
        (round_down (va + size - 1)) e v s (omega arith) (omega arith) hp (omega arith))
