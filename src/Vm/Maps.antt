-- ===== src/Vm/Maps.antt =====
-- mappages maps a range of pages and nothing else.
use fp_sisop20_f.Base.{
  ℕ, ◌+◌, ◌-◌, ◌*◌, ◌/◌, ◌%◌, ◌<◌, ◌≡◌, refl, sym, ap, subst, ◌∙◌, arith, inl, inr, Bool, true,
  false, ◌&&◌, Bool-cases, some, List, [], ◌∷◌, ◌==◌, leb, ltb, if◌then◌else◌, word, Result, ok,
  panic,
}
use fp_sisop20_f.Vm.{Pte, Vm, pgsize, pdx, ptx, kalloc, walkpgdir, with_table, enter, map_page}
use fp_sisop20_f.Vm.Pages.{
  entry_of, Space, HasTable, set_entry-Space, set_entry_lem, walked, walked-Space, walked-HasTable,
  walked_lem, IsSpace,
}

-- the page of an address
same_page :
    (x a : ℕ)
    → x < word
    → a < word
    → a % pgsize ≡ 0
    → ((pdx x == pdx a) && (ptx x == ptx a)) ≡ (leb a x && ltb x (a + pgsize))
same_page x a lx la al = ground arith

-- the entry for the page of an address, where the range from `a` on gets entries from `e` on
abbrev pub entry_at : Pte → (a x : ℕ) → Pte
entry_at e a x = record e { addr = e.addr + (x - a) / pgsize * pgsize }

-- The `n` pages from `a` on are mapped, and every other address has the entry that it had.
abbrev pub Mapped : (pgdir n a : ℕ) → Pte → Vm → Vm → Type 0
Mapped pgdir n a e v v' =
    (x : ℕ)
    → x < word
    → entry_of pgdir v' x
      ≡ (if leb a x && ltb x (a + n * pgsize) then entry_at e a x else entry_of pgdir v x)

-- What `mappages` of `n` pages ends with: all are mapped; memory ran out behind a part of them; or
-- it panics since one has an entry that is present.
abbrev pub Maps : (pgdir n a : ℕ) → Pte → Vm → Result (Bool × Vm) → Type 0
Maps pgdir n a e v panic = (i : ℕ) × (i < n) × ((entry_of pgdir v (a + i * pgsize)).present ≡ true)
Maps pgdir n a e v (ok (true, v')) =
    Space pgdir v'
    × Mapped pgdir n a e v v'
    × ((i : ℕ) → i < n → (entry_of pgdir v (a + i * pgsize)).present ≡ false)
Maps pgdir n a e v (ok (false, v')) =
    Space pgdir v' × (v'.free ≡ []) × ((i : ℕ) × (i < n) × Mapped pgdir i a e v v')

enter-Maps :
    (pgdir a t : ℕ) (e : Pte) (v w : Vm)
    → Space pgdir w
    → HasTable pgdir a t w
    → ((x : ℕ) → entry_of pgdir w x ≡ entry_of pgdir v x)
    → a < word
    → a % pgsize ≡ 0
    → Maps pgdir 1 a e v (enter a e (some t, w))
enter-Maps pgdir a t e v w s h same la al = elim (Bool-cases (w.tables t (ptx a)).present) [
  | inl p ↦ rw p (0, omega arith, at 0 (omega arith) ∙ p)
  | inr p ↦ rw p (
    set_entry-Space pgdir a t e w s h,
    λ x lx. set_entry_lem pgdir a t e w x s h ∙ mapped x lx,
    λ i li. at i li ∙ p,
  )
]
  where
    at :
        (i : ℕ) → i < 1 → (entry_of pgdir v (a + i * pgsize)).present ≡ (w.tables t (ptx a)).present
    at i li =
        let z : a + i * pgsize ≡ a = omega arith in
        let (p, q) = h in
        ap (λ y. (entry_of pgdir v y).present) z
        ∙ ap (λ y. y.present) (sym (same a))
        ∙ rw p (ap (λ y. (w.tables y (ptx a)).present) q)

    mapped :
        (x : ℕ)
        → x < word
        → (if (pdx x == pdx a) && (ptx x == ptx a) then e else entry_of pgdir w x)
          ≡ (if leb a x && ltb x (a + 1 * pgsize) then entry_at e a x else entry_of pgdir v x)
    mapped x lx = elim (Bool-cases (leb a x && ltb x (a + pgsize))) [
      | inl q ↦
          let z : e.addr + (x - a) / pgsize * pgsize ≡ e.addr = ground arith in
          rw (same_page x a lx la al, q) (ap (λ y. record e { addr = y }) (sym z))
      | inr q ↦ rw (same_page x a lx la al, q) (same x)
    ]

pub map_page-Maps :
    (pgdir a : ℕ) (e : Pte) (v : Vm)
    → Space pgdir v
    → a < word
    → a % pgsize ≡ 0
    → Maps pgdir 1 a e v (map_page pgdir a e v)
unfolding walkpgdir
map_page-Maps pgdir a e v s la al = elim (Bool-cases (v.tables pgdir (pdx a)).present) [
  | inl p ↦
      rw p (enter-Maps pgdir a (v.tables pgdir (pdx a)).addr e v v s (p, refl) (λ _. refl) la al)
  | inr p ↦ rw p (by_free v.free refl p)
]
  where
    by_free :
        (l : List ℕ)
        → v.free ≡ l
        → (v.tables pgdir (pdx a)).present ≡ false
        → Maps pgdir 1 a e v (enter a e (with_table pgdir a (kalloc v)))
    by_free [] q p =
        let none_mapped : (x : ℕ) → (leb a x && ltb x (a + 0 * pgsize)) ≡ false =
          λ x. ground arith in
        rw q (
          subst (IsSpace pgdir (v.tables pgdir)) q s,
          refl,
          (0, omega arith, λ x lx. rw (none_mapped x) refl),
        )
    by_free (t ∷ l) q p =
        let u : Vm = record v { free = l } in
        let su : IsSpace pgdir (v.tables pgdir) (t ∷ l) =
          subst (IsSpace pgdir (v.tables pgdir)) q s in
        rw q (
          enter-Maps pgdir a t e v (walked pgdir a t u) (walked-Space pgdir a t u su)
            (walked-HasTable pgdir a t u su) (λ x. walked_lem pgdir a t u su x p) la al)
