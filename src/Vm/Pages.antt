-- ===== src/Vm/Pages.antt =====
-- What a page table says of an address, and how the two steps of mappages change it.
use mathlib.Core.List.{Memᴰ}
use fp_sisop20_f.Base.{
  ℕ, ◌≡◌, ◌≢◌, refl, sym, ap, subst, ◌∙◌, arith, inl, inr, true, false, ◌&&◌, Bool-cases, List, [],
  ◌∷◌, ◌==◌, if◌then◌else◌, update, update_self, update_ne, update-all,
}
use fp_sisop20_f.Vm.{Pte, Vm, pdx, ptx, no_entry, set_entry, clear_table}

abbrev pub entry_in : (ℕ → ℕ → Pte) → Pte → ℕ → Pte
entry_in tables pde i = if pde.present then tables pde.addr i else no_entry

-- the entry of an address
abbrev pub entry_of : ℕ → Vm → ℕ → Pte
entry_of pgdir v x = entry_in v.tables (v.tables pgdir (pdx x)) (ptx x)

abbrev pub Distinct : List ℕ → Type 0
Distinct [] = Unit
Distinct (p ∷ l) = (¬ Memᴰ p l) × Distinct l

-- A directory: its tables are pages of their own, and no free page is among them.
pub record IsSpace (pgdir : ℕ) (dir : ℕ → Pte) (free : List ℕ) : Type 0 where
  pub apart :
      (i j : ℕ)
      → (dir i).present ≡ true
      → (dir j).present ≡ true
      → (dir i).addr ≡ (dir j).addr
      → i ≡ j
  pub own : (i : ℕ) → (dir i).present ≡ true → (dir i).addr ≢ pgdir
  pub unused : (i : ℕ) → (dir i).present ≡ true → ¬ Memᴰ (dir i).addr free
  pub kept : ¬ Memᴰ pgdir free
  pub distinct : Distinct free

-- A new table for the slots `i` of the directory.
new_table-IsSpace :
    (pgdir : ℕ) (dir : ℕ → Pte) (free : List ℕ) (i t : ℕ) (e : Pte)
    → IsSpace pgdir dir (t ∷ free)
    → e.addr ≡ t
    → IsSpace pgdir (update dir i e) free
new_table-IsSpace pgdir dir free i t e v q = record {
  apart = λ j k.
      update-all
        (λ x ex.
          ex.present ≡ true
          → (update dir i e k).present ≡ true
          → ex.addr ≡ (update dir i e k).addr
          → x ≡ k)
        dir i e
        (update-all (λ y ey. e.present ≡ true → ey.present ≡ true → e.addr ≡ ey.addr → i ≡ y) dir i
          e (λ _ _ _. refl) (λ y _ _ p s. absurd (v.unused y p (Memᴰ.head (sym s ∙ q)))) k)
        (λ x ne.
          update-all
            (λ y ey. (dir x).present ≡ true → ey.present ≡ true → (dir x).addr ≡ ey.addr → x ≡ y)
            dir i e (λ p _ s. absurd (v.unused x p (Memᴰ.head (s ∙ q))))
            (λ y _ p r s. v.apart x y p r s) k)
        j;
  own =
      update-all (λ _ ex. ex.present ≡ true → ex.addr ≢ pgdir) dir i e
        (λ _ s. v.kept (Memᴰ.head (sym s ∙ q))) (λ x _. v.own x);
  unused =
      update-all (λ _ ex. ex.present ≡ true → ¬ Memᴰ ex.addr free) dir i e
        (λ _ m. v.distinct.0 (subst (λ a. Memᴰ a free) q m))
        (λ x _ p m. v.unused x p (Memᴰ.tail m));
  kept = λ m. v.kept (Memᴰ.tail m);
  distinct = v.distinct.1;
}

abbrev pub Space : ℕ → Vm → Type 0
Space pgdir v = IsSpace pgdir (v.tables pgdir) v.free

abbrev pub HasTable : (pgdir a t : ℕ) → Vm → Type 0
HasTable pgdir a t v =
    ((v.tables pgdir (pdx a)).present ≡ true) × ((v.tables pgdir (pdx a)).addr ≡ t)

-- A table is changed: an entry of the directory for it sees that, and no other does.
entry_in-same :
    (tables : ℕ → ℕ → Pte) (pde : Pte) (t j : ℕ) (f : ℕ → Pte)
    → pde.present ≡ true
    → pde.addr ≡ t
    → entry_in (update tables t f) pde j ≡ f j
entry_in-same tables pde t j f p q =
    rw p (ap (λ a. update tables t f a j) q ∙ ap (λ g. g j) (update_self tables t f))

entry_in-other :
    (tables : ℕ → ℕ → Pte) (pde : Pte) (t j : ℕ) (f : ℕ → Pte)
    → (pde.present ≡ true → pde.addr ≢ t)
    → entry_in (update tables t f) pde j ≡ entry_in tables pde j
entry_in-other tables pde t j f n = elim (Bool-cases pde.present) [
  | inl p ↦ rw p (ap (λ g. g j) (update_ne tables t f pde.addr (n p)))
  | inr p ↦ rw p refl
]

-- An entry of one of the tables is set: only addresses of that entry see it.
module _ (pgdir a t : ℕ) (e : Pte) (v : Vm) where
  set_entry-directory :
      Space pgdir v → HasTable pgdir a t v → (set_entry t (ptx a) e v).tables pgdir ≡ v.tables pgdir
  set_entry-directory s (p, q) =
      update_ne v.tables t (update (v.tables t) (ptx a) e) pgdir (λ x. s.own (pdx a) p (q ∙ sym x))

  pub set_entry-Space : Space pgdir v → HasTable pgdir a t v → Space pgdir (set_entry t (ptx a) e v)
  set_entry-Space s h = subst (λ dir. IsSpace pgdir dir v.free) (sym (set_entry-directory s h)) s

  pub set_entry_lem :
      (x : ℕ)
      → Space pgdir v
      → HasTable pgdir a t v
      → entry_of pgdir (set_entry t (ptx a) e v) x
        ≡ (if (pdx x == pdx a) && (ptx x == ptx a) then e else entry_of pgdir v x)
  set_entry_lem x s h =
      ap (λ dir. entry_in (set_entry t (ptx a) e v).tables (dir (pdx x)) (ptx x))
        (set_entry-directory s h)
      ∙ by_slot
    where
      by_slot :
          entry_in (set_entry t (ptx a) e v).tables (v.tables pgdir (pdx x)) (ptx x)
          ≡ (if (pdx x == pdx a) && (ptx x == ptx a) then e else entry_of pgdir v x)
      by_slot = elim (Bool-cases (pdx x == pdx a)) [
        | inl q ↦
            let z : pdx x ≡ pdx a = ground arith in
            let p : (v.tables pgdir (pdx x)).present ≡ true =
              ap (λ i. (v.tables pgdir i).present) z ∙ h.0 in
            let r : (v.tables pgdir (pdx x)).addr ≡ t = ap (λ i. (v.tables pgdir i).addr) z ∙ h.1 in
            let f = update (v.tables t) (ptx a) e in
            entry_in-same v.tables (v.tables pgdir (pdx x)) t (ptx x) f p r
            ∙ rw (q, p)
                (unfold update in
                  ap (λ y. if ptx x == ptx a then e else v.tables y (ptx x)) (sym r))
        | inr q ↦
            let n : pdx x ≢ pdx a = ground arith in
            entry_in-other v.tables (v.tables pgdir (pdx x)) t (ptx x)
              (update (v.tables t) (ptx a) e)
              (λ p w. n (s.apart (pdx x) (pdx a) p h.0 (w ∙ sym h.1)))
            ∙ rw q refl
      ]

-- `walkpgdir` with a page for a new table
module _ (pgdir a t : ℕ) (v : Vm) where
  abbrev pub new_pde : Pte
  new_pde = record { addr = t; present = true; writable = true; user = true }

  abbrev cleared : ℕ → ℕ → Pte
  cleared = update v.tables t (λ _. no_entry)

  abbrev pub walked : Vm
  walked = set_entry pgdir (pdx a) new_pde (clear_table t v)

  directory : t ≢ pgdir → walked.tables pgdir ≡ update (v.tables pgdir) (pdx a) new_pde
  directory n =
      update_self cleared pgdir (update (cleared pgdir) (pdx a) new_pde)
      ∙ ap (λ f. update f (pdx a) new_pde)
          (update_ne v.tables t (λ _. no_entry) pgdir (λ e. n (sym e)))

  module _ (s : IsSpace pgdir (v.tables pgdir) (t ∷ v.free)) where
    pub walked-Space : Space pgdir walked
    walked-Space =
        subst (λ dir. IsSpace pgdir dir v.free) (sym (directory (λ e. s.kept (Memᴰ.head (sym e)))))
          (new_table-IsSpace pgdir (v.tables pgdir) v.free (pdx a) t new_pde s refl)

    pub walked-HasTable : HasTable pgdir a t walked
    walked-HasTable =
        let e : walked.tables pgdir (pdx a) ≡ new_pde =
          ap (λ f. f (pdx a)) (directory (λ e. s.kept (Memᴰ.head (sym e))))
          ∙ update_self (v.tables pgdir) (pdx a) new_pde in
        (ap (λ y. y.present) e, ap (λ y. y.addr) e)

    pub walked_lem :
        (x : ℕ)
        → (v.tables pgdir (pdx a)).present ≡ false
        → entry_of pgdir walked x ≡ entry_of pgdir v x
    walked_lem x p =
        ap (λ dir. entry_in walked.tables (dir (pdx x)) (ptx x))
          (directory (λ e. s.kept (Memᴰ.head (sym e))))
        ∙ elim (Bool-cases (pdx x == pdx a)) [
          | inl q ↦
              let z : pdx x ≡ pdx a = ground arith in
              let n : t ≢ pgdir = λ e. s.kept (Memᴰ.head (sym e)) in
              let absent : (v.tables pgdir (pdx x)).present ≡ false =
                ap (λ i. (v.tables pgdir i).present) z ∙ p in
              ap (λ i. entry_in walked.tables (update (v.tables pgdir) (pdx a) new_pde i) (ptx x)) z
              ∙ ap (λ y. entry_in walked.tables y (ptx x))
                  (update_self (v.tables pgdir) (pdx a) new_pde)
              ∙ ap (λ g. g (ptx x))
                  (update_ne cleared pgdir (update (cleared pgdir) (pdx a) new_pde) t n)
              ∙ ap (λ g. g (ptx x)) (update_self v.tables t (λ _. no_entry))
              ∙ rw absent refl
          | inr q ↦
              let n : pdx x ≢ pdx a = ground arith in
              ap (λ y. entry_in walked.tables y (ptx x))
                (update_ne (v.tables pgdir) (pdx a) new_pde (pdx x) n)
              ∙ entry_in-other cleared (v.tables pgdir (pdx x)) pgdir (ptx x)
                  (update (cleared pgdir) (pdx a) new_pde) (s.own (pdx x))
              ∙ entry_in-other v.tables (v.tables pgdir (pdx x)) t (ptx x) (λ _. no_entry)
                  (λ r e. s.unused (pdx x) r (Memᴰ.head e))
        ]
