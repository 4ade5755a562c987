-- ===== src/Syscall/Descriptors.antt =====
-- The descriptors of a process.
use fp_sisop20_f.Base.{
  ℕ, zero, suc, ◌+◌, ◌-◌, ◌<◌, ◌≤◌, ◌≡◌, ◌≢◌, refl, ◌∙◌, ap, sym, arith, ◌⊎◌, inl, inr, none, some,
  Option, List, [], ◌∷◌, length,
}
use fp_sisop20_f.Syscall.{User, fdalloc, free_fd, given, entry, set_entry}

abbrev pub Lowest : List (Option ℕ) → ℕ → Option ℕ → Type 0
Lowest os base none = (i : ℕ) → i < length os → entry os i ≢ none
Lowest os base (some fd) =
    (base ≤ fd)
    × (fd - base < length os)
    × (entry os (fd - base) ≡ none)
    × ((i : ℕ) → i < fd - base → entry os i ≢ none)

pub free_fd-Lowest : (os : List (Option ℕ)) (base : ℕ) → Lowest os base (free_fd os base)
unfolding free_fd
free_fd-Lowest [] base = λ i l. absurd (omega arith)
free_fd-Lowest (none ∷ os) base =
    let e : base - base ≡ 0 = omega arith in
    (omega arith, omega arith, ap (entry (none ∷ os)) e, λ i l. absurd (omega arith))
free_fd-Lowest (some f ∷ os) base = widen (free_fd os (base + 1)) (free_fd-Lowest os (base + 1))
  where
    widen : (o : Option ℕ) → Lowest os (base + 1) o → Lowest (some f ∷ os) base o
    widen none h = λ i l. by_cases i l
      where
        by_cases : (i : ℕ) → i < suc (length os) → entry (some f ∷ os) i ≢ none
        by_cases zero l = cc
        by_cases (suc i) l = h i (omega arith)
    widen (some fd) (a, b, z, h) =
        let e : fd - base ≡ suc (fd - (base + 1)) = omega arith in
        (omega arith, omega arith, ap (entry (some f ∷ os)) e ∙ z, by_cases)
      where
        by_cases : (i : ℕ) → i < fd - base → entry (some f ∷ os) i ≢ none
        by_cases zero l = cc
        by_cases (suc i) l = h i (omega arith)

pub entry-set_self :
    (os : List (Option ℕ)) (fd : ℕ) (f : Option ℕ)
    → fd < length os
    → entry (set_entry os fd f) fd ≡ f
entry-set_self [] fd f l = absurd (omega arith)
entry-set_self (o ∷ os) zero f l = refl
entry-set_self (o ∷ os) (suc fd) f l = entry-set_self os fd f (omega arith)

entry-set_ne :
    (os : List (Option ℕ)) (fd j : ℕ) (f : Option ℕ)
    → j ≢ fd
    → entry (set_entry os fd f) j ≡ entry os j
entry-set_ne [] fd j f ne = refl
entry-set_ne (o ∷ os) zero zero f ne = absurd (ne refl)
entry-set_ne (o ∷ os) zero (suc j) f ne = refl
entry-set_ne (o ∷ os) (suc fd) zero f ne = refl
entry-set_ne (o ∷ os) (suc fd) (suc j) f ne = entry-set_ne os fd j f (λ e. ne (ap suc e))

-- `fdalloc` gives the file the lowest free descriptor and changes no other, and fails only where every
-- descriptor is in use.
pub fdalloc_lem :
    (u : User) (f : ℕ)
    → ((fdalloc u f ≡ none) × ((i : ℕ) → i < length u.ofile → entry u.ofile i ≢ none))
      ⊎ ((fd : ℕ) × (u' : User) × (fdalloc u f ≡ some (fd, u'))
          × (entry u.ofile fd ≡ none)
          × ((i : ℕ) → i < fd → entry u.ofile i ≢ none)
          × (entry u'.ofile fd ≡ some f)
          × ((j : ℕ) → j ≢ fd → entry u'.ofile j ≡ entry u.ofile j))
unfolding fdalloc
fdalloc_lem u f = by_slot (free_fd u.ofile 0) (free_fd-Lowest u.ofile 0)
  where
    by_slot :
        (o : Option ℕ)
        → Lowest u.ofile 0 o
        → ((given u f o ≡ none) × ((i : ℕ) → i < length u.ofile → entry u.ofile i ≢ none))
          ⊎ ((fd : ℕ) × (u' : User) × (given u f o ≡ some (fd, u'))
              × (entry u.ofile fd ≡ none)
              × ((i : ℕ) → i < fd → entry u.ofile i ≢ none)
              × (entry u'.ofile fd ≡ some f)
              × ((j : ℕ) → j ≢ fd → entry u'.ofile j ≡ entry u.ofile j))
    by_slot none h = inl (refl, h)
    by_slot (some fd) (a, b, z, h) =
        let e : fd - 0 ≡ fd = omega arith in
        inr (
          fd,
          record u { ofile = set_entry u.ofile fd (some f) },
          refl,
          ap (entry u.ofile) (sym e) ∙ z,
          λ i l. h i (omega arith),
          entry-set_self u.ofile fd (some f) (omega arith),
          λ j ne. entry-set_ne u.ofile fd j (some f) ne,
        )
