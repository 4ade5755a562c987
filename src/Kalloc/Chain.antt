-- ===== src/Kalloc/Chain.antt =====
-- The free list of kalloc.c as a list of distinct pages: what kfree, kalloc and freerange do to it.
use fp_sisop20_f.Base.{
  update, update_self, update_ne, ℕ, zero, suc, ◌+◌, ◌-◌, ◌*◌, ◌/◌, ◌%◌, ◌^◌, ◌<◌, ◌≤◌, ◌≡◌, ◌≢◌,
  refl, sym, false, List, [], ◌∷◌, arith, inl, inr, ◌⊎◌, ◌==◌, ok, subst, ◌↔◌,
}
use fp_sisop20_f.Kalloc.{
  Kmem, page_size, phys_top, kern_base, is_bad, kfree, free_loop, freerange, kalloc, round_up,
  freed,
}

-- `a` is none of the pages.
abbrev pub Absent : ℕ → List ℕ → Type 0
Absent a [] = Unit
Absent a (x ∷ xs) = (a ≢ x) × Absent a xs

-- From `head` the `next` words lead through the pages of the list, all distinct and none 0, to 0.
abbrev pub Chain : (ℕ → ℕ) → ℕ → List ℕ → Type 0
Chain next head [] = head ≡ 0
Chain next head (x ∷ xs) = (head ≡ x) × (x ≢ 0) × Absent x xs × Chain next (next x) xs

-- The free list of `k` holds exactly these pages, first the one that `kalloc` gives next.
abbrev pub Frees : Kmem → List ℕ → Type 0
Frees k xs = Chain k.next k.freelist xs

Chain-update :
    (next : ℕ → ℕ) (v w head : ℕ) (xs : List ℕ)
    → Absent v xs
    → Chain next head xs
    → Chain (update next v w) head xs
Chain-update next v w head [] a c = c
Chain-update next v w head (x ∷ xs) (ne, a) (e, nz, d, c) = (
  e,
  nz,
  d,
  (let e' : update next v w x ≡ next x = update_ne next v w x (ground arith) in
      rw e' (Chain-update next v w (next x) xs a c)),
)

freed-Frees :
    (k : Kmem) (v : ℕ) (xs : List ℕ) → v ≢ 0 → Frees k xs → Absent v xs → Frees (freed k v) (v ∷ xs)
freed-Frees k v xs nz c a = (
  refl,
  nz,
  a,
  (let e' : update k.next v k.freelist v ≡ k.freelist = update_self k.next v k.freelist in
      rw e' (Chain-update k.next v k.freelist k.freelist xs a c)),
)

-- the `n` pages from `p` on, in the order in which the loop leaves them: the last one in front
abbrev pub pages_onto : ℕ → ℕ → List ℕ → List ℕ
pages_onto p zero xs = xs
pages_onto p (suc n) xs = pages_onto (p + page_size) n (p ∷ xs)

-- `kalloc` takes the first free page off the list, and returns 0 and changes nothing exactly when
-- no page is free.
pub kalloc-Frees :
    (k : Kmem) (xs : List ℕ)
    → Frees k xs
    → ((xs ≡ []) × (kalloc k ≡ (0, k)))
      ⊎ ((x : ℕ) × (ys : List ℕ) × (xs ≡ x ∷ ys)
          × ((kalloc k).0 ≡ x)
          × (x ≢ 0)
          × Absent x ys
          × Frees (kalloc k).1 ys)
unfolding kalloc
kalloc-Frees k [] c = inl (refl, rw c)
kalloc-Frees k (x ∷ ys) (e, nz, a, c) =
    let t : (k.freelist == 0) ≡ false = ground arith in
    inr (x, ys, refl, rw (t, e), nz, a, rw t (rw (sym e) at c))

module _ (end : ℕ) where
  -- what a page must be for `kfree` to take it
  abbrev pub IsPage : ℕ → Type 0
  IsPage v = (v % page_size ≡ 0) × (end ≤ v) × (kern_base ≤ v) × (v < kern_base + phys_top)

  -- `kfree` takes exactly the pages between the kernel's end and PHYSTOP.
  pub is_bad_iff : (v : ℕ) → kern_base ≤ v → v < 2 ^ 32 → (is_bad end v ≡ false) ↔ IsPage v
  is_bad_iff v l h = ground arith

  pub free_loop-Frees :
      (k : Kmem) (p n : ℕ) (xs : List ℕ)
      → kern_base ≤ p
      → end ≤ p
      → p % page_size ≡ 0
      → p + n * page_size ≤ kern_base + phys_top
      → Frees k xs
      → ((j : ℕ) → j < n → Absent (p + j * page_size) xs)
      → (k' : Kmem) × (free_loop end k p n ≡ ok k')
        × Frees k' (pages_onto p n xs)
        × (k'.use_lock ≡ k.use_lock)
  unfolding free_loop kfree
  free_loop-Frees k p zero xs l e m t c a = (k, refl, c, refl)
  free_loop-Frees k p (suc n) xs l e m t c a =
      let good : is_bad end p ≡ false = (is_bad_iff p l (omega arith)).1 (m, e, l, omega arith) in
      let first : Absent p xs = subst (λ v. Absent v xs) (omega arith) (a 0 (omega arith)) in
      let (k', r, f, u) =
        free_loop-Frees (freed k p) (p + page_size) n (p ∷ xs) (omega arith) (omega arith)
          (omega arith) (omega arith) (freed-Frees k p xs (omega arith) c first)
          (λ j lt.
            (omega arith, subst (λ v. Absent v xs) (omega arith) (a (suc j) (omega arith)))) in
      (k', rw good r, f, u)

  -- `freerange` over memory between the kernel's end and PHYSTOP, none of it free yet, does not
  -- panic, and puts exactly the whole pages of the range on the free list.
  pub freerange-Frees :
      (k : Kmem) (vstart vend : ℕ) (xs : List ℕ)
      → kern_base ≤ vstart
      → end ≤ vstart
      → vend ≤ kern_base + phys_top
      → vstart ≤ vend
      → Frees k xs
      → ((j : ℕ)
          → j < (vend - round_up vstart) / page_size
          → Absent (round_up vstart + j * page_size) xs)
      → (k' : Kmem) × (freerange end k vstart vend ≡ ok k')
        × Frees k' (pages_onto (round_up vstart) ((vend - round_up vstart) / page_size) xs)
        × (k'.use_lock ≡ k.use_lock)
  unfolding freerange
  freerange-Frees k vstart vend xs l e t o c a =
      free_loop-Frees k (round_up vstart) ((vend - round_up vstart) / page_size) xs (omega arith)
        (omega arith) (omega arith) (omega arith) c a
