-- ===== src/Bcache/Store.antt =====
-- The buffer cache is a store of blocks.
use mathlib.Core.List.{Memᴰ}
use mathlib.Core.List.Memᴰ
use fp_sisop20_f.Base.{
  ℕ, ◌+◌, ◌*◌, ◌<◌, ◌≤◌, ◌≡◌, ◌≢◌, refl, sym, ap, subst, ◌∙◌, arith, ◌⊎◌, inl, inr, true, false,
  Bool-cases, none, some, List, [], ◌∷◌, update-all, word,
}
use fp_sisop20_f.Bcache.{
  Buf, Bcache, Disk, no_dev, sector_size, put_buf, is_block, find_cached, recyclable, find_clean,
}

-- A buffer holds the sector's latest contents, not yet on the disk.
abbrev pub IsDirty : Bcache → ℕ → Type 0
IsDirty c s =
    (i : ℕ) × Memᴰ i c.order
    × ((c.bufs i).dev ≡ 1)
    × ((c.bufs i).sector ≡ s)
    × ((c.bufs i).dirty ≡ true)

-- A buffer that nobody has shows the sector.
abbrev pub Shows : (ℕ → ℕ → ℕ) → ℕ → Buf → Type 0
Shows d n b = (b.dev ≡ 1) × (b.sector < n) × ((k : ℕ) → k < sector_size → b.bytes k ≡ d b.sector k)

-- The cache and the disk behind it hold the contents `d` of the sectors, and no block twice.
pub record IsStore (d : ℕ → ℕ → ℕ) (c : Bcache) (m : Disk) : Type 0 where
  pub unique :
      (i j : ℕ)
      → Memᴰ i c.order
      → Memᴰ j c.order
      → (c.bufs i).dev ≡ (c.bufs j).dev
      → (c.bufs i).sector ≡ (c.bufs j).sector
      → (c.bufs i).dev ≢ no_dev
      → i ≡ j
  pub bounded : m.disksize * sector_size ≤ word
  pub filled_dirty : (i : ℕ) → (c.bufs i).dirty ≡ true → (c.bufs i).valid ≡ true
  pub backed :
      (s : ℕ)
      → s < m.disksize
      → IsDirty c s ⊎ ((k : ℕ) → k < sector_size → m.memory (s * sector_size + k) ≡ d s k)
  pub shown :
      (i : ℕ)
      → (c.bufs i).busy ≡ false
      → (c.bufs i).valid ≡ true
      → Memᴰ i c.order
      → Shows d m.disksize (c.bufs i)

-- No other listed buffer is for the block of `b`.
abbrev pub Alone : ℕ → Buf → Bcache → Type 0
Alone i b c =
    (j : ℕ) → j ≢ i → Memᴰ j c.order → (c.bufs j).dev ≡ b.dev → (c.bufs j).sector ≡ b.sector → ⊥

pub same-Alone :
    {d : ℕ → ℕ → ℕ} {c : Bcache} {m : Disk} (i : ℕ) (b : Buf)
    → IsStore d c m
    → Memᴰ i c.order
    → b.dev ≡ (c.bufs i).dev
    → b.sector ≡ (c.bufs i).sector
    → (c.bufs i).dev ≢ no_dev
    → Alone i b c
same-Alone i b v l ed es n j ne lj e e' =
    ne (v.unique j i lj l (e ∙ ed) (e' ∙ es) (λ q. n (sym (e ∙ ed) ∙ q)))

put_unique :
    {d : ℕ → ℕ → ℕ} {c : Bcache} {m : Disk} (i : ℕ) (b : Buf)
    → IsStore d c m
    → Alone i b c
    → (j k : ℕ) → Memᴰ j c.order
    → Memᴰ k c.order
    → ((put_buf i b c).bufs j).dev ≡ ((put_buf i b c).bufs k).dev
    → ((put_buf i b c).bufs j).sector ≡ ((put_buf i b c).bufs k).sector
    → ((put_buf i b c).bufs j).dev ≢ no_dev
    → j ≡ k
put_unique {c = c} i b v a j k lj lk =
    update-all
      (λ x bx.
        Memᴰ x c.order
        → bx.dev ≡ ((put_buf i b c).bufs k).dev
        → bx.sector ≡ ((put_buf i b c).bufs k).sector
        → bx.dev ≢ no_dev
        → x ≡ k)
      c.bufs i b new old j lj
  where
    new :
        Memᴰ i c.order
        → b.dev ≡ ((put_buf i b c).bufs k).dev
        → b.sector ≡ ((put_buf i b c).bufs k).sector
        → b.dev ≢ no_dev
        → i ≡ k
    new li =
        update-all
          (λ x bx. Memᴰ x c.order → b.dev ≡ bx.dev → b.sector ≡ bx.sector → b.dev ≢ no_dev → i ≡ x)
          c.bufs i b (λ _ _ _ _. refl) (λ x ne lx e e' _. absurd (a x ne lx (sym e) (sym e'))) k lk

    old :
        (x : ℕ)
        → x ≢ i
        → Memᴰ x c.order
        → (c.bufs x).dev ≡ ((put_buf i b c).bufs k).dev
        → (c.bufs x).sector ≡ ((put_buf i b c).bufs k).sector
        → (c.bufs x).dev ≢ no_dev
        → x ≡ k
    old x ne lx =
        update-all
          (λ y by.
            Memᴰ y c.order
            → (c.bufs x).dev ≡ by.dev
            → (c.bufs x).sector ≡ by.sector
            → (c.bufs x).dev ≢ no_dev
            → x ≡ y)
          c.bufs i b (λ _ e e' _. absurd (a x ne lx e e'))
          (λ y _ ly e e' n. v.unique x y lx ly e e' n) k lk

-- A store stays one when a buffer takes a new state that fits.
pub put-IsStore :
    {d : ℕ → ℕ → ℕ} {c : Bcache} {m : Disk} (d' : ℕ → ℕ → ℕ) (m' : Disk) (i : ℕ) (b : Buf)
    → IsStore d c m
    → m'.disksize ≡ m.disksize
    → Alone i b c
    → (b.dirty ≡ true → b.valid ≡ true)
    → ((s : ℕ)
        → s < m.disksize
        → IsDirty (put_buf i b c) s
          ⊎ ((k : ℕ) → k < sector_size → m'.memory (s * sector_size + k) ≡ d' s k))
    → (b.busy ≡ false → b.valid ≡ true → Shows d' m'.disksize b)
    → ((j : ℕ)
        → j ≢ i
        → Memᴰ j c.order
        → Shows d m.disksize (c.bufs j)
        → Shows d' m.disksize (c.bufs j))
    → IsStore d' (put_buf i b c) m'
put-IsStore {d} {c} {m} d' m' i b v e a f back sh others = record {
  unique = put_unique i b v a;
  bounded = omega (arith, v.bounded);
  filled_dirty =
      update-all (λ _ bx. bx.dirty ≡ true → bx.valid ≡ true) c.bufs i b f (λ x _. v.filled_dirty x);
  backed = λ s l. back s (omega arith);
  shown =
      update-all
        (λ x bx. bx.busy ≡ false → bx.valid ≡ true → Memᴰ x c.order → Shows d' m'.disksize bx)
        c.bufs i b (λ q p _. sh q p)
        (λ x ne p q l.
          subst (λ n. Shows d' n (c.bufs x)) (sym e) (others x ne l (v.shown x p q l)));
}

-- what is dirty and elsewhere stays dirty
pub IsDirty-put :
    (c : Bcache) (i s : ℕ) (b : Buf)
    → (w : IsDirty c s) → (w.0 ≡ i → (b.dev ≡ 1) × (b.sector ≡ s) × (b.dirty ≡ true))
    → IsDirty (put_buf i b c) s
IsDirty-put c i s b (j, l, e, e', q) same =
    let (p, p', r) = update-all Dirty c.bufs i b (λ g _. g refl) (λ x _ _ o. o) j same (e, e', q) in
    (j, l, p, p', r)
  where
    Dirty : ℕ → Buf → Type 0
    Dirty x bx =
        (x ≡ i → (b.dev ≡ 1) × (b.sector ≡ s) × (b.dirty ≡ true))
        → (((c.bufs x).dev ≡ 1) × ((c.bufs x).sector ≡ s) × ((c.bufs x).dirty ≡ true))
        → (bx.dev ≡ 1) × (bx.sector ≡ s) × (bx.dirty ≡ true)

pub find_cached_lem :
    (dev sector : ℕ) (bufs : ℕ → Buf) (l : List ℕ)
    → ((find_cached dev sector bufs l ≡ none)
        × ((j : ℕ) → Memᴰ j l → (bufs j).dev ≡ dev → (bufs j).sector ≡ sector → ⊥))
      ⊎ ((i : ℕ) × (find_cached dev sector bufs l ≡ some i)
          × Memᴰ i l
          × ((bufs i).dev ≡ dev)
          × ((bufs i).sector ≡ sector))
unfolding find_cached
find_cached_lem dev sector bufs [] = inl (refl, λ j l _ _. elim l [ ])
find_cached_lem dev sector bufs (i ∷ l) = elim (Bool-cases (is_block dev sector (bufs i))) [
  | inl e ↦ inr (i, rw e refl, Memᴰ.head refl, ground arith, ground arith)
  | inr e ↦ elim (find_cached_lem dev sector bufs l) [
    | inl (p, q) ↦ inl (
      rw e p,
      λ j m x y. elim (Memᴰ.cases_cons m) [
        | inl h ↦
            let z : (bufs i).dev ≡ dev = ap (λ a. (bufs a).dev) (sym h) ∙ x in
            let w : (bufs i).sector ≡ sector = ap (λ a. (bufs a).sector) (sym h) ∙ y in ground arith
        | inr h ↦ q j h x y
      ],
    )
    | inr (j, p, m, x, y) ↦ inr (j, rw e p, Memᴰ.tail m, x, y)
  ]
]

pub find_clean_lem :
    (bufs : ℕ → Buf) (l : List ℕ)
    → ((find_clean bufs l ≡ none) × ((j : ℕ) → Memᴰ j l → recyclable (bufs j) ≡ false))
      ⊎ ((i : ℕ) × (find_clean bufs l ≡ some i) × Memᴰ i l × (recyclable (bufs i) ≡ true))
unfolding find_clean
find_clean_lem bufs [] = inl (refl, λ j l. elim l [ ])
find_clean_lem bufs (i ∷ l) = elim (find_clean_lem bufs l) [
  | inr (j, p, m, r) ↦ inr (j, rw p refl, Memᴰ.tail m, r)
  | inl (p, q) ↦ elim (Bool-cases (recyclable (bufs i))) [
    | inl e ↦ inr (i, rw (p, e) refl, Memᴰ.head refl, e)
    | inr e ↦ inl (
      rw (p, e) refl,
      λ j m. elim (Memᴰ.cases_cons m) [
        | inl h ↦ ap (λ a. recyclable (bufs a)) h ∙ e
        | inr h ↦ q j h
      ],
    )
  ]
]
