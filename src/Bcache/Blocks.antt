-- ===== src/Bcache/Blocks.antt =====
-- Reading and writing blocks through the buffer cache.
use mathlib.Core.List.{Memᴰ}
use fp_sisop20_f.Base.{
  ℕ, ◌+◌, ◌*◌, ◌<◌, ◌≡◌, refl, sym, ap, ◌∙◌, arith, inl, inr, true, false, Bool-cases, update_self,
  Result, ok, panic, ◌>>=◌,
}
use fp_sisop20_f.Bcache.{
  Bcache, Disk, sector_size, put_buf, recyclable, Got, held, asleep, bget, iderw, filled, bread,
}
use fp_sisop20_f.Bcache.Store.{IsStore, put-IsStore, IsDirty-put, same-Alone}
use fp_sisop20_f.Bcache.Get.{Holds, put-Holds, Gets, bget-Gets}
use fp_sisop20_f.Bcache.Transfer.{read_buf, iderw-reads, read_buf_lem}

module _ (d : ℕ → ℕ → ℕ) (s i : ℕ) (c : Bcache) (m : Disk) where
  clean : Holds d s i c m → (c.bufs i).valid ≡ false → (c.bufs i).dirty ≡ false
  clean v q = elim (Bool-cases (c.bufs i).dirty) [
    | inl e ↦ let p = v.store.filled_dirty i e in absurd (cc)
    | inr e ↦ e
  ]

  -- A sector of a buffer that is not filled is on the disk.
  on_disk :
      Holds d s i c m
      → (c.bufs i).valid ≡ false
      → s < m.disksize
      → (k : ℕ) → k < sector_size
      → m.memory (s * sector_size + k) ≡ d s k
  on_disk v q l = elim (v.store.backed s l) [
    | inl (j, lj, e, e', t) ↦
        let same : j ≡ i =
          v.store.unique j i lj v.listed (e ∙ sym v.dev_1) (e' ∙ sym v.for_sector)
            (omega (arith, e)) in
        let t' : (c.bufs i).dirty ≡ true = ap (λ x. (c.bufs x).dirty) (sym same) ∙ t in
        let f = clean v q in absurd (cc)
    | inr g ↦ g
  ]

  read_buf-Holds :
      Holds d s i c m
      → (c.bufs i).valid ≡ false
      → s < m.disksize
      → Holds d s i (put_buf i (read_buf (c.bufs i) m) c) m
  read_buf-Holds v q l =
      let b = read_buf (c.bufs i) m in
      let at : (c.bufs i).sector < m.disksize = omega (arith, v.for_sector) in
      put-Holds d s i c m b v.listed v.dev_1 v.for_sector v.taken
        (λ _ k h.
          read_buf_lem (c.bufs i) m k at v.store.bounded h
          ∙ ap (λ t. m.memory (t * sector_size + k)) v.for_sector
          ∙ on_disk v q l k h)
        (put-IsStore d m i b v.store refl
          (same-Alone i b v.store v.listed refl refl (omega (arith, v.dev_1))) (λ _. refl)
          (λ t h. elim (v.store.backed t h) [
            | inl w ↦ inl (
                IsDirty-put c i t b w (λ e.
                  let (j, lj, x, y, z) = w in
                  (
                    ap (λ a. (c.bufs a).dev) (sym e) ∙ x,
                    ap (λ a. (c.bufs a).sector) (sym e) ∙ y,
                    ap (λ a. (c.bufs a).dirty) (sym e) ∙ z,
                  )))
            | inr g ↦ inr g
          ])
          (λ f _. let t = v.taken in absurd (cc)) (λ _ _ _ g. g))

-- What `bread` answers: it panics when every buffer is in use, sleeps on the buffer of the block
-- while another has it, or answers a buffer that nobody had, filled with the contents.
abbrev pub Reads : (ℕ → ℕ → ℕ) → Bcache → Disk → ℕ → Result (Got × Disk) → Type 0
Reads d c m s panic = (j : ℕ) → Memᴰ j c.order → recyclable (c.bufs j) ≡ false
Reads d c m s (ok (asleep i, m')) =
    (m' ≡ m)
    × Memᴰ i c.order
    × ((c.bufs i).dev ≡ 1)
    × ((c.bufs i).sector ≡ s)
    × ((c.bufs i).busy ≡ true)
Reads d c m s (ok (held i c', m')) =
    (m' ≡ m)
    × ((c.bufs i).busy ≡ false)
    × Holds d s i c' m
    × ((k : ℕ) → k < sector_size → (c'.bufs i).bytes k ≡ d s k)

filled-Reads :
    (d : ℕ → ℕ → ℕ) (s : ℕ) (c : Bcache) (m : Disk) (r : Result Got)
    → s < m.disksize
    → Gets d c m s r
    → Reads d c m s (r >>= filled m)
filled-Reads d s c m panic l g = g
filled-Reads d s c m (ok (asleep i)) l (p, q, r, t) = (refl, p, q, r, t)
filled-Reads d s c m (ok (held i c')) l (f, v) = elim (Bool-cases (c'.bufs i).valid) [
  | inl q ↦ rw q (refl, f, v, v.read q)
  | inr q ↦
      let w = read_buf-Holds d s i c' m v q l in
      let b = read_buf (c'.bufs i) m in
      rw
        (
          iderw-reads (c'.bufs i) m v.taken q (clean d s i c' m v q) v.dev_1
              (omega (arith, v.for_sector)),
          q,
        )
        (refl, f, w, w.read (ap (λ x. x.valid) (update_self c'.bufs i b)))
]

pub bread-Reads :
    (d : ℕ → ℕ → ℕ) (s : ℕ) (c : Bcache) (m : Disk)
    → IsStore d c m
    → s < m.disksize
    → Reads d c m s (bread 1 s c m)
unfolding bread bget iderw
bread-Reads d s c m v l = filled-Reads d s c m (bget 1 s c) l (bget-Gets d c m s v)
