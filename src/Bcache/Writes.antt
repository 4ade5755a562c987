-- ===== src/Bcache/Writes.antt =====
-- Writing a block and letting go of its buffer.
use mathlib.Core.List.{Memᴰ}
use fp_sisop20_f.Base.{
  ℕ, ◌+◌, ◌*◌, ◌<◌, ◌≡◌, ◌≢◌, refl, sym, ap, ◌∙◌, arith, ◌⊎◌, inl, inr, true, false, Bool-cases,
  ◌==◌, update, update_self, update_again, update_ne, ok,
}
use fp_sisop20_f.Bcache.{Buf, Bcache, Disk, sector_size, put_buf, bwrite}
use fp_sisop20_f.Bcache.Store.{IsStore, IsDirty, Shows, put-IsStore, IsDirty-put, same-Alone}
use fp_sisop20_f.Bcache.Get.{Holds, put-Holds}
use fp_sisop20_f.Bcache.Transfer.{written, iderw-writes, written_lem}

-- The holder changes the bytes of its buffer.
abbrev pub edit : ℕ → (ℕ → ℕ) → Bcache → Bcache
edit i f c = put_buf i (record (c.bufs i) { bytes = f }) c

-- the contents after a write
abbrev pub store_at : ℕ → (ℕ → ℕ) → (ℕ → ℕ → ℕ) → ℕ → ℕ → ℕ
store_at s f d = update d s f

bwrite_lem :
    (i : ℕ) (c : Bcache) (m : Disk) (b : Buf)
    → b.busy ≡ true
    → b.dev ≡ 1
    → b.sector < m.disksize
    → (c.bufs i) ≡ b
    → bwrite i c m
      ≡ ok (
        put_buf i (record b { dirty = false; valid = true }) c,
        written (record b { dirty = true }) m,
      )
unfolding bwrite
bwrite_lem i c m b t e l q = rw (q, iderw-writes (record b { dirty = true }) m t refl e l, t) refl

module _ (d : ℕ → ℕ → ℕ) (s i : ℕ) (c : Bcache) (m : Disk) where
  -- a buffer of the same block that stays taken or shows its sector
  keep-IsStore :
      (b : Buf)
      → Holds d s i c m
      → b.dev ≡ 1
      → b.sector ≡ s
      → b.dirty ≡ (c.bufs i).dirty
      → b.valid ≡ (c.bufs i).valid
      → (b.busy ≡ false → b.valid ≡ true → Shows d m.disksize b)
      → IsStore d (put_buf i b c) m
  keep-IsStore b v e e' r p sh =
      put-IsStore d m i b v.store refl
        (same-Alone i b v.store v.listed (e ∙ sym v.dev_1) (e' ∙ sym v.for_sector)
          (omega (arith, v.dev_1)))
        (λ t. p ∙ v.store.filled_dirty i (sym r ∙ t))
        (λ t h. elim (v.store.backed t h) [
          | inl w ↦ inl (
              IsDirty-put c i t b w (λ q.
                let (j, lj, x, y, z) = w in
                (
                  e,
                  e' ∙ sym v.for_sector ∙ ap (λ a. (c.bufs a).sector) (sym q) ∙ y,
                  r ∙ ap (λ a. (c.bufs a).dirty) (sym q) ∙ z,
                )))
          | inr g ↦ inr g
        ])
        sh (λ _ _ _ g. g)

  written-IsStore :
      (f : ℕ → ℕ)
      → Holds d s i c m
      → s < m.disksize
      → (b : Buf) → b ≡ record (c.bufs i) { bytes = f; dirty = true }
      → IsStore
          (store_at s f d)
          (put_buf i (record (c.bufs i) { bytes = f; dirty = false; valid = true }) c)
          (written b m)
  written-IsStore f v l b q =
      put-IsStore (store_at s f d) (written b m) i b' v.store refl
        (same-Alone i b' v.store v.listed refl refl (omega (arith, v.dev_1))) (λ e. absurd (cc))
        back (λ t _. let t' = v.taken in absurd (cc)) others
    where
      sector : b.sector ≡ s
      sector = ap (λ x. x.sector) q ∙ v.for_sector

      b' : Buf
      b' = record (c.bufs i) { bytes = f; dirty = false; valid = true }

      back :
          (t : ℕ)
          → t < m.disksize
          → IsDirty (put_buf i b' c) t
            ⊎ ((k : ℕ)
                → k < sector_size
                → (written b m).memory (t * sector_size + k) ≡ store_at s f d t k)
      back t h = elim (Bool-cases (t == s)) [
        | inl e ↦ inr (λ k lk.
            let e' : (t == b.sector) ≡ true = ground (arith, sector) in
            written_lem b m t k (omega (arith, sector)) v.store.bounded lk
            ∙ rw (e', q) (unfold update in rw e refl))
        | inr e ↦ elim (v.store.backed t h) [
          | inl w ↦ inl (
              IsDirty-put c i t b' w (λ z.
                let (j, lj, x, y, _) = w in
                let u : (c.bufs i).sector ≡ t = ap (λ a. (c.bufs a).sector) (sym z) ∙ y in
                let u' = v.for_sector in absurd (ground arith)))
          | inr g ↦ inr (λ k lk.
              let e' : (t == b.sector) ≡ false = ground (arith, sector) in
              written_lem b m t k (omega (arith, sector)) v.store.bounded lk
              ∙ rw e' (unfold update in rw e (g k lk)))
        ]
      ]

      others :
          (j : ℕ)
          → j ≢ i
          → Memᴰ j c.order
          → Shows d m.disksize (c.bufs j)
          → Shows (store_at s f d) m.disksize (c.bufs j)
      others j ne lj (e, h, g) =
          let n : (c.bufs j).sector ≢ s = λ z. ne (
            v.store.unique j i lj v.listed (e ∙ sym v.dev_1) (z ∙ sym v.for_sector)
              (omega (arith, e))) in
          (e, h, λ k lk. g k lk ∙ ap (λ x. x k) (sym (update_ne d s f (c.bufs j).sector n)))

  pub bwrite-IsStore :
      (f : ℕ → ℕ)
      → Holds d s i c m
      → s < m.disksize
      → (c' : Bcache) × (m' : Disk) × (bwrite i (edit i f c) m ≡ ok (c', m'))
        × (m'.disksize ≡ m.disksize)
        × Holds (store_at s f d) s i c' m'
        × ((c'.bufs i).valid ≡ true)
  bwrite-IsStore f v l =
      let b : Buf = record (c.bufs i) { bytes = f } in
      let b' : Buf = record b { dirty = false; valid = true } in
      let m' = written (record b { dirty = true }) m in
      (
        put_buf i b' c,
        m',
        bwrite_lem i (edit i f c) m b v.taken v.dev_1 (omega (arith, v.for_sector))
              (update_self c.bufs i b)
            ∙ ap (λ x. ok (record c { bufs = x }, m')) (update_again c.bufs i b b'),
        refl,
        put-Holds (store_at s f d) s i c m' b' v.listed v.dev_1 v.for_sector v.taken
            (λ _ k _. ap (λ x. x k) (sym (update_self d s f)))
            (written-IsStore f v l (record b { dirty = true }) refl),
        ap (λ x. x.valid) (update_self c.bufs i b'),
      )

  pub brelse_lem :
      Holds d s i c m
      → s < m.disksize
      → (c.bufs i).valid ≡ true
      → IsStore d (put_buf i (record (c.bufs i) { busy = false }) c) m
  brelse_lem v l p =
      keep-IsStore (record (c.bufs i) { busy = false }) v v.dev_1 v.for_sector refl refl
        (λ _ _. (
          v.dev_1,
          omega (arith, v.for_sector),
          λ k h. v.read p k h ∙ ap (λ x. d x k) (sym v.for_sector),
        ))
