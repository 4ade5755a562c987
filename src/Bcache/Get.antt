-- ===== src/Bcache/Get.antt =====
-- bget takes a buffer for a block.
use mathlib.Core.List.{Memᴰ}
use fp_sisop20_f.Base.{
  ℕ, ◌<◌, ◌≡◌, refl, sym, ap, subst, ◌∙◌, arith, inl, inr, true, false, Bool-cases, update,
  update_self, Result, ok, panic,
}
use fp_sisop20_f.Bcache.{
  Buf, Bcache, Disk, sector_size, put_buf, recyclable, Got, held, asleep, found, bget,
}
use fp_sisop20_f.Bcache.Store.{
  IsStore, put-IsStore, IsDirty-put, find_cached_lem, find_clean_lem, same-Alone,
}

-- A caller has the buffer of a sector; once read, it has the contents.
pub record Holds (d : ℕ → ℕ → ℕ) (s i : ℕ) (c : Bcache) (m : Disk) : Type 0 where
  pub listed : Memᴰ i c.order
  pub dev_1 : (c.bufs i).dev ≡ 1
  pub for_sector : (c.bufs i).sector ≡ s
  pub taken : (c.bufs i).busy ≡ true
  pub read : (c.bufs i).valid ≡ true → (k : ℕ) → k < sector_size → (c.bufs i).bytes k ≡ d s k
  pub store : IsStore d c m

pub put-Holds :
    (d : ℕ → ℕ → ℕ) (s i : ℕ) (c : Bcache) (m : Disk) (b : Buf)
    → Memᴰ i c.order
    → b.dev ≡ 1
    → b.sector ≡ s
    → b.busy ≡ true
    → (b.valid ≡ true → (k : ℕ) → k < sector_size → b.bytes k ≡ d s k)
    → IsStore d (put_buf i b c) m
    → Holds d s i (put_buf i b c) m
put-Holds d s i c m b l e e' t f v =
    let q : update c.bufs i b i ≡ b = update_self c.bufs i b in
    record {
      listed = l;
      dev_1 = ap (λ x. x.dev) q ∙ e;
      for_sector = ap (λ x. x.sector) q ∙ e';
      taken = ap (λ x. x.busy) q ∙ t;
      read = λ p k h. ap (λ x. x.bytes k) q ∙ f (ap (λ x. x.valid) (sym q) ∙ p) k h;
      store = v;
    }

module _ (d : ℕ → ℕ → ℕ) (c : Bcache) (m : Disk) where
  -- B_BUSY is set in a buffer of the block.
  take-Holds :
      (s i : ℕ)
      → IsStore d c m
      → Memᴰ i c.order
      → (c.bufs i).dev ≡ 1
      → (c.bufs i).sector ≡ s
      → (c.bufs i).busy ≡ false
      → Holds d s i (put_buf i (record (c.bufs i) { busy = true }) c) m
  take-Holds s i v l e e' f =
      let b : Buf = record (c.bufs i) { busy = true } in
      put-Holds d s i c m b l e e' refl
        (λ p k h. let (_, _, g) = v.shown i f p l in g k h ∙ ap (λ t. d t k) e')
        (put-IsStore d m i b v refl (same-Alone i b v l refl refl (omega (arith, e)))
          (v.filled_dirty i)
          (λ t h. elim (v.backed t h) [
            | inl w ↦ inl (
                IsDirty-put c i t b w (λ q.
                  let (j, lj, x, y, z) = w in
                  (
                    ap (λ a. (c.bufs a).dev) (sym q) ∙ x,
                    ap (λ a. (c.bufs a).sector) (sym q) ∙ y,
                    ap (λ a. (c.bufs a).dirty) (sym q) ∙ z,
                  )))
            | inr g ↦ inr g
          ])
          (λ q. absurd (cc)) (λ _ _ _ g. g))

  -- A buffer that nobody uses is recycled for a block that is not cached.
  recycle-Holds :
      (s i : ℕ)
      → IsStore d c m
      → Memᴰ i c.order
      → recyclable (c.bufs i) ≡ true
      → ((j : ℕ) → Memᴰ j c.order → (c.bufs j).dev ≡ 1 → (c.bufs j).sector ≡ s → ⊥)
      → Holds d s i
          (put_buf i
            (record {
              dev = 1;
              sector = s;
              busy = true;
              valid = false;
              dirty = false;
              bytes = (c.bufs i).bytes;
            })
            c)
          m
  recycle-Holds s i v l r n =
      let b : Buf = record {
        dev = 1;
        sector = s;
        busy = true;
        valid = false;
        dirty = false;
        bytes = (c.bufs i).bytes;
      } in
      put-Holds d s i c m b l refl refl refl (λ p. absurd (cc))
        (put-IsStore d m i b v refl (λ j _ lj e e'. n j lj e e') (λ p. absurd (cc))
          (λ t h. elim (v.backed t h) [
            | inl w ↦ inl (
                IsDirty-put c i t b w (λ q.
                  let (j, lj, x, y, z) = w in
                  let z' : (c.bufs i).dirty ≡ true = ap (λ a. (c.bufs a).dirty) (sym q) ∙ z in
                  absurd (ground arith)))
            | inr g ↦ inr g
          ])
          (λ q. absurd (cc)) (λ _ _ _ g. g))

  abbrev pub Gets : ℕ → Result Got → Type 0
  Gets s panic = (j : ℕ) → Memᴰ j c.order → recyclable (c.bufs j) ≡ false
  Gets s (ok (asleep i)) =
      Memᴰ i c.order × ((c.bufs i).dev ≡ 1) × ((c.bufs i).sector ≡ s) × ((c.bufs i).busy ≡ true)
  Gets s (ok (held i c')) = ((c.bufs i).busy ≡ false) × Holds d s i c' m

  pub bget-Gets : (s : ℕ) → IsStore d c m → Gets s (bget 1 s c)
  unfolding bget
  bget-Gets s v = elim (find_cached_lem 1 s c.bufs c.order) [
    | inr (i, p, l, e, e') ↦
        subst (λ o. Gets s (found 1 s c o)) (sym p)
          (elim (Bool-cases (c.bufs i).busy) [
            | inl t ↦ rw t (l, e, e', t)
            | inr f ↦ rw f (f, take-Holds s i v l e e' f)
          ])
    | inl (p, n) ↦
        subst (λ o. Gets s (found 1 s c o)) (sym p)
          (elim (find_clean_lem c.bufs c.order) [
            | inl (q, r) ↦ rw q r
            | inr (i, q, l, r) ↦ rw q (ground arith, recycle-Holds s i v l r n)
          ])
  ]
