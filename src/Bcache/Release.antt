-- ===== src/Bcache/Release.antt =====
-- Letting go of a buffer, and a block that is written as a whole.
use mathlib.Core.List.{Memᴰ}
use mathlib.Core.List.Memᴰ
use fp_sisop20_f.Base.{
  ℕ, ◌<◌, ◌≡◌, refl, sym, ap, subst, ◌∙◌, arith, inl, inr, true, false, Bool-cases, List, [], ◌∷◌,
  ◌==◌, update, ok,
}
use fp_sisop20_f.Bcache.{Buf, Bcache, Disk, put_buf, held, bread, bwrite, unlink, brelse, wakes}
use fp_sisop20_f.Bcache.Store.{IsStore}
use fp_sisop20_f.Bcache.Get.{Holds}
use fp_sisop20_f.Bcache.Blocks.{Reads, bread-Reads}
use fp_sisop20_f.Bcache.Writes.{edit, store_at, bwrite-IsStore, brelse_lem}

unlink-keeps :
    (i j : ℕ) (l : List ℕ)
    → Memᴰ i l
    → (Memᴰ j l → Memᴰ j (i ∷ unlink i l)) × (Memᴰ j (i ∷ unlink i l) → Memᴰ j l)
unfolding unlink
unlink-keeps i j [] h = elim h [ ]
unlink-keeps i j (x ∷ l) h = elim (Bool-cases (x == i)) [
  | inl e ↦ let q : x ≡ i = ground arith in rw (e, q) (λ m. m, λ m. m)
  | inr e ↦ elim (Memᴰ.cases_cons h) [
    | inl q ↦ absurd (ground arith)
    | inr t ↦
        let (f, g) = unlink-keeps i j l t in
        rw e (
          λ m. elim (Memᴰ.cases_cons m) [
            | inl q ↦ Memᴰ.tail (Memᴰ.head q)
            | inr n ↦ elim (Memᴰ.cases_cons (f n)) [
              | inl q ↦ Memᴰ.head q
              | inr o ↦ Memᴰ.tail (Memᴰ.tail o)
            ]
          ],
          λ m. elim (Memᴰ.cases_cons m) [
            | inl q ↦ Memᴰ.tail (g (Memᴰ.head q))
            | inr n ↦ elim (Memᴰ.cases_cons n) [
              | inl q ↦ Memᴰ.head q
              | inr o ↦ Memᴰ.tail (g (Memᴰ.tail o))
            ]
          ],
        )
  ]
]

reorder-IsStore :
    (d : ℕ → ℕ → ℕ) (c : Bcache) (m : Disk) (l : List ℕ)
    → ((j : ℕ) → Memᴰ j c.order → Memᴰ j l)
    → ((j : ℕ) → Memᴰ j l → Memᴰ j c.order)
    → IsStore d c m
    → IsStore d (record c { order = l }) m
reorder-IsStore d c m l f g v = record {
  unique = λ i j li lj. v.unique i j (g i li) (g j lj);
  bounded = v.bounded;
  filled_dirty = v.filled_dirty;
  backed = λ s h. elim (v.backed s h) [
    | inl (j, lj, e, e', t) ↦ inl (j, f j lj, e, e', t)
    | inr r ↦ inr r
  ];
  shown = λ i p q li. v.shown i p q (g i li);
}

-- brelse of a filled buffer moves it to the head of the list and wakes its sleepers, and the cache is
-- still the same store.
pub brelse-IsStore :
    (d : ℕ → ℕ → ℕ) (s i : ℕ) (c : Bcache) (m : Disk)
    → Holds d s i c m
    → s < m.disksize
    → (c.bufs i).valid ≡ true
    → (c' : Bcache) × (brelse i c ≡ ok (c', wakes i ∷ []))
      × (c'.order ≡ i ∷ unlink i c.order)
      × IsStore d c' m
unfolding brelse
brelse-IsStore d s i c m v l p =
    let b : Buf = record (c.bufs i) { busy = false } in
    (
      record c { bufs = update c.bufs i b; order = i ∷ unlink i c.order },
      rw v.taken refl,
      refl,
      reorder-IsStore d (put_buf i b c) m (i ∷ unlink i c.order)
          (λ j. (unlink-keeps i j c.order v.listed).0) (λ j. (unlink-keeps i j c.order v.listed).1)
          (brelse_lem d s i c m v l p),
    )

-- When bread answered a buffer, the new bytes that its holder puts there, writes by bwrite and lets
-- go of by brelse are the contents of the sector from then on, and all other sectors keep theirs.
pub bwrite-Stores :
    (d : ℕ → ℕ → ℕ) (s i : ℕ) (c c1 : Bcache) (m m1 : Disk) (f : ℕ → ℕ)
    → IsStore d c m
    → s < m.disksize
    → bread 1 s c m ≡ ok (held i c1, m1)
    → (c2 : Bcache) × (m2 : Disk) × (c3 : Bcache) × (bwrite i (edit i f c1) m1 ≡ ok (c2, m2))
      × (brelse i c2 ≡ ok (c3, wakes i ∷ []))
      × (m2.disksize ≡ m.disksize)
      × IsStore (store_at s f d) c3 m2
bwrite-Stores d s i c c1 m m1 f v l e =
    let (q, _, h, _) = subst (Reads d c m s) e (bread-Reads d s c m v l) in
    let h' : Holds d s i c1 m1 = subst (Holds d s i c1) (sym q) h in
    let (c2, m2, w, z, h2, t) =
      bwrite-IsStore d s i c1 m1 f h' (omega (arith, ap (λ x. x.disksize) q)) in
    let (c3, r, _, v3) =
      brelse-IsStore (store_at s f d) s i c2 m2 h2 (omega (arith, ap (λ x. x.disksize) q, z)) t in
    (c2, m2, c3, w, r, z ∙ ap (λ x. x.disksize) q, v3)
