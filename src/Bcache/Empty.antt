-- ===== src/Bcache/Empty.antt =====
-- The buffer cache when the kernel starts.
use mathlib.Core.List.{Memᴰ}
use mathlib.Core.List.Memᴰ
use fp_sisop20_f.Base.{
  ℕ, zero, suc, ◌+◌, ◌*◌, ◌≤◌, ◌≡◌, refl, inl, inr, false, [], ◌∷◌, update-all, word,
}
use fp_sisop20_f.Bcache.{Buf, Bcache, blank, nbuf, insert_loop, binit, Disk, no_dev, sector_size}
use fp_sisop20_f.Bcache.Store.{IsStore}

-- Nothing is cached.
record IsEmpty (c : Bcache) : Type 0 where
  pub blocks : (j : ℕ) → Memᴰ j c.order → (c.bufs j).dev ≡ no_dev
  pub invalid : (j : ℕ) → ((c.bufs j).valid ≡ false) × ((c.bufs j).dirty ≡ false)

insert_loop-IsEmpty : (i k : ℕ) (c : Bcache) → IsEmpty c → IsEmpty (insert_loop i k c)
unfolding insert_loop
insert_loop-IsEmpty i zero c v = v
insert_loop-IsEmpty i (suc k) c v =
    let b : Buf = record (c.bufs i) { dev = no_dev } in
    insert_loop-IsEmpty (i + 1) k _ (record {
      blocks = λ j l.
          update-all (λ x bx. Memᴰ x (i ∷ c.order) → bx.dev ≡ no_dev) c.bufs i b (λ _. refl)
            (λ x ne lx. elim (Memᴰ.cases_cons lx) [ inl e ↦ absurd (ne e) | inr t ↦ v.blocks x t ])
            j l;
      invalid =
          update-all (λ _ bx. (bx.valid ≡ false) × (bx.dirty ≡ false)) c.bufs i b (v.invalid i)
            (λ x _. v.invalid x);
    })

-- The contents of the disk itself.
abbrev pub on_disk : Disk → ℕ → ℕ → ℕ
on_disk m s k = m.memory (s * sector_size + k)

-- After binit the cache is a store of what the disk holds.
pub binit-IsStore : (m : Disk) → m.disksize * sector_size ≤ word → IsStore (on_disk m) binit m
unfolding binit
binit-IsStore m h =
    let v : IsEmpty binit =
      insert_loop-IsEmpty 0 nbuf (record { bufs = λ _. blank; order = [] })
        (record { blocks = λ j l. elim l [ ]; invalid = λ _. (refl, refl) }) in
    record {
      unique = λ i j li lj _ _ n. absurd (n (v.blocks i li));
      bounded = h;
      filled_dirty = λ i p. let (_, q) = v.invalid i in absurd (cc);
      backed = λ s _. inr (λ _ _. refl);
      shown = λ i _ p _. let (q, _) = v.invalid i in absurd (cc);
    }
