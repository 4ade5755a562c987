-- ===== src/Content/Layout.antt =====
-- Where the bytes of a file are: its blocks are in use, all different, and apart from the indirect block.
use fp_sisop20_f.Base.{
  ℕ, zero, suc, ◌+◌, ◌-◌, ◌/◌, ◌%◌, ◌^◌, ◌<◌, ◌≤◌, ◌≡◌, ◌≢◌, refl, ◌∙◌, ap, sym, arith, ◌⊎◌, inl,
  inr, true, false, none, some, Option, ◌∷◌, Bool-cases, ◌==◌, ltb, if◌then◌else◌, update, ok,
  panic,
}
use fp_sisop20_f.Inode.{Dinode, ndirect}
use fp_sisop20_f.Content.{Fs, bsize, maxfile, word, balloc, free_block, taken, bzero, bitmap_block}

-- the block of a file with number `bn`, 0 if there is none
abbrev pub addr_of : Dinode → Fs → ℕ → ℕ
addr_of ip fs bn =
    if ltb bn ndirect
    then ip.addrs bn
    else (if ip.addrs ndirect == 0 then 0 else word (fs.blocks (ip.addrs ndirect)) (bn - ndirect))

-- the byte of a file at an offset
abbrev pub byte_at : Dinode → Fs → ℕ → ℕ
byte_at ip fs x = fs.blocks (addr_of ip fs (x / bsize)) (x % bsize)

-- Block 0, the boot block, is in use, and block numbers are words.
pub record IsLaid (ip : Dinode) (fs : Fs) : Type 0 where
  pub boot : fs.used 0 ≡ true
  pub small : fs.size ≤ 2 ^ 32
  pub used : (bn : ℕ) → bn < maxfile → fs.used (addr_of ip fs bn) ≡ true
  pub used_indirect : fs.used (ip.addrs ndirect) ≡ true
  pub apart : (bn : ℕ) → bn < maxfile → addr_of ip fs bn ≢ 0 → addr_of ip fs bn ≢ ip.addrs ndirect
  pub distinct :
      (bn bm : ℕ)
      → bn < maxfile
      → bm < maxfile
      → addr_of ip fs bn ≢ 0
      → addr_of ip fs bn ≡ addr_of ip fs bm
      → bn ≡ bm

-- What allocating blocks for a file changes: new blocks were free, and no block that was in use, but
-- the file's indirect one, has other contents.
pub record Extends (ip : Dinode) (fs : Fs) (ip' : Dinode) (fs' : Fs) : Type 0 where
  pub laid : IsLaid ip' fs'
  pub same_size : ip'.size ≡ ip.size
  pub same_type : ip'.type ≡ ip.type
  pub grows : (b : ℕ) → fs.used b ≡ true → fs'.used b ≡ true
  pub keeps : (bn : ℕ) → bn < maxfile → addr_of ip fs bn ≢ 0 → addr_of ip' fs' bn ≡ addr_of ip fs bn
  pub fresh :
      (bn : ℕ)
      → bn < maxfile
      → (addr_of ip' fs' bn ≡ addr_of ip fs bn) ⊎ (fs.used (addr_of ip' fs' bn) ≡ false)
  pub fresh_indirect :
      (ip'.addrs ndirect ≡ ip.addrs ndirect) ⊎ (fs.used (ip'.addrs ndirect) ≡ false)
  pub contents : (b : ℕ) → fs.used b ≡ true → b ≢ ip.addrs ndirect → fs'.blocks b ≡ fs.blocks b

-- a free block below the size, or none
abbrev Found : Fs → Option ℕ → Type 0
Found fs none = Unit
Found fs (some b) = (b < fs.size) × (fs.used b ≡ false)

free_block-Found : (fs : Fs) (b k : ℕ) → b + k ≤ fs.size → Found fs (free_block fs.used b k)
unfolding free_block
free_block-Found fs b zero h = tt
free_block-Found fs b (suc k) h = elim (Bool-cases (fs.used b)) [
  | inl e ↦ rw e (free_block-Found fs (b + 1) k (omega arith))
  | inr e ↦ rw e (omega arith, e)
]

-- `balloc` marks a free block as used and clears it, and changes no other.
pub record Allocates (fs : Fs) (b : ℕ) (fs' : Fs) : Type 0 where
  pub inside : b < fs.size
  pub was_free : fs.used b ≡ false
  pub used_is : fs'.used ≡ update fs.used b true
  pub blocks_are : fs'.blocks ≡ update fs.blocks b (λ _. 0)
  pub size_is : fs'.size ≡ fs.size

pub balloc-Allocates :
    (fs : Fs)
    → (balloc fs ≡ panic) ⊎ ((b : ℕ) × (fs' : Fs) × (balloc fs ≡ ok (b, fs')) × Allocates fs b fs')
unfolding balloc
balloc-Allocates fs =
    by_found (free_block fs.used 0 fs.size) (free_block-Found fs 0 fs.size (omega arith))
  where
    by_found :
        (o : Option ℕ)
        → Found fs o
        → (taken fs o ≡ panic)
          ⊎ ((b : ℕ) × (fs' : Fs) × (taken fs o ≡ ok (b, fs')) × Allocates fs b fs')
    by_found none f = inl refl
    by_found (some b) (l, f) = inr (
      b,
      bzero b (record fs { used = update fs.used b true; logged = bitmap_block fs b ∷ fs.logged }),
      refl,
      record { inside = l; was_free = f; used_is = refl; blocks_are = refl; size_is = refl },
    )

pub Extends-refl : (ip : Dinode) (fs : Fs) → IsLaid ip fs → Extends ip fs ip fs
Extends-refl ip fs v = record {
  laid = v;
  same_size = refl;
  same_type = refl;
  grows = λ b u. u;
  keeps = λ bn l h. refl;
  fresh = λ bn l. inl refl;
  fresh_indirect = inl refl;
  contents = λ b u n. refl;
}

pub Extends-trans :
    (ip : Dinode) (fs : Fs) (ip1 : Dinode) (fs1 : Fs) (ip2 : Dinode) (fs2 : Fs)
    → IsLaid ip fs
    → Extends ip fs ip1 fs1
    → Extends ip1 fs1 ip2 fs2
    → Extends ip fs ip2 fs2
Extends-trans ip fs ip1 fs1 ip2 fs2 v e f = record {
  laid = f.laid;
  same_size = f.same_size ∙ e.same_size;
  same_type = f.same_type ∙ e.same_type;
  grows = λ b u. f.grows b (e.grows b u);
  keeps = λ bn l nz. f.keeps bn l (λ z. nz (sym (e.keeps bn l nz) ∙ z)) ∙ e.keeps bn l nz;
  fresh = λ bn l. elim (f.fresh bn l) [
    | inl p ↦ elim (e.fresh bn l) [ inl q ↦ inl (p ∙ q) | inr q ↦ inr (ap fs.used p ∙ q) ]
    | inr p ↦ inr (was_free _ p)
  ];
  fresh_indirect = elim f.fresh_indirect [
    | inl p ↦ elim e.fresh_indirect [ inl q ↦ inl (p ∙ q) | inr q ↦ inr (ap fs.used p ∙ q) ]
    | inr p ↦ inr (was_free _ p)
  ];
  contents = λ b u n. f.contents b (e.grows b u) (not_indirect b u n) ∙ e.contents b u n;
}
  where
    was_free : (b : ℕ) → fs1.used b ≡ false → fs.used b ≡ false
    was_free b p = elim (Bool-cases (fs.used b)) [
      | inl u ↦ let g = e.grows b u in absurd (cc)
      | inr u ↦ u
    ]

    not_indirect : (b : ℕ) → fs.used b ≡ true → b ≢ ip.addrs ndirect → b ≢ ip1.addrs ndirect
    not_indirect b u n q = elim e.fresh_indirect [
      | inl p ↦ n (q ∙ p)
      | inr p ↦ (let g = ap fs.used q in cc)
    ]
