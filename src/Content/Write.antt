-- ===== src/Content/Write.antt =====
-- One round of writei's loop changes the bytes of the file in its range, and nothing else.
use fp_sisop20_f.Base.{
  ℕ, ◌+◌, ◌-◌, ◌*◌, ◌/◌, ◌%◌, ◌<◌, ◌≤◌, ◌≡◌, ◌≢◌, refl, ◌∙◌, ap, sym, arith, ◌⊎◌, inl, inr, true,
  false, ◌&&◌, Bool-cases, ◌==◌, ltb, leb, update, update_self, update_ne,
}
use fp_sisop20_f.Inode.{Dinode, ndirect}
use fp_sisop20_f.Content.{Block, Fs, bsize, maxfile, moved, stored}
use fp_sisop20_f.Content.Layout.{addr_of, byte_at, IsLaid, Extends}

-- What a write of `len` bytes of `src`, from index `s` on, to a file at `off` changes.
pub record Wrote (ip : Dinode) (fs : Fs) (off len : ℕ) (src : ℕ → ℕ) (s : ℕ) (ip' : Dinode)
    (fs' : Fs) : Type 0 where
  pub laid : IsLaid ip' fs'
  pub keeps : (bn : ℕ) → bn < maxfile → addr_of ip fs bn ≢ 0 → addr_of ip' fs' bn ≡ addr_of ip fs bn
  pub inside :
      (x : ℕ)
      → off ≤ x
      → x < off + len
      → (addr_of ip' fs' (x / bsize) ≢ 0) × (byte_at ip' fs' x ≡ src (s + (x - off)))
  pub outside :
      (x : ℕ)
      → (x < off) ⊎ (off + len ≤ x)
      → x / bsize < maxfile
      → addr_of ip fs (x / bsize) ≢ 0
      → byte_at ip' fs' x ≡ byte_at ip fs x
  pub others :
      (b : ℕ)
      → fs.used b ≡ true
      → b ≢ ip.addrs ndirect
      → ((bn : ℕ) → bn < maxfile → addr_of ip fs bn ≢ b)
      → fs'.blocks b ≡ fs.blocks b

-- A block of the file gets new contents: the layout stays.
module _ (ip : Dinode) (fs : Fs) (a bn : ℕ) (c : Block) where
  stored_addr : a ≢ ip.addrs ndirect → (bm : ℕ) → addr_of ip (stored fs a c) bm ≡ addr_of ip fs bm
  stored_addr ne bm =
      let q : update fs.blocks a c (ip.addrs ndirect) ≡ fs.blocks (ip.addrs ndirect) =
        update_ne fs.blocks a c (ip.addrs ndirect) (λ e. ne (sym e)) in
      rw q refl

  stored-IsLaid : a ≢ ip.addrs ndirect → IsLaid ip fs → IsLaid ip (stored fs a c)
  stored-IsLaid ne v =
      let same = stored_addr ne in
      record {
        boot = v.boot;
        small = v.small;
        used = λ bm l. ap fs.used (same bm) ∙ v.used bm l;
        used_indirect = v.used_indirect;
        apart = λ bm l nz q. v.apart bm l (λ z. nz (same bm ∙ z)) (sym (same bm) ∙ q);
        distinct = λ bm bk l m nz q.
            v.distinct bm bk l m (λ z. nz (same bm ∙ z)) (sym (same bm) ∙ q ∙ same bk);
      }

pub nothing-Wrote :
    (ip : Dinode) (fs : Fs) (off : ℕ) (src : ℕ → ℕ) (s : ℕ)
    → IsLaid ip fs
    → Wrote ip fs off 0 src s ip fs
nothing-Wrote ip fs off src s v = record {
  laid = v;
  keeps = λ bn l nz. refl;
  inside = λ x l m. absurd (omega arith);
  outside = λ x h l nz. refl;
  others = λ b u n h. refl;
}

-- One round, and the rest: `m` bytes go to block `a`, the file's block number `off / bsize`.
module _ (ip : Dinode) (fs : Fs) (off m : ℕ) (src : ℕ → ℕ) (s a : ℕ) (ip1 : Dinode) (fs1 : Fs)
    (v : IsLaid ip fs) (e : Extends ip fs ip1 fs1) (nz : a ≢ 0)
    (here : addr_of ip1 fs1 (off / bsize) ≡ a) (valid : off / bsize < maxfile)
    (m_fits : m + off % bsize ≤ bsize) where
  abbrev pub new_block : Block
  new_block = moved (fs1.blocks a) (off % bsize) src s m

  abbrev pub fs2 : Fs
  fs2 = stored fs1 a new_block

  data_block : a ≢ ip1.addrs ndirect
  data_block q = e.laid.apart (off / bsize) valid (λ z. nz (sym here ∙ z)) (here ∙ q)

  same_addr : (bn : ℕ) → addr_of ip1 fs2 bn ≡ addr_of ip1 fs1 bn
  same_addr bn = stored_addr ip1 fs1 a (off / bsize) new_block data_block bn

  pub round-IsLaid : IsLaid ip1 fs2
  round-IsLaid = stored-IsLaid ip1 fs1 a (off / bsize) new_block data_block e.laid

  kept_addr : (bn : ℕ) → bn < maxfile → addr_of ip fs bn ≢ 0 → addr_of ip1 fs2 bn ≡ addr_of ip fs bn
  kept_addr bn l z = same_addr bn ∙ e.keeps bn l z

  -- a byte of the round
  round_inside : (x : ℕ) → off ≤ x → x < off + m → byte_at ip1 fs2 x ≡ src (s + (x - off))
  round_inside x l h =
      let bn : x / bsize ≡ off / bsize = omega arith in
      let at : addr_of ip1 fs2 (x / bsize) ≡ a =
        ap (addr_of ip1 fs2) bn ∙ same_addr (off / bsize) ∙ here in
      let new : fs2.blocks a ≡ new_block = update_self fs1.blocks a new_block in
      let test : (leb (off % bsize) (x % bsize) && ltb (x % bsize) (off % bsize + m)) ≡ true =
        ground arith in
      let i : x % bsize - off % bsize ≡ x - off = omega arith in
      ap (λ (b : ℕ). fs2.blocks b (x % bsize)) at
      ∙ ap (λ (c : Block). c (x % bsize)) new
      ∙ rw (test, i) refl

  -- a byte of the file that the round does not write
  round_outside :
      (x : ℕ)
      → (x < off) ⊎ (off + m ≤ x)
      → x / bsize < maxfile
      → addr_of ip fs (x / bsize) ≢ 0
      → byte_at ip1 fs2 x ≡ byte_at ip fs x
  round_outside x h l z =
      let c = addr_of ip fs (x / bsize) in
      let at : addr_of ip1 fs2 (x / bsize) ≡ c = kept_addr (x / bsize) l z in
      let old : fs1.blocks c ≡ fs.blocks c =
        e.contents c (v.used (x / bsize) l) (v.apart (x / bsize) l z) in
      ap (λ (b : ℕ). fs2.blocks b (x % bsize)) at ∙ (elim (Bool-cases (c == a)) [
        | inl q ↦
            let ca : c ≡ a = ground arith in
            let bn : x / bsize ≡ off / bsize =
              e.laid.distinct (x / bsize) (off / bsize) l valid
                (λ y. z (sym (e.keeps (x / bsize) l z) ∙ y))
                (e.keeps (x / bsize) l z ∙ ca ∙ sym here) in
            let test : (leb (off % bsize) (x % bsize) && ltb (x % bsize) (off % bsize + m))
                ≡ false =
              ground arith in
            ap (λ (b : ℕ). fs2.blocks b (x % bsize)) ca
            ∙ ap (λ (d : Block). d (x % bsize)) (update_self fs1.blocks a new_block)
            ∙ rw test refl
            ∙ ap (λ (b : ℕ). fs1.blocks b (x % bsize)) (sym ca)
            ∙ ap (λ (d : Block). d (x % bsize)) old
        | inr q ↦
            ap (λ (d : Block). d (x % bsize))
              (update_ne fs1.blocks a new_block c (ground arith) ∙ old)
      ])

  round_others :
      (b : ℕ)
      → fs.used b ≡ true
      → b ≢ ip.addrs ndirect
      → ((bn : ℕ) → bn < maxfile → addr_of ip fs bn ≢ b)
      → (b ≢ ip1.addrs ndirect)
        × ((bn : ℕ) → bn < maxfile → addr_of ip1 fs2 bn ≢ b)
        × (fs2.blocks b ≡ fs.blocks b)
  round_others b u n h = (not_indirect, not_new, untouched)
    where
      not_indirect : b ≢ ip1.addrs ndirect
      not_indirect q = elim e.fresh_indirect [
        | inl p ↦ n (q ∙ p)
        | inr p ↦ (let g = ap fs.used q in cc)
      ]

      not_file : (bn : ℕ) → bn < maxfile → addr_of ip1 fs1 bn ≢ b
      not_file bn l q = elim (e.fresh bn l) [
        | inl p ↦ h bn l (sym p ∙ q)
        | inr p ↦ (let g = ap fs.used q in cc)
      ]

      not_new : (bn : ℕ) → bn < maxfile → addr_of ip1 fs2 bn ≢ b
      not_new bn l q = not_file bn l (sym (same_addr bn) ∙ q)

      untouched : fs2.blocks b ≡ fs.blocks b
      untouched =
          update_ne fs1.blocks a new_block b (λ q. not_file (off / bsize) valid (here ∙ sym q))
          ∙ e.contents b u n

  -- what the round and the `len` bytes after it do
  pub round-Wrote :
      (len : ℕ) (ip' : Dinode) (fs' : Fs)
      → off + m + len ≤ maxfile * bsize
      → Wrote ip1 fs2 (off + m) len src (s + m) ip' fs'
      → Wrote ip fs off (m + len) src s ip' fs'
  round-Wrote len ip' fs' fit f = record {
    laid = f.laid;
    keeps = λ bn l z. f.keeps bn l (λ y. z (sym (kept_addr bn l z) ∙ y)) ∙ kept_addr bn l z;
    inside = λ x l h. elim (Bool-cases (ltb x (off + m))) [
      | inl t ↦ early x l (ground arith)
      | inr t ↦
          let (p, q) = f.inside x (ground arith) (omega arith) in
          let i : s + m + (x - (off + m)) ≡ s + (x - off) = ground arith in (p, q ∙ ap src i)
    ];
    outside = λ x h l z.
        f.outside x (wider x h) l (λ y. z (sym (kept_addr (x / bsize) l z) ∙ y))
        ∙ round_outside x (narrower x h) l z;
    others = λ b u n h. let (i, g, c) = round_others b u n h in f.others b (e.grows b u) i g ∙ c;
  }
    where
      wider : (x : ℕ) → (x < off) ⊎ (off + (m + len) ≤ x) → (x < off + m) ⊎ (off + m + len ≤ x)
      wider x (inl h) = inl (omega arith)
      wider x (inr h) = inr (omega arith)

      narrower : (x : ℕ) → (x < off) ⊎ (off + (m + len) ≤ x) → (x < off) ⊎ (off + m ≤ x)
      narrower x (inl h) = inl h
      narrower x (inr h) = inr (omega arith)

      early :
          (x : ℕ)
          → off ≤ x
          → x < off + m
          → (addr_of ip' fs' (x / bsize) ≢ 0) × (byte_at ip' fs' x ≡ src (s + (x - off)))
      early x l h =
          let bn : x / bsize ≡ off / bsize = omega arith in
          let in_file : x / bsize < maxfile = omega arith in
          let now : addr_of ip1 fs2 (x / bsize) ≡ a =
            ap (addr_of ip1 fs2) bn ∙ same_addr (off / bsize) ∙ here in
          let some_block : addr_of ip1 fs2 (x / bsize) ≢ 0 = λ z. nz (sym now ∙ z) in
          (
            (λ z. some_block (sym (f.keeps (x / bsize) in_file some_block) ∙ z)),
            f.outside x (inl h) in_file some_block ∙ round_inside x l h,
          )
