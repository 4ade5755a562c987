-- ===== src/Content/Map.antt =====
-- bmap finds the block of a file, or allocates it.
use fp_sisop20_f.Base.{
  ℕ, ◌+◌, ◌-◌, ◌^◌, ◌<◌, ◌≡◌, ◌≢◌, refl, ◌∙◌, ap, sym, arith, ◌⊎◌, inl, inr, Bool, true, false, ◌∷◌,
  Bool-cases, ◌==◌, ltb, if◌then◌else◌, update, update_self, update_ne, ok, panic, Result, ◌>>=◌,
  subst,
}
use fp_sisop20_f.Inode.{Dinode, ndirect, nindirect}
use fp_sisop20_f.Content.{Block, Fs, maxfile, word, set_word, ensure, ensure_entry, indirect, bmap}
use fp_sisop20_f.Content.Layout.{
  addr_of, IsLaid, Extends, Extends-refl, Extends-trans, Allocates, balloc-Allocates,
}
use fp_sisop20_f.Content.Added.{IsAdded, added-Extends, word-set_word}

abbrev with_addr : Dinode → ℕ → ℕ → Dinode
with_addr ip i b = record ip { addrs = update ip.addrs i b }

module _ (ip : Dinode) (fs : Fs) (b : ℕ) (fs' : Fs) where
  -- the indirect block keeps its contents
  same_words :
      IsLaid ip fs
      → Allocates fs b fs'
      → fs'.blocks (ip.addrs ndirect) ≡ fs.blocks (ip.addrs ndirect)
  same_words v a =
      ap (λ (c : ℕ → Block). c (ip.addrs ndirect)) a.blocks_are
      ∙ update_ne fs.blocks b (λ _. 0) (ip.addrs ndirect)
          (λ e.
            let u : fs.used b ≡ true = ap fs.used (sym e) ∙ v.used_indirect in
            let f = a.was_free in cc)

  direct_addr :
      (i : ℕ)
      → i < ndirect
      → IsLaid ip fs
      → Allocates fs b fs'
      → (bn : ℕ) → addr_of (with_addr ip i b) fs' bn ≡ (if bn == i then b else addr_of ip fs bn)
  direct_addr i l v a bn =
      let q : update ip.addrs i b ndirect ≡ ip.addrs ndirect =
        update_ne ip.addrs i b ndirect (omega arith) in
      elim (Bool-cases (ltb bn ndirect)) [
        | inl d ↦ rw d (unfold update in refl)
        | inr d ↦ let e : (bn == i) ≡ false = ground arith in rw (d, e, q, same_words v a) refl
      ]

  contents_kept : Allocates fs b fs' → (c : ℕ) → fs.used c ≡ true → fs'.blocks c ≡ fs.blocks c
  contents_kept a c u =
      ap (λ (t : ℕ → Block). t c) a.blocks_are
      ∙ update_ne fs.blocks b (λ _. 0) c
          (λ e. let u' : fs.used b ≡ true = ap fs.used (sym e) ∙ u in let f = a.was_free in cc)

  direct-IsAdded :
      (i : ℕ)
      → i < ndirect
      → ip.addrs i ≡ 0
      → IsLaid ip fs
      → Allocates fs b fs'
      → IsAdded ip fs i b (with_addr ip i b) fs'
  direct-IsAdded i l z v a =
      let t : ltb i ndirect ≡ true = ground arith in
      record {
        laid = v;
        inside = a.inside;
        was_free = a.was_free;
        was_none = rw t z;
        addr = λ bn m. direct_addr i l v a bn;
        used_is = a.used_is;
        size_is = a.size_is;
        file_size = refl;
        file_type = refl;
        same_indirect = update_ne ip.addrs i b ndirect (omega arith);
        contents = λ c u n. contents_kept a c u;
      }

  -- A new indirect block has no entries.
  indirect-Extends :
      ip.addrs ndirect ≡ 0
      → IsLaid ip fs
      → Allocates fs b fs'
      → Extends ip fs (with_addr ip ndirect b) fs'
  indirect-Extends z v a = record {
    laid = record {
      boot = stays 0 v.boot;
      small = omega (arith, a.size_is, v.small);
      used = λ bn l. rw (addr bn) (stays _ (v.used bn l));
      used_indirect = rw mine (now b ∙ rw same refl);
      apart = λ bn l nz q. not_mine bn l (q ∙ mine);
      distinct = λ bn bm l m nz q.
          v.distinct bn bm l m (λ e. nz (addr bn ∙ e)) (sym (addr bn) ∙ q ∙ addr bm);
    };
    same_size = refl;
    same_type = refl;
    grows = stays;
    keeps = λ bn l nz. addr bn;
    fresh = λ bn l. inl (addr bn);
    fresh_indirect = inr (ap fs.used mine ∙ a.was_free);
    contents = λ c u n. contents_kept a c u;
  }
    where
      same : (b == b) ≡ true
      same = ground arith

      mine : update ip.addrs ndirect b ndirect ≡ b
      mine = update_self ip.addrs ndirect b

      now : (c : ℕ) → fs'.used c ≡ (if c == b then true else fs.used c)
      now c = ap (λ (u : ℕ → Bool). u c) a.used_is ∙ (unfold update in refl)

      stays : (c : ℕ) → fs.used c ≡ true → fs'.used c ≡ true
      stays c u = now c ∙ (elim (Bool-cases (c == b)) [ inl e ↦ rw e refl | inr e ↦ rw e u ])

      cleared : fs'.blocks b ≡ (λ _. 0)
      cleared = ap (λ (t : ℕ → Block). t b) a.blocks_are ∙ update_self fs.blocks b (λ _. 0)

      addr : (bn : ℕ) → addr_of (with_addr ip ndirect b) fs' bn ≡ addr_of ip fs bn
      addr bn = elim (Bool-cases (ltb bn ndirect)) [
        | inl d ↦ rw d (update_ne ip.addrs ndirect b bn (ground arith))
        | inr d ↦ elim (Bool-cases (b == 0)) [
          | inl e ↦ rw (d, mine, e, z) refl
          | inr e ↦ rw (d, mine, e, z, cleared) (omega arith)
        ]
      ]

      not_mine : (bn : ℕ) → bn < maxfile → addr_of (with_addr ip ndirect b) fs' bn ≢ b
      not_mine bn l q =
          let u : fs.used b ≡ true = ap fs.used (sym q ∙ addr bn) ∙ v.used bn l in
          let f = a.was_free in cc

-- a new entry `j` of the indirect block
abbrev entry_fs : ℕ → ℕ → ℕ → Fs → Fs
entry_fs a j b fs = record fs {
  blocks = update fs.blocks a (set_word (fs.blocks a) j b);
  logged = a ∷ fs.logged;
}

module _ (ip : Dinode) (fs : Fs) (j b : ℕ) (fs1 : Fs) where
  entry-IsAdded :
      j < nindirect
      → ip.addrs ndirect ≢ 0
      → word (fs.blocks (ip.addrs ndirect)) j ≡ 0
      → IsLaid ip fs
      → Allocates fs b fs1
      → IsAdded ip fs (ndirect + j) b ip (entry_fs (ip.addrs ndirect) j b fs1)
  entry-IsAdded l nz z v a = record {
    laid = v;
    inside = a.inside;
    was_free = a.was_free;
    was_none = rw (late, some_indirect, back) z;
    addr = λ bn m. addr bn m;
    used_is = a.used_is;
    size_is = a.size_is;
    file_size = refl;
    file_type = refl;
    same_indirect = refl;
    contents = λ c u n.
        update_ne fs1.blocks (ip.addrs ndirect) (set_word (fs1.blocks (ip.addrs ndirect)) j b) c n
        ∙ contents_kept ip fs b fs1 a c u;
  }
    where
      late : ltb (ndirect + j) ndirect ≡ false
      late = ground arith

      some_indirect : (ip.addrs ndirect == 0) ≡ false
      some_indirect = ground arith

      back : ndirect + j - ndirect ≡ j
      back = omega arith

      addr :
          (bn : ℕ)
          → bn < maxfile
          → addr_of ip (entry_fs (ip.addrs ndirect) j b fs1) bn
            ≡ (if bn == ndirect + j then b else addr_of ip fs bn)
      addr bn m = elim (Bool-cases (ltb bn ndirect)) [
        | inl d ↦ let e : (bn == ndirect + j) ≡ false = ground arith in rw (d, e) refl
        | inr d ↦
            let same : (bn == ndirect + j) ≡ (bn - ndirect == j) = ground arith in
            let small : b < 2 ^ 32 = omega (arith, a.inside, v.small) in
            let new : (entry_fs (ip.addrs ndirect) j b fs1).blocks (ip.addrs ndirect)
                ≡ set_word (fs.blocks (ip.addrs ndirect)) j b =
              update_self fs1.blocks (ip.addrs ndirect) _
              ∙ ap (λ (c : Block). set_word c j b) (same_words ip fs b fs1 v a) in
            rw (d, some_indirect, same)
              (ap (λ (c : Block). word c (bn - ndirect)) new
                ∙ word-set_word (fs.blocks (ip.addrs ndirect)) j b (bn - ndirect) small)
      ]

-- What `bmap` may answer: it panics; or it answers with the block that the file has now, and has changed the file and the device by nothing but allocating.
abbrev pub Maps : ℕ → Dinode → Fs → Result (ℕ × Dinode × Fs) → Type 0
Maps bn ip fs r =
    (r ≡ panic)
    ⊎ ((a : ℕ) × (ip' : Dinode) × (fs' : Fs) × (r ≡ ok (a, ip', fs'))
        × (a ≢ 0)
        × (addr_of ip' fs' bn ≡ a)
        × Extends ip fs ip' fs')

not_boot : (ip : Dinode) (fs : Fs) (b : ℕ) → IsLaid ip fs → fs.used b ≡ false → b ≢ 0
not_boot ip fs b v f e = let u : fs.used b ≡ true = ap fs.used e ∙ v.boot in cc

ensure-Maps :
    (i : ℕ) (ip : Dinode) (fs : Fs) → i < ndirect → IsLaid ip fs → Maps i ip fs (ensure i ip fs)
unfolding ensure
ensure-Maps i ip fs l v =
    let t : ltb i ndirect ≡ true = ground arith in
    elim (Bool-cases (ip.addrs i == 0)) [
      | inl z ↦ elim (balloc-Allocates fs) [
        | inl p ↦ inl (rw (z, p) refl)
        | inr (b, fs', p, a) ↦ inr (
          b,
          with_addr ip i b,
          fs',
          rw (z, p) refl,
          not_boot ip fs b v a.was_free,
          rw t (update_self ip.addrs i b),
          added-Extends ip fs i b (with_addr ip i b) fs'
              (direct-IsAdded ip fs b fs' i l (ground arith) v a),
        )
      ]
      | inr z ↦ inr (ip.addrs i, ip, fs, rw z refl, ground arith, rw t refl, Extends-refl ip fs v)
    ]

ensure_indirect :
    (ip : Dinode) (fs : Fs)
    → IsLaid ip fs
    → (ensure ndirect ip fs ≡ panic)
      ⊎ ((ip' : Dinode) × (fs' : Fs) × (ensure ndirect ip fs ≡ ok (ip'.addrs ndirect, ip', fs'))
          × (ip'.addrs ndirect ≢ 0)
          × Extends ip fs ip' fs')
unfolding ensure
ensure_indirect ip fs v = elim (Bool-cases (ip.addrs ndirect == 0)) [
  | inl z ↦ elim (balloc-Allocates fs) [
    | inl p ↦ inl (rw (z, p) refl)
    | inr (b, fs', p, a) ↦
        let mine = update_self ip.addrs ndirect b in
        inr (
          with_addr ip ndirect b,
          fs',
          rw (z, p, mine) refl,
          (λ e. not_boot ip fs b v a.was_free (sym mine ∙ e)),
          indirect-Extends ip fs b fs' (ground arith) v a,
        )
  ]
  | inr z ↦ inr (ip, fs, rw z refl, ground arith, Extends-refl ip fs v)
]

ensure_entry-Maps :
    (j : ℕ) (ip : Dinode) (fs : Fs)
    → j < nindirect
    → ip.addrs ndirect ≢ 0
    → IsLaid ip fs
    → (ensure_entry (ip.addrs ndirect) j fs ≡ panic)
      ⊎ ((a : ℕ) × (fs' : Fs) × (ensure_entry (ip.addrs ndirect) j fs ≡ ok (a, fs'))
          × (a ≢ 0)
          × (addr_of ip fs' (ndirect + j) ≡ a)
          × Extends ip fs ip fs')
unfolding ensure_entry
ensure_entry-Maps j ip fs l nz v =
    let late : ltb (ndirect + j) ndirect ≡ false = ground arith in
    let given : (ip.addrs ndirect == 0) ≡ false = ground arith in
    let back : ndirect + j - ndirect ≡ j = omega arith in
    elim (Bool-cases (word (fs.blocks (ip.addrs ndirect)) j == 0)) [
      | inl z ↦ elim (balloc-Allocates fs) [
        | inl p ↦ inl (rw (z, p) refl)
        | inr (b, fs1, p, a) ↦
            let added = entry-IsAdded ip fs j b fs1 l nz (ground arith) v a in
            let same : (ndirect + j == ndirect + j) ≡ true = ground arith in
            inr (
              b,
              entry_fs (ip.addrs ndirect) j b fs1,
              rw (z, p) refl,
              not_boot ip fs b v a.was_free,
              added.addr (ndirect + j) (omega arith) ∙ rw same refl,
              added-Extends ip fs (ndirect + j) b ip (entry_fs (ip.addrs ndirect) j b fs1) added,
            )
      ]
      | inr z ↦ inr (
        word (fs.blocks (ip.addrs ndirect)) j,
        fs,
        rw z refl,
        ground arith,
        rw (late, given, back) refl,
        Extends-refl ip fs v,
      )
    ]

-- `bmap` on a file whose blocks are laid out well, for any block number that a file may have: it panics,
-- or it answers with the file's block of that number, never 0; the layout stays well, the file keeps the blocks that it had, new ones were free, and no block
-- in use but the file's indirect one has other contents.
pub bmap-Maps :
    (bn : ℕ) (ip : Dinode) (fs : Fs) → bn < maxfile → IsLaid ip fs → Maps bn ip fs (bmap bn ip fs)
unfolding bmap
bmap-Maps bn ip fs l v = elim (Bool-cases (ltb bn ndirect)) [
  | inl d ↦
      let q : bmap bn ip fs ≡ ensure bn ip fs = rw d refl in
      subst (Maps bn ip fs) (sym q) (ensure-Maps bn ip fs (ground arith) v)
  | inr d ↦
      let near : ltb (bn - ndirect) nindirect ≡ true = ground arith in
      let whole : ndirect + (bn - ndirect) ≡ bn = ground arith in
      let q : bmap bn ip fs ≡ (ensure ndirect ip fs >>= indirect (bn - ndirect)) =
        rw (d, near) refl in
      subst (Maps bn ip fs) (sym q) (elim (ensure_indirect ip fs v) [
        | inl p ↦ inl (rw p refl)
        | inr (ip1, fs1, p, nz, e) ↦
            elim (ensure_entry-Maps (bn - ndirect) ip1 fs1 (ground arith) nz e.laid) [
              | inl r ↦ inl (rw (p, r) refl)
              | inr (a, fs2, r, anz, addr, f) ↦ inr (
                a,
                ip1,
                fs2,
                rw (p, r) refl,
                anz,
                ap (addr_of ip1 fs2) (sym whole) ∙ addr,
                Extends-trans ip fs ip1 fs1 ip1 fs2 v e f,
              )
            ]
      ])
]
