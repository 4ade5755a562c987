-- ===== src/Content/Added.antt =====
-- A file that gets one more block, and words in a block.
use fp_sisop20_f.Base.{
  ℕ, ◌+◌, ◌*◌, ◌/◌, ◌%◌, ◌^◌, ◌<◌, ◌≡◌, ◌≢◌, refl, ◌∙◌, ap, sym, arith, ◌⊎◌, inl, inr, Bool, true,
  false, Bool-cases, ◌==◌, if◌then◌else◌, update,
}
use fp_sisop20_f.Inode.{Dinode, ndirect}
use fp_sisop20_f.Content.{Block, Fs, maxfile, word, set_word, byte_of}
use fp_sisop20_f.Content.Layout.{addr_of, IsLaid, Extends}

set_word_byte :
    (c : Block) (i w j k : ℕ)
    → k < 4
    → set_word c i w (4 * j + k) ≡ (if j == i then byte_of w k else c (4 * j + k))
set_word_byte c i w j k h =
    let a : (4 * j + k) / 4 ≡ j = omega arith in
    let b : (4 * j + k) % 4 ≡ k = omega arith in rw (a, b) refl

pub word-set_word :
    (c : Block) (i w j : ℕ)
    → w < 2 ^ 32
    → word (set_word c i w) j ≡ (if j == i then w else word c j)
word-set_word c i w j h =
    let z : 4 * j ≡ 4 * j + 0 = omega arith in
    let a : set_word c i w (4 * j) ≡ (if j == i then byte_of w 0 else c (4 * j)) =
      ap (set_word c i w) z ∙ set_word_byte c i w j 0 (omega arith) ∙ rw (← z) refl in
    rw
      (
        a,
        set_word_byte c i w j 1 (omega arith),
        set_word_byte c i w j 2 (omega arith),
        set_word_byte c i w j 3 (omega arith),
      )
      (elim (Bool-cases (j == i)) [ inl e ↦ rw e (omega arith) | inr e ↦ rw e refl ])

word_zero : (j : ℕ) → word (λ _. 0) j ≡ 0
word_zero j = omega arith

-- One more block of the file: number `i`, which had none, is the block `b` that was free.
pub record IsAdded (ip : Dinode) (fs : Fs) (i b : ℕ) (ip' : Dinode) (fs' : Fs) : Type 0 where
  pub laid : IsLaid ip fs
  pub inside : b < fs.size
  pub was_free : fs.used b ≡ false
  pub was_none : addr_of ip fs i ≡ 0
  pub addr :
      (bn : ℕ) → bn < maxfile → addr_of ip' fs' bn ≡ (if bn == i then b else addr_of ip fs bn)
  pub used_is : fs'.used ≡ update fs.used b true
  pub size_is : fs'.size ≡ fs.size
  pub file_size : ip'.size ≡ ip.size
  pub file_type : ip'.type ≡ ip.type
  pub same_indirect : ip'.addrs ndirect ≡ ip.addrs ndirect
  pub contents : (c : ℕ) → fs.used c ≡ true → c ≢ ip.addrs ndirect → fs'.blocks c ≡ fs.blocks c

module _ (ip : Dinode) (fs : Fs) (i b : ℕ) (ip' : Dinode) (fs' : Fs) where
  used_now : IsAdded ip fs i b ip' fs' → (c : ℕ) → fs'.used c ≡ (if c == b then true else fs.used c)
  unfolding update
  used_now v c = ap (λ (u : ℕ → Bool). u c) v.used_is

  grown_used : IsAdded ip fs i b ip' fs' → (c : ℕ) → fs.used c ≡ true → fs'.used c ≡ true
  grown_used v c u =
      used_now v c ∙ (elim (Bool-cases (c == b)) [ inl e ↦ rw e refl | inr e ↦ rw e u ])

  still_used :
      IsAdded ip fs i b ip' fs' → (bn : ℕ) → bn < maxfile → fs'.used (addr_of ip' fs' bn) ≡ true
  still_used v bn l = elim (Bool-cases (bn == i)) [
    | inl e ↦
        let a : addr_of ip' fs' bn ≡ b = v.addr bn l ∙ rw e refl in
        let e' : (b == b) ≡ true = ground arith in rw a (used_now v b ∙ rw e' refl)
    | inr e ↦
        let a : addr_of ip' fs' bn ≡ addr_of ip fs bn = v.addr bn l ∙ rw e refl in
        rw a (grown_used v _ (v.laid.used bn l))
  ]

  -- the new block is none of the file's
  new_apart : IsAdded ip fs i b ip' fs' → (bn : ℕ) → bn < maxfile → b ≢ addr_of ip fs bn
  new_apart v bn l e =
      let u : fs.used b ≡ true = ap fs.used e ∙ v.laid.used bn l in let f = v.was_free in cc

  new_indirect : IsAdded ip fs i b ip' fs' → b ≢ ip.addrs ndirect
  new_indirect v e =
      let u : fs.used b ≡ true = ap fs.used e ∙ v.laid.used_indirect in let f = v.was_free in cc

  added-IsLaid : IsAdded ip fs i b ip' fs' → IsLaid ip' fs'
  added-IsLaid v = record {
    boot = grown_used v 0 v.laid.boot;
    small = omega (arith, v.size_is, v.laid.small);
    used = still_used v;
    used_indirect = rw v.same_indirect (grown_used v _ v.laid.used_indirect);
    apart = λ bn l nz q. apart_now bn l nz (q ∙ v.same_indirect);
    distinct = distinct_now;
  }
    where
      apart_now :
          (bn : ℕ) → bn < maxfile → addr_of ip' fs' bn ≢ 0 → addr_of ip' fs' bn ≢ ip.addrs ndirect
      apart_now bn l nz q = elim (Bool-cases (bn == i)) [
        | inl e ↦ new_indirect v (sym (v.addr bn l ∙ rw e refl) ∙ q)
        | inr e ↦
            let a : addr_of ip' fs' bn ≡ addr_of ip fs bn = v.addr bn l ∙ rw e refl in
            v.laid.apart bn l (λ z. nz (a ∙ z)) (sym a ∙ q)
      ]

      distinct_now :
          (bn bm : ℕ)
          → bn < maxfile
          → bm < maxfile
          → addr_of ip' fs' bn ≢ 0
          → addr_of ip' fs' bn ≡ addr_of ip' fs' bm
          → bn ≡ bm
      distinct_now bn bm l m nz q = elim (Bool-cases (bn == i)) [
        | inl e ↦ elim (Bool-cases (bm == i)) [
          | inl f ↦ ground arith
          | inr f ↦
              absurd
                (new_apart v bm m (sym (v.addr bn l ∙ rw e refl) ∙ q ∙ v.addr bm m ∙ rw f refl))
        ]
        | inr e ↦
            let a : addr_of ip' fs' bn ≡ addr_of ip fs bn = v.addr bn l ∙ rw e refl in
            elim (Bool-cases (bm == i)) [
              | inl f ↦ absurd (new_apart v bn l (sym (v.addr bm m ∙ rw f refl) ∙ sym q ∙ a))
              | inr f ↦
                  let a' : addr_of ip' fs' bm ≡ addr_of ip fs bm = v.addr bm m ∙ rw f refl in
                  v.laid.distinct bn bm l m (λ z. nz (a ∙ z)) (sym a ∙ q ∙ a')
            ]
      ]

  pub added-Extends : IsAdded ip fs i b ip' fs' → Extends ip fs ip' fs'
  added-Extends v = record {
    laid = added-IsLaid v;
    same_size = v.file_size;
    same_type = v.file_type;
    grows = grown_used v;
    keeps = kept;
    fresh = news;
    fresh_indirect = inl v.same_indirect;
    contents = v.contents;
  }
    where
      kept : (bn : ℕ) → bn < maxfile → addr_of ip fs bn ≢ 0 → addr_of ip' fs' bn ≡ addr_of ip fs bn
      kept bn l nz = elim (Bool-cases (bn == i)) [
        | inl e ↦ let q : bn ≡ i = ground arith in absurd (nz (ap (addr_of ip fs) q ∙ v.was_none))
        | inr e ↦ v.addr bn l ∙ rw e refl
      ]

      news :
          (bn : ℕ)
          → bn < maxfile
          → (addr_of ip' fs' bn ≡ addr_of ip fs bn) ⊎ (fs.used (addr_of ip' fs' bn) ≡ false)
      news bn l = elim (Bool-cases (bn == i)) [
        | inl e ↦ inr (ap fs.used (v.addr bn l ∙ rw e refl) ∙ v.was_free)
        | inr e ↦ inl (v.addr bn l ∙ rw e refl)
      ]
