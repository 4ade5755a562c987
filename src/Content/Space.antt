-- ===== src/Content/Space.antt =====
-- Free blocks: an allocation fails only where there is none.
use fp_sisop20_f.Base.{
  ℕ, zero, suc, ◌+◌, ◌-◌, ◌*◌, ◌/◌, ◌%◌, ◌≤◌, ◌<◌, ◌≡◌, ◌≢◌, refl, ◌∙◌, subst, arith, inl, inr,
  Bool, true, false, ◌||◌, Option, none, some, Bool-cases, ◌==◌, ltb, min, if◌then◌else◌, update,
  update_self, update_ne, ok, panic, Result, ◌>>=◌, add32, ℤ,
}
use fp_sisop20_f.Inode.{Dinode, ndirect, nindirect}
use fp_sisop20_f.Content.{
  Fs, bsize, maxfile, free_block, taken, balloc, ensure, ensure_entry, entered, addressed, indirect,
  bmap, piece, write_loop, writei, stored, moved, word, t_dev, grown,
}

abbrev pub free_among : (ℕ → Bool) → (b k : ℕ) → ℕ
free_among used b zero = 0
free_among used b (suc k) =
    let rest = free_among used (b + 1) k in if used b then rest else suc rest

-- the blocks of the device that are not in use
abbrev pub free : Fs → ℕ
free fs = free_among fs.used 0 fs.size

-- the blocks of a file that a range of its bytes touches
abbrev pub touched : (off n : ℕ) → ℕ
touched off n = if n == 0 then 0 else (off + n - 1) / 512 - off / 512 + 1

free_block-none : (used : ℕ → Bool) (b k : ℕ) → free_block used b k ≡ none → free_among used b k ≡ 0
unfolding free_block
free_block-none used b zero e = refl
free_block-none used b (suc k) e = elim (Bool-cases (used b)) [
  | inl u ↦ rw u (free_block-none used (b + 1) k (rw u at e))
  | inr u ↦ absurd (let h = rw u at e in cc)
]

-- A block in front of the range does not count.
free_among-behind :
    (used : ℕ → Bool) (c b k : ℕ)
    → c < b
    → free_among (update used c true) b k ≡ free_among used b k
free_among-behind used c b zero l = refl
free_among-behind used c b (suc k) l =
    let ih = free_among-behind used c (b + 1) k (omega arith) in
    rw (update_ne used c true b (omega arith), ih) refl

free_block-some :
    (used : ℕ → Bool) (b k c : ℕ)
    → free_block used b k ≡ some c
    → free_among used b k ≡ suc (free_among (update used c true) b k)
unfolding free_block
free_block-some used b zero c e = absurd (cc)
free_block-some used b (suc k) c e = elim (Bool-cases (used b)) [
  | inl u ↦
      let ih = free_block-some used (b + 1) k c (rw u at e) in
      let v : update used c true b ≡ true = elim (Bool-cases (b == c)) [
        | inl q ↦
            let p : b ≡ c = ground arith in
            subst (λ c. update used c true b ≡ true) p (update_self used b true)
        | inr q ↦ update_ne used c true b (ground arith) ∙ u
      ] in
      rw (u, v) ih
  | inr u ↦
      let h = rw u at e in
      let q : b ≡ c = cc in
      subst
        (λ c.
          (if used b then free_among used (b + 1) k else suc (free_among used (b + 1) k))
          ≡ suc (free_among (update used c true) b (suc k)))
        q (rw (u, update_self used b true, free_among-behind used b (b + 1) k (omega arith)) refl)
]

-- At most `n` free blocks are used; a failure means that there were less.
abbrev Spends : {A : Type 0} → ℕ → Fs → (A → Fs) → Result A → Type 0
Spends n fs of panic = free fs < n
Spends n fs of (ok a) = free fs ≤ free (of a) + n

balloc-Spends : (fs : Fs) → Spends 1 fs (λ (b, fs'). fs') (balloc fs)
unfolding balloc
balloc-Spends fs = by_search (free_block fs.used 0 fs.size) refl
  where
    by_search :
        (o : Option ℕ)
        → free_block fs.used 0 fs.size ≡ o
        → Spends 1 fs (λ (b, fs'). fs') (taken fs o)
    by_search none e = let z = free_block-none fs.used 0 fs.size e in omega (arith, z)
    by_search (some c) e = let z = free_block-some fs.used 0 fs.size c e in omega (arith, z)

ensure-Spends :
    (i : ℕ) (ip : Dinode) (fs : Fs) → Spends 1 fs (λ (b, ip', fs'). fs') (ensure i ip fs)
unfolding ensure
ensure-Spends i ip fs = elim (Bool-cases (ip.addrs i == 0)) [
  | inl z ↦ rw z (then_addressed (balloc fs) (balloc-Spends fs))
  | inr z ↦ rw z (omega arith)
]
  where
    then_addressed :
        (r : Result (ℕ × Fs))
        → Spends 1 fs (λ (b, fs'). fs') r
        → Spends 1 fs (λ (b, ip', fs'). fs') (r >>= addressed ip i)
    then_addressed panic h = h
    then_addressed (ok (b, fs')) h = h

ensure_entry-Spends : (a j : ℕ) (fs : Fs) → Spends 1 fs (λ (b, fs'). fs') (ensure_entry a j fs)
unfolding ensure_entry
ensure_entry-Spends a j fs = elim (Bool-cases (word (fs.blocks a) j == 0)) [
  | inl z ↦ rw z (then_entered (balloc fs) (balloc-Spends fs))
  | inr z ↦ rw z (omega arith)
]
  where
    then_entered :
        (r : Result (ℕ × Fs))
        → Spends 1 fs (λ (b, fs'). fs') r
        → Spends 1 fs (λ (b, fs'). fs') (r >>= entered a j)
    then_entered panic h = h
    then_entered (ok (b, fs')) h = h

bmap-Spends :
    (bn : ℕ) (ip : Dinode) (fs : Fs)
    → bn < maxfile
    → Spends 2 fs (λ (b, ip', fs'). fs') (bmap bn ip fs)
unfolding bmap
bmap-Spends bn ip fs l = elim (Bool-cases (ltb bn ndirect)) [
  | inl d ↦ rw d (one_more (ensure bn ip fs) (ensure-Spends bn ip fs))
  | inr d ↦
      let near : ltb (bn - ndirect) nindirect ≡ true = ground (arith, l) in
      rw (d, near) (then_entry (ensure ndirect ip fs) (ensure-Spends ndirect ip fs))
]
  where
    one_more :
        (r : Result (ℕ × Dinode × Fs))
        → Spends 1 fs (λ (b, ip', fs'). fs') r
        → Spends 2 fs (λ (b, ip', fs'). fs') r
    one_more panic h = omega (arith, h)
    one_more (ok (b, ip', fs')) h = omega (arith, h)

    second :
        (ip' : Dinode) (fs' : Fs)
        → free fs ≤ free fs' + 1
        → (r : Result (ℕ × Fs)) → Spends 1 fs' (λ (b, fs''). fs'') r
        → Spends 2 fs (λ (b, ip', fs'). fs') (r >>= λ (b, fs''). ok (b, ip', fs''))
    second ip' fs' h panic g = omega (arith, h, g)
    second ip' fs' h (ok (b, fs'')) g = omega (arith, h, g)

    then_entry :
        (r : Result (ℕ × Dinode × Fs))
        → Spends 1 fs (λ (b, ip', fs'). fs') r
        → Spends 2 fs (λ (b, ip', fs'). fs') (r >>= indirect (bn - ndirect))
    then_entry panic h = omega (arith, h)
    then_entry (ok (a, ip', fs')) h =
        second ip' fs' h (ensure_entry a (bn - ndirect) fs')
          (ensure_entry-Spends a (bn - ndirect) fs')

-- a round, and the rest
rounds :
    (off left m : ℕ)
    → 0 < left
    → m ≡ min left (bsize - off % bsize)
    → touched off left ≡ suc (touched (off + m) (left - m))
rounds off left m l e = ground (arith, e)

write_loop_full :
    (k tot off n : ℕ) (src : ℕ → ℕ) (ip : Dinode) (fs : Fs)
    → n - tot ≤ k
    → off + (n - tot) ≤ maxfile * bsize
    → write_loop k tot off n src ip fs ≡ panic
    → free fs < 2 * touched off (n - tot)
unfolding write_loop
write_loop_full zero tot off n src ip fs h fit p = absurd (cc)
write_loop_full (suc k) tot off n src ip fs h fit p = elim (Bool-cases (ltb tot n)) [
  | inr t ↦ absurd (let q = rw t at p in cc)
  | inl t ↦
      let m = piece tot off n in
      let lt : tot < n = ground (arith, t) in
      let z : n - (tot + m) ≡ n - tot - m = omega arith in
      let r = rounds off (n - tot) m (omega (arith, lt)) refl in
      by_block (bmap (off / bsize) ip fs)
        (bmap-Spends (off / bsize) ip fs (ground (arith, fit, lt))) r (rw t at p)
        (λ a ip1 fs1 q.
          subst (λ (d : ℕ). free fs1 < 2 * touched (off + m) d) z
            (write_loop_full k (tot + m) (off + m) n src ip1
              (stored fs1 a (moved (fs1.blocks a) (off % bsize) src tot m)) (omega (arith, h, lt))
              (omega (arith, fit)) q))
]
  where
    rest_of : ℕ × Dinode × Fs → Result (Dinode × Fs)
    rest_of (a, ip', fs') =
        write_loop k (tot + piece tot off n) (off + piece tot off n) n src ip'
          (stored fs' a (moved (fs'.blocks a) (off % bsize) src tot (piece tot off n)))

    by_block :
        (r : Result (ℕ × Dinode × Fs))
        → Spends 2 fs (λ (b, ip', fs'). fs') r
        → touched off (n - tot) ≡ suc (touched (off + piece tot off n) (n - tot - piece tot off n))
        → (r >>= rest_of) ≡ panic
        → ((a : ℕ) (ip1 : Dinode) (fs1 : Fs)
            → rest_of (a, ip1, fs1) ≡ panic
            → free fs1 < 2 * touched (off + piece tot off n) (n - tot - piece tot off n))
        → free fs < 2 * touched off (n - tot)
    by_block panic s e p ih = omega (arith, s, e)
    by_block (ok (a, ip1, fs1)) s e p ih = let q = ih a ip1 fs1 p in omega (arith, s, e, q)

grown-ok :
    (inum off n : ℕ) (r : Result (Dinode × Fs)) → (r >>= grown inum off n) ≡ panic → r ≡ panic
grown-ok inum off n panic p = refl
grown-ok inum off n (ok (ip, fs)) p = absurd (cc)

-- A panic of `writei` within the greatest size of a file comes from a lack of blocks.
pub writei_full :
    (driver : ℕ → Option ℤ) (inum off n : ℕ) (src : ℕ → ℕ) (ip : Dinode) (fs : Fs)
    → ip.type ≢ t_dev
    → off ≤ ip.size
    → off + n ≤ maxfile * bsize
    → writei driver inum off n src ip fs ≡ panic
    → free fs < 2 * touched off n
unfolding writei
writei_full driver inum off n src ip fs file l fit p =
    let no_device : (ip.type == t_dev) ≡ false = ground arith in
    let accepted : (ltb ip.size off || ltb (add32 off n) off || ltb (maxfile * bsize) (add32 off n))
        ≡ false =
      ground arith in
    let len : n - 0 ≡ n = omega arith in
    let q = grown-ok inum off n (write_loop n 0 off n src ip fs) (rw (no_device, accepted) at p) in
    subst (λ (d : ℕ). free fs < 2 * touched off d) len
      (write_loop_full n 0 off n src ip fs (omega arith) (omega arith) q)
