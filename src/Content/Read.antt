-- ===== src/Content/Read.antt =====
-- readi delivers the bytes of the file, and what writei wrote is read back.
use fp_sisop20_f.Base.{
  ℕ, zero, suc, ◌+◌, ◌-◌, ◌*◌, ◌/◌, ◌%◌, ◌^◌, ◌<◌, ◌≤◌, ◌≡◌, ◌≢◌, refl, ◌∙◌, ap₂, sym, arith, inl,
  inr, true, false, ◌&&◌, ◌||◌, Bool-cases, ◌==◌, ltb, leb, if◌then◌else◌, min, ok, Option, ℤ, pos,
  add32,
}
use fp_sisop20_f.Inode.{Dinode, ndirect, nindirect}
use fp_sisop20_f.Content.{
  Fs, bsize, maxfile, bmap, ensure, ensure_entry, moved, piece, read_loop, readi, t_dev, word,
}
use fp_sisop20_f.Content.Layout.{addr_of, byte_at}

-- every block below the size is there
abbrev pub IsFull : Dinode → Fs → Type 0
IsFull ip fs = (x : ℕ) → x < ip.size → addr_of ip fs (x / bsize) ≢ 0

-- `bmap` changes nothing where the block is there.
bmap_found :
    (bn : ℕ) (ip : Dinode) (fs : Fs)
    → bn < maxfile
    → addr_of ip fs bn ≢ 0
    → bmap bn ip fs ≡ ok (addr_of ip fs bn, ip, fs)
unfolding bmap ensure ensure_entry
bmap_found bn ip fs l nz = elim (Bool-cases (ltb bn ndirect)) [
  | inl d ↦
      let z : (ip.addrs bn == 0) ≡ false = let h = rw d at nz in ground arith in rw (d, z) refl
  | inr d ↦
      let near : ltb (bn - ndirect) nindirect ≡ true = ground arith in
      elim (Bool-cases (ip.addrs ndirect == 0)) [
        | inl z ↦ absurd (nz (rw (d, z) refl))
        | inr z ↦
            let h = rw (d, z) at nz in
            let y : (word (fs.blocks (ip.addrs ndirect)) (bn - ndirect) == 0) ≡ false =
              ground arith in
            rw (d, near, z, y) refl
      ]
]

-- The loop moves the file's bytes from `off` on to `dst` from index `tot` on.
read_loop_lem :
    (k tot off n : ℕ) (dst : ℕ → ℕ) (ip : Dinode) (fs : Fs)
    → n - tot ≤ k
    → off + (n - tot) ≤ maxfile * bsize
    → ((x : ℕ) → off ≤ x → x < off + (n - tot) → addr_of ip fs (x / bsize) ≢ 0)
    → (dst' : ℕ → ℕ) × (read_loop k tot off n dst ip fs ≡ ok (dst', ip, fs))
      × ((i : ℕ)
          → dst' i ≡ (if leb tot i && ltb i n then byte_at ip fs (off + (i - tot)) else dst i))
unfolding read_loop
read_loop_lem zero tot off n dst ip fs h fit full =
    (dst, refl, λ i. let t : (leb tot i && ltb i n) ≡ false = ground arith in rw t refl)
read_loop_lem (suc k) tot off n dst ip fs h fit full = elim (Bool-cases (ltb tot n)) [
  | inl t ↦
      let m = piece tot off n in
      let valid : off / bsize < maxfile = ground arith in
      let a = addr_of ip fs (off / bsize) in
      let found = bmap_found (off / bsize) ip fs valid (full off (omega arith) (ground arith)) in
      let dst1 = moved dst tot (fs.blocks a) (off % bsize) m in
      let (dst', p, c) =
        read_loop_lem k (tot + m) (off + m) n dst1 ip fs (ground arith) (omega arith)
          (λ x l g. full x (omega arith) (omega arith)) in
      let lt : tot < n = ground arith in
      (dst', rw (t, found) p, λ i. c i ∙ step m lt (omega arith) i)
  | inr t ↦
      (dst, rw t refl, λ i. let f : (leb tot i && ltb i n) ≡ false = ground arith in rw f refl)
]
  where
    step :
        (m : ℕ)
        → tot < n
        → m ≡ piece tot off n
        → (i : ℕ)
        → (if leb (tot + m) i && ltb i n
            then byte_at ip fs (off + m + (i - (tot + m)))
            else moved dst tot (fs.blocks (addr_of ip fs (off / bsize))) (off % bsize) m i)
          ≡ (if leb tot i && ltb i n then byte_at ip fs (off + (i - tot)) else dst i)
    step m lt e i = elim (Bool-cases (ltb i tot)) [
      | inl b ↦
          let f : (leb (tot + m) i && ltb i n) ≡ false = ground arith in
          let g : (leb tot i && ltb i (tot + m)) ≡ false = ground arith in
          let j : (leb tot i && ltb i n) ≡ false = ground arith in rw (f, g, j) refl
      | inr b ↦ elim (Bool-cases (ltb i (tot + m))) [
        | inl d ↦
            let f : (leb (tot + m) i && ltb i n) ≡ false = ground arith in
            let g : (leb tot i && ltb i (tot + m)) ≡ true = ground arith in
            let j : (leb tot i && ltb i n) ≡ true = ground arith in
            let q : (off + (i - tot)) / bsize ≡ off / bsize = ground arith in
            let r : (off + (i - tot)) % bsize ≡ off % bsize + (i - tot) = ground arith in
            rw (f, g, j) (ap₂ (λ (u w : ℕ). fs.blocks (addr_of ip fs u) w) (sym q) (sym r))
        | inr d ↦
            let f : (leb (tot + m) i && ltb i n) ≡ (leb tot i && ltb i n) = ground arith in
            let g : (leb tot i && ltb i (tot + m)) ≡ false = ground arith in
            let q : off + m + (i - (tot + m)) ≡ off + (i - tot) = ground arith in rw (f, g, q) refl
      ]
    ]

-- what `readi` of `n` bytes delivers, from a file of `size` bytes
abbrev pub available : (size off n : ℕ) → ℕ
available size off n = min n (size - off)

-- `readi` at an offset that is not past the end of a file whose blocks are all there changes nothing
-- but `dst`: it returns the number of bytes that were left, at most `n`, and leaves them in `dst`.
pub readi_lem :
    (driver : ℕ → Option ℤ) (off n : ℕ) (dst : ℕ → ℕ) (ip : Dinode) (fs : Fs)
    → IsFull ip fs
    → ip.type ≢ t_dev
    → ip.size ≤ maxfile * bsize
    → off ≤ ip.size
    → off + n < 2 ^ 32
    → (dst' : ℕ → ℕ) × (readi driver off n dst ip fs
        ≡ ok (pos (available ip.size off n), dst', ip, fs))
      × ((i : ℕ)
          → dst' i ≡ (if ltb i (available ip.size off n) then byte_at ip fs (off + i) else dst i))
unfolding readi
readi_lem driver off n dst ip fs full file size l wrap =
    let r = available ip.size off n in
    let (dst', p, c) =
      read_loop_lem r 0 off r dst ip fs (omega arith) (omega arith)
        (λ x g h. full x (omega arith)) in
    (dst', whole dst' p, λ i. c i ∙ at r i)
  where
    whole :
        (dst' : ℕ → ℕ)
        → read_loop (available ip.size off n) 0 off (available ip.size off n) dst ip fs
          ≡ ok (dst', ip, fs)
        → readi driver off n dst ip fs ≡ ok (pos (available ip.size off n), dst', ip, fs)
    whole dst' p =
        let no_device : (ip.type == t_dev) ≡ false = ground arith in
        let accepted : (ltb ip.size off || ltb (add32 off n) off) ≡ false = ground arith in
        let count : (if ltb ip.size (add32 off n) then ip.size - off else n)
            ≡ available ip.size off n =
          ground arith in
        rw (no_device, accepted, count, p) refl

    at :
        (r i : ℕ)
        → (if leb 0 i && ltb i r then byte_at ip fs (off + (i - 0)) else dst i)
          ≡ (if ltb i r then byte_at ip fs (off + i) else dst i)
    at r i =
        let z : (leb 0 i && ltb i r) ≡ ltb i r = ground arith in
        let s : i - 0 ≡ i = omega arith in rw (z, s) refl
