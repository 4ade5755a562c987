-- ===== src/Content/Writei.antt =====
-- writei: the contents of the file behind it, and what it refuses.
use fp_sisop20_f.Base.{
  ℕ, ◌+◌, ◌*◌, ◌^◌, ◌<◌, ◌≡◌, ◌≢◌, refl, arith, ◌⊎◌, true, false, ◌||◌, ◌==◌, ltb, ok, panic,
  Result, Option, ℤ, minus_one, add32,
}
use fp_sisop20_f.Inode.{Dinode}
use fp_sisop20_f.Content.{Fs, bsize, maxfile, writei, t_dev}
use fp_sisop20_f.Content.Write.{Wrote}

abbrev Writes : Dinode → Fs → ℕ → ℕ → (ℕ → ℕ) → ℕ → Result (Dinode × Fs) → Type 0
Writes ip fs off len src s r =
    (r ≡ panic)
    ⊎ ((ip' : Dinode) × (fs' : Fs) × (r ≡ ok (ip', fs'))
        × (ip'.size ≡ ip.size)
        × (ip'.type ≡ ip.type)
        × Wrote ip fs off len src s ip' fs')

-- Past the end of the file, or past the greatest size of one, `writei` returns -1 and changes nothing,
-- also where the sum of offset and length wraps around.
pub writei_refuses :
    (driver : ℕ → Option ℤ) (inum off n : ℕ) (src : ℕ → ℕ) (ip : Dinode) (fs : Fs)
    → ip.type ≢ t_dev
    → off < 2 ^ 32
    → n < 2 ^ 32
    → (ip.size < off) ⊎ (maxfile * bsize < off + n)
    → writei driver inum off n src ip fs ≡ ok (minus_one, ip, fs)
unfolding writei
writei_refuses driver inum off n src ip fs file lo ln h =
    let no_device : (ip.type == t_dev) ≡ false = ground arith in
    let refused : (ltb ip.size off || ltb (add32 off n) off || ltb (maxfile * bsize) (add32 off n))
        ≡ true =
      ground arith in
    rw (no_device, refused) refl
