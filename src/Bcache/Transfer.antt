-- ===== src/Bcache/Transfer.antt =====
-- What iderw moves between a buffer and the disk.
use fp_sisop20_f.Base.{
  ℕ, ◌+◌, ◌-◌, ◌*◌, ◌%◌, ◌<◌, ◌≤◌, ◌≡◌, ◌≢◌, refl, ◌∙◌, arith, inl, inr, true, false, ◌&&◌,
  Bool-cases, ◌==◌, leb, ltb, if◌then◌else◌, copy_words, copy_words_lem, word, ok,
}
use fp_sisop20_f.Bcache.{Buf, Disk, sector_size, offset_of, iderw}

abbrev pub read_buf : Buf → Disk → Buf
read_buf b m = record b {
  bytes = copy_words b.bytes 0 m.memory (offset_of b) sector_size;
  valid = true;
}

pub iderw-reads :
    (b : Buf) (m : Disk)
    → b.busy ≡ true
    → b.valid ≡ false
    → b.dirty ≡ false
    → b.dev ≡ 1
    → b.sector < m.disksize
    → iderw b m ≡ ok (read_buf b m, m)
unfolding iderw
iderw-reads b m p q r e l =
    let h : leb m.disksize b.sector ≡ false = ground arith in
    let g : (b.dev == 1) ≡ true = ground arith in rw (p, q, r, g, h) refl

abbrev pub written : Buf → Disk → Disk
written b m = record m { memory = copy_words m.memory (offset_of b) b.bytes 0 sector_size }

pub iderw-writes :
    (b : Buf) (m : Disk)
    → b.busy ≡ true
    → b.dirty ≡ true
    → b.dev ≡ 1
    → b.sector < m.disksize
    → iderw b m ≡ ok (record b { dirty = false; valid = true }, written b m)
unfolding iderw
iderw-writes b m p r e l =
    let h : leb m.disksize b.sector ≡ false = ground arith in
    let g : (b.dev == 1) ≡ true = ground arith in
    elim (Bool-cases b.valid) [ inl q ↦ rw (p, q, r, g, h) refl | inr q ↦ rw (p, q, r, g, h) refl ]

pub read_buf_lem :
    (b : Buf) (m : Disk) (k : ℕ)
    → b.sector < m.disksize
    → m.disksize * sector_size ≤ word
    → k < sector_size
    → (read_buf b m).bytes k ≡ m.memory (b.sector * sector_size + k)
read_buf_lem b m k l w h =
    let e : (b.sector * sector_size) % word ≡ b.sector * sector_size = omega arith in
    let t : (leb 0 k && ltb k (0 + sector_size)) ≡ true = ground arith in
    let z : k - 0 ≡ k = omega arith in
    copy_words_lem b.bytes 0 m.memory (offset_of b) sector_size k ∙ rw (t, e, z) refl

pub written_lem :
    (b : Buf) (m : Disk) (s k : ℕ)
    → b.sector < m.disksize
    → m.disksize * sector_size ≤ word
    → k < sector_size
    → (written b m).memory (s * sector_size + k)
      ≡ (if s == b.sector then b.bytes k else m.memory (s * sector_size + k))
written_lem b m s k l w h =
    let e : (b.sector * sector_size) % word ≡ b.sector * sector_size = omega arith in
    copy_words_lem m.memory (offset_of b) b.bytes 0 sector_size (s * sector_size + k)
    ∙ elim (Bool-cases (s == b.sector)) [
      | inl q ↦
          let t : s ≡ b.sector = ground arith in
          let x : (leb (b.sector * sector_size) (s * sector_size + k)
                && ltb (s * sector_size + k) (b.sector * sector_size + sector_size))
              ≡ true =
            ground arith in
          let y : 0 + (s * sector_size + k - b.sector * sector_size) ≡ k = omega arith in
          rw (e, q, x, y) refl
      | inr q ↦
          let t : s ≢ b.sector = ground arith in
          let x : (leb (b.sector * sector_size) (s * sector_size + k)
                && ltb (s * sector_size + k) (b.sector * sector_size + sector_size))
              ≡ false =
            ground arith in
          rw (e, q, x) refl
    ]
