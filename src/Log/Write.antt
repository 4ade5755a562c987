-- ===== src/Log/Write.antt =====
-- Whole transactions: begin_trans, the writes of the caller with log_write, and commit_trans.
use fp_sisop20_f.Base.{
  ℕ, zero, suc, ◌+◌, ◌<◌, ◌≤◌, ◌≡◌, ◌≢◌, ◌∙◌, sym, subst, inl, inr, List, [], ◌∷◌, arith, ltb, ◌==◌,
  if◌then◌else◌, Bool-cases, update, update_self, update_ne, Result, ok, ◌>>=◌,
}
use fp_sisop20_f.Log.{
  Block, Disk, Log, log_size, bwrite, modify, commit_trans, find_slot, log_slot, log_write,
}
use fp_sisop20_f.Log.Commit.{IsOpen}

-- what the search for a slot finds
abbrev pub Found : (ℕ → ℕ) → ℕ → ℕ → ℕ → ℕ → Type 0
Found sector b i n r =
    (i ≤ r) × (r ≤ n) × ((j : ℕ) → i ≤ j → j < r → sector j ≢ b) × ((r < n) → sector r ≡ b)

pub find_slot-Found :
    (sector : ℕ → ℕ) (b i k n : ℕ) → i + k ≡ n → Found sector b i n (find_slot sector b i k)
unfolding find_slot
find_slot-Found sector b i zero n e =
    (omega arith, omega arith, λ j l m. absurd (omega arith), λ l. absurd (omega arith))
find_slot-Found sector b i (suc k) n e = elim (Bool-cases (sector i == b)) [
  | inl t ↦ rw t (omega arith, omega arith, λ j l m. absurd (omega arith), λ l. ground arith)
  | inr t ↦
      let (l, h, before, at_end) = find_slot-Found sector b (i + 1) k n (omega arith) in
      rw t (
        omega arith,
        h,
        λ j lo hi. elim (Bool-cases (j == i)) [
          | inl q ↦ (let q' : j ≡ i = ground arith in rw q' (λ z. ground arith))
          | inr q ↦ before j (ground arith) hi
        ],
        at_end,
      )
]

-- One modification of block `b` to `c` and its `log_write`, with the slot found.
unfoldable pub logged : ℕ → Block → ℕ → Log → Log
logged b c i l = log_slot b i (modify b c l)

-- The same, computed.
abbrev pub slotted : ℕ → Block → ℕ → Log → Log
slotted b c i l =
    let d = update l.disk (l.start + i + 1) c in
    record l {
      n = if i == l.n then l.n + 1 else l.n;
      sector = update l.sector i b;
      cache = update (update l.cache b c) (l.start + i + 1) c;
      disk = d;
      history = d ∷ l.history;
    }

pub logged_lem : (b : ℕ) (c : Block) (i : ℕ) (l : Log) → logged b c i l ≡ slotted b c i l
unfolding logged log_slot bwrite modify
logged_lem b c i l =
    rw (update_self l.cache b c, update_self (update l.cache b c) (l.start + i + 1) c)

module _ (b : ℕ) (c : Block) (i : ℕ) (l : Log) (o : IsOpen l) (f : Found l.sector b 0 l.n i) where
  -- The other slots are for other blocks.
  others : (k : ℕ) → k < l.n → k ≢ i → l.sector k ≢ b
  others k lt ne e = elim (Bool-cases (ltb k i)) [
    | inl h ↦ f.2 k (omega arith) (ground arith) e
    | inr h ↦ let il : i < l.n = ground arith in ne (o.distinct k i lt il (e ∙ sym (f.3 il)))
  ]

  slot_old : (j : ℕ) → j < (slotted b c i l).n → j ≢ i → j < l.n
  slot_old j lj ne = ground arith

  slotted_distinct :
      (j k : ℕ)
      → j < (slotted b c i l).n
      → k < (slotted b c i l).n
      → update l.sector i b j ≡ update l.sector i b k
      → j ≡ k
  unfolding update
  slotted_distinct j k lj lk e =
      ground (arith, slot_old j lj, slot_old k lk, others j, others k, o.distinct j k)

  slotted_logged :
      b < l.start
      → (j : ℕ) → j < (slotted b c i l).n
      → update l.disk (l.start + i + 1) c (l.start + j + 1)
        ≡ update (update l.cache b c) (l.start + i + 1) c (update l.sector i b j)
  unfolding update
  slotted_logged lt j lj = ground (arith, slot_old j lj, others j, o.logged j, o.home j)

  slotted_cached :
      b < l.start
      → (j : ℕ) → j < (slotted b c i l).n
      → update (update l.cache b c) (l.start + i + 1) c (l.start + j + 1)
        ≡ update (update l.cache b c) (l.start + i + 1) c (update l.sector i b j)
  unfolding update
  slotted_cached lt j lj = ground (arith, slot_old j lj, others j, o.cached j, o.home j)

  slotted_coherent :
      (a : ℕ)
      → a < l.start
      → ((j : ℕ) → 0 ≤ j → j < (slotted b c i l).n → update l.sector i b j ≢ a)
      → update (update l.cache b c) (l.start + i + 1) c a ≡ update l.disk (l.start + i + 1) c a
  slotted_coherent a la u =
      let il : i < (slotted b c i l).n = ground arith in
      let ne : b ≢ a = λ e. u i (omega arith) il (update_self l.sector i b ∙ e) in
      let same = o.coherent a la (λ j z lj e. elim (Bool-cases (j == i)) [
        | inl q ↦
            (let q' : j ≡ i = ground arith in
              ne (sym (f.3 (subst (λ t. t < l.n) q' lj)) ∙ subst (λ t. l.sector t ≡ a) q' e))
        | inr q ↦ u j (omega arith) (ground arith) (update_ne l.sector i b j (ground arith) ∙ e)
      ]) in
      update_ne (update l.cache b c) (l.start + i + 1) c a (omega arith)
      ∙ update_ne l.cache b c a (λ e. ne (sym e))
      ∙ same
      ∙ sym (update_ne l.disk (l.start + i + 1) c a (omega arith))

  pub slotted-IsOpen : b < l.start → l.n < log_size → IsOpen (slotted b c i l)
  slotted-IsOpen lt room = record {
    few = ground arith;
    home = λ j lj. elim (Bool-cases (j == i)) [
      | inl q ↦ let q' : j ≡ i = ground arith in rw (q', update_self l.sector i b) lt
      | inr q ↦ rw (update_ne l.sector i b j (ground arith)) (o.home j (ground arith))
    ];
    distinct = slotted_distinct;
    logged = slotted_logged lt;
    cached = slotted_cached lt;
    coherent = slotted_coherent;
    clear = rw (update_ne l.disk (l.start + i + 1) c l.start (omega arith)) o.clear;
  }

-- The caller's writes, each a block with its new contents.
abbrev pub Writes : Type 0
Writes = List (ℕ × Block)

-- `bp = bread(b); modify bp->data; log_write(bp); brelse(bp);` for each of them
unfoldable pub write_all : Writes → Log → Result Log
write_all [] l = ok l
write_all ((b, c) ∷ ws) l = do l' ← log_write b (modify b c l); write_all ws l'

unfoldable pub transaction : Writes → Log → Result Log
transaction ws l = do l' ← write_all ws l; ok (commit_trans l')

-- the disk that a list of writes asks for
abbrev pub written : Writes → Disk → Disk
written [] d = d
written ((b, c) ∷ ws) d = written ws (update d b c)

abbrev pub AreHome : ℕ → Writes → Type 0
AreHome start [] = Unit
AreHome start ((b, _) ∷ ws) = (b < start) × AreHome start ws
