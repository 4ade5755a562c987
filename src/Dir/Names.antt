-- ===== src/Dir/Names.antt =====
-- namecmp, and the entries that dirlookup takes for those of a name.
use fp_sisop20_f.Base.{
  ℕ, zero, suc, ◌+◌, ◌*◌, ◌<◌, ◌≤◌, ◌≡◌, ◌≢◌, refl, sym, arith, inl, inr, true, false, not, ◌&&◌,
  Bool-cases, ◌==◌, leb, ℤ, sub_ℕ, subst, Option,
}
use fp_sisop20_f.Dir.{Name, compare_from, is_zero, namecmp, entry_name, matches}

-- The names are the same from character `i` on, among `n` characters, up to the first NUL of `s`.
abbrev SameFrom : (n : ℕ) → (s t : Name) → (i : ℕ) → Type 0
SameFrom n s t i = (k : ℕ) → i ≤ k → k < i + n → ((j : ℕ) → i ≤ j → j < k → s j ≢ 0) → s k ≡ t k

-- The names are the same up to the first NUL, or in all their 14 characters.
abbrev pub IsSame : (s t : Name) → Type 0
IsSame s t = (k : ℕ) → k < 14 → ((j : ℕ) → j < k → s j ≢ 0) → s k ≡ t k

zero_difference : (a b : ℕ) → is_zero (sub_ℕ a b) ≡ true → a ≡ b
zero_difference a b e = elim (Bool-cases (leb b a)) [
  | inl l ↦ let h = rw l at e in ground (arith, h)
  | inr l ↦ absurd (let h = rw l at e in cc)
]

no_difference : (a : ℕ) → is_zero (sub_ℕ a a) ≡ true
no_difference a = let l : leb a a ≡ true = ground arith in rw l (ground arith)

compare_from-SameFrom :
    (n : ℕ) (s t : Name) (i : ℕ) → is_zero (compare_from n s t i) ≡ true → SameFrom n s t i
unfolding compare_from
compare_from-SameFrom zero s t i e k l h z = absurd (omega arith)
compare_from-SameFrom (suc n) s t i e k l h z = elim (Bool-cases (not (s i == 0) && (s i == t i))) [
  | inl c ↦
      let rest = compare_from-SameFrom n s t (i + 1) (rw c at e) in
      elim (Bool-cases (k == i)) [
        | inl q ↦ let p : i ≡ k = ground arith in subst (λ k. s k ≡ t k) p (ground arith)
        | inr q ↦ rest k (ground arith) (omega arith) (λ j a b. z j (omega arith) b)
      ]
  | inr c ↦
      let d = zero_difference (s i) (t i) (rw c at e) in
      elim (Bool-cases (k == i)) [
        | inl q ↦ let p : i ≡ k = ground arith in subst (λ k. s k ≡ t k) p d
        | inr q ↦ let y = z i (omega arith) (ground arith) in absurd (ground (arith, d, y))
      ]
]

SameFrom-compare_from :
    (n : ℕ) (s t : Name) (i : ℕ) → SameFrom n s t i → is_zero (compare_from n s t i) ≡ true
unfolding compare_from
SameFrom-compare_from zero s t i h = refl
SameFrom-compare_from (suc n) s t i h =
    let e : s i ≡ t i = h i (omega arith) (omega arith) (λ j a b. absurd (omega arith)) in
    elim (Bool-cases (not (s i == 0) && (s i == t i))) [
      | inl c ↦ rw c (
          SameFrom-compare_from n s t (i + 1)
            (λ k l m z. h k (omega arith) (omega arith) (λ j a b. in_front j a b c z)))
      | inr c ↦ rw (c, sym e) (no_difference (s i))
    ]
  where
    in_front :
        {k : ℕ} (j : ℕ)
        → i ≤ j
        → j < k
        → (not (s i == 0) && (s i == t i)) ≡ true
        → ((j : ℕ) → i + 1 ≤ j → j < k → s j ≢ 0)
        → s j ≢ 0
    in_front j a b c z = elim (Bool-cases (j == i)) [
      | inl q ↦ let p : i ≡ j = ground arith in subst (λ j. s j ≢ 0) p (ground arith)
      | inr q ↦ z j (ground arith) b
    ]

-- The 16 bytes are an entry in use, with the name.
abbrev pub IsEntry : Name → (ℕ → ℕ) → Type 0
IsEntry name de = (de 0 + 256 * de 1 ≢ 0) × IsSame name (λ i. de (2 + i))

module _ (driver : ℕ → Option ℤ) (name : Name) (de : ℕ → ℕ) where
  pub matches-IsEntry : matches driver name de ≡ true → IsEntry name de
  unfolding namecmp
  matches-IsEntry e = (
    ground (arith, e),
    λ k l z.
        compare_from-SameFrom 14 name (entry_name de) 0 (ground (arith, e)) k (omega arith)
          (omega arith) (λ j a b. z j b),
  )

  pub matches-not : matches driver name de ≡ false → ¬ IsEntry name de
  unfolding namecmp
  matches-not e (u, h) =
      let c =
        SameFrom-compare_from 14 name (entry_name de) 0
          (λ k a l z. h k (omega arith) (λ j b. z j (omega arith) b)) in
      ground (arith, e, u, c)
