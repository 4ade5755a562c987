-- ===== src/Ulib/Strings.antt =====
-- strchr and strcmp find what they look for, and gets keeps to its buffer.
use fp_sisop20_f.Base.{
  ℕ, zero, suc, ◌+◌, ◌-◌, ◌<◌, ◌≤◌, ◌≡◌, ◌≢◌, refl, ◌∙◌, ap, sym, arith, inl, inr, true, false,
  some, List, [], ◌∷◌, ◌++◌, Bool-cases, not, ◌&&◌, ◌||◌, ◌==◌, length, sub_ℕ, pos,
}
use fp_sisop20_f.Memory.{Mem}
use fp_sisop20_f.Ulib.{strchr, strcmp, gets, gets_loop}

-- `strchr` of a character that is not NUL finds its first place, `k` characters on, if no NUL stands
-- before it and the rounds are more than `k`.
pub strchr_lem :
    (m : Mem) (s c k fuel : ℕ)
    → c ≢ 0
    → ((i : ℕ) → i < k → m (s + i) ≢ 0)
    → ((i : ℕ) → i < k → m (s + i) ≢ c)
    → m (s + k) ≡ c
    → k < fuel
    → strchr fuel m s c ≡ some (s + k)
unfolding strchr
strchr_lem m s c k zero nz u v e l = absurd (omega arith)
strchr_lem m s c zero (suc fuel) nz u v e l =
    let a : m s ≡ c = ap m (omega arith) ∙ e in let b : s + 0 ≡ s = omega arith in ground arith
strchr_lem m s c (suc k) (suc fuel) nz u v e l =
    let at : s + 0 ≡ s = omega arith in
    let a : m s ≢ 0 = λ z. u 0 (omega arith) (ap m at ∙ z) in
    let b : m s ≢ c = λ z. v 0 (omega arith) (ap m at ∙ z) in
    let (p, q) : ((m s == 0) ≡ false) × ((m s == c) ≡ false) = (ground arith, ground arith) in
    rw (p, q)
      (strchr_lem m (s + 1) c k fuel nz (λ i h z. u (suc i) (omega arith) (ap m (omega arith) ∙ z))
          (λ i h z. v (suc i) (omega arith) (ap m (omega arith) ∙ z)) (ap m (omega arith) ∙ e)
          (omega arith)
        ∙ ap some (omega arith))

-- `strcmp` of strings that agree for `k` characters, none of them NUL, and then differ or end returns
-- the difference there, if the rounds are more than `k`.
pub strcmp_lem :
    (m : Mem) (p q k fuel : ℕ)
    → ((i : ℕ) → i < k → m (p + i) ≢ 0)
    → ((i : ℕ) → i < k → m (p + i) ≡ m (q + i))
    → (not (m (p + k) == 0) && (m (p + k) == m (q + k))) ≡ false
    → k < fuel
    → strcmp fuel m p q ≡ some (sub_ℕ (m (p + k)) (m (q + k)))
unfolding strcmp
strcmp_lem m p q k zero u v e l = absurd (omega arith)
strcmp_lem m p q zero (suc fuel) u v e l =
    let a : p + 0 ≡ p = omega arith in
    let b : q + 0 ≡ q = omega arith in let c = rw (a, b) at e in rw (a, b, c) refl
strcmp_lem m p q (suc k) (suc fuel) u v e l =
    let a : p + 0 ≡ p = omega arith in
    let b : q + 0 ≡ q = omega arith in
    let nz : m p ≢ 0 = λ z. u 0 (omega arith) (ap m a ∙ z) in
    let same : m p ≡ m q = sym (ap m a) ∙ v 0 (omega arith) ∙ ap m b in
    let c : (not (m p == 0) && (m p == m q)) ≡ true = ground arith in
    let x : p + suc k ≡ p + 1 + k = omega arith in
    let y : q + suc k ≡ q + 1 + k = omega arith in
    let e' = rw (x, y) at e in
    rw (c, x, y)
      (strcmp_lem m (p + 1) (q + 1) k fuel
        (λ i h z. u (suc i) (omega arith) (ap m (omega arith) ∙ z))
        (λ i h. ap m (omega arith) ∙ v (suc i) (omega arith) ∙ ap m (omega arith)) e' (omega arith))

-- `gets` into a buffer of `max` bytes stores a beginning of the input, which with its NUL fits into the
-- buffer, and reads no more than that.
pub gets_lem :
    (max : ℕ) (input : List ℕ)
    → 0 < max
    → ((gets (pos max) input).0 ++ (gets (pos max) input).1 ≡ input)
      × (length (gets (pos max) input).0 + 1 ≤ max)
unfolding gets gets_loop
gets_lem max input h = let (p, q) = loop (max - 1) input in (p, omega arith)
  where
    loop :
        (k : ℕ) (input : List ℕ)
        → ((gets_loop k input).0 ++ (gets_loop k input).1 ≡ input)
          × (length (gets_loop k input).0 ≤ k)
    loop zero input = (refl, omega arith)
    loop (suc k) [] = (refl, omega arith)
    loop (suc k) (c ∷ cs) = elim (Bool-cases ((c == 10) || (c == 13))) [
      | inl e ↦ rw e (refl, omega arith)
      | inr e ↦ let (p, q) = loop k cs in rw e (ap (λ t. c ∷ t) p, omega arith)
    ]
