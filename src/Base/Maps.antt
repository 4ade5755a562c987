-- ===== src/Base/Maps.antt =====
-- Functions from numbers that are updated at one place: memory, arrays, disks.
use Prim.Native.Nat.{ℕ, zero, suc, ◌+◌, ◌-◌}
use mathlib.Core.Path.{◌≡◌, fun_ext, sym, subst, ◌∙◌}
use mathlib.Core.Logic.{◌≢◌, inl, inr}
use mathlib.Core.Bool.{◌&&◌}
use native.Mathlib.Omega.{arith}
use fp_sisop20_f.Base.Tests.{◌==◌, Bool-cases, leb, ltb, if◌then◌else◌}

module _ {A : Type 0} where
  unfoldable pub update : (ℕ → A) → ℕ → A → ℕ → A
  update f p v a = if a == p then v else f a

  pub update_self : (f : ℕ → A) (p : ℕ) (v : A) → update f p v p ≡ v
  unfolding update
  update_self f p v = ground arith

  pub update_ne : (f : ℕ → A) (p : ℕ) (v : A) (a : ℕ) → a ≢ p → update f p v a ≡ f a
  unfolding update
  update_ne f p v a h = ground arith

  pub update_again : (f : ℕ → A) (p : ℕ) (v w : A) → update (update f p v) p w ≡ update f p w
  update_again f p v w = fun_ext (λ a. unfold update in ground arith)

  -- what holds of the new value and of the others holds everywhere
  pub update-all {κ} :
      (P : ℕ → A → Type κ) (f : ℕ → A) (p : ℕ) (v : A)
      → P p v
      → ((a : ℕ) → a ≢ p → P a (f a))
      → (a : ℕ) → P a (update f p v a)
  update-all P f p v new old a = elim (Bool-cases (a == p)) [
    | inl e ↦
        let q : a ≡ p = ground arith in
        subst (λ x. P x (update f p v x)) (sym q) (subst (P p) (sym (update_self f p v)) new)
    | inr e ↦ let q : a ≢ p = ground arith in subst (P a) (sym (update_ne f p v a q)) (old a q)
  ]

  -- `for(i = 0; i < n; i++) dst[d+i] = src[s+i];`
  unfoldable pub copy_words : (ℕ → A) → ℕ → (ℕ → A) → ℕ → ℕ → ℕ → A
  copy_words dst d src s zero = dst
  copy_words dst d src s (suc n) = copy_words (update dst d (src s)) (d + 1) src (s + 1) n

  pub copy_words_lem :
      (dst : ℕ → A) (d : ℕ) (src : ℕ → A) (s n a : ℕ)
      → copy_words dst d src s n a ≡ (if leb d a && ltb a (d + n) then src (s + (a - d)) else dst a)
  unfolding copy_words
  copy_words_lem dst d src s zero a = ground arith
  copy_words_lem dst d src s (suc n) a =
      copy_words_lem (update dst d (src s)) (d + 1) src (s + 1) n a
      ∙ (unfold update in ground arith)
