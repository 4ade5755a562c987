-- ===== src/Ide/Queue.antt =====
-- The pointers of the queue as a list.
use fp_sisop20_f.Base.{
  ℕ, zero, suc, ◌≤◌, ◌≡◌, ◌≢◌, refl, ◌∙◌, ap, sym, subst, arith, Bool, true, false, ◌||◌,
  Bool-cases, inl, inr, ◌⊎◌, Option, none, some, List, [], ◌∷◌, ◌++◌, ◌==◌, length, update,
  update_self, update_ne,
}
use fp_sisop20_f.Ide.{end_loop}

-- The pointer `o` is followed by the nodes `l`, and then by 0.
abbrev pub Linked : (qnext : ℕ → Option ℕ) → Option ℕ → List ℕ → Type 0
Linked f o [] = o ≡ none
Linked f o (i ∷ l) = (o ≡ some i) × Linked f (f i) l

abbrev pub member : ℕ → List ℕ → Bool
member j [] = false
member j (i ∷ l) = (j == i) || member j l

-- no buffer twice
abbrev pub Apart : List ℕ → Type 0
Apart [] = Unit
Apart (i ∷ l) = (member i l ≡ false) × Apart l

pub update-Linked :
    (f : ℕ → Option ℕ) (j : ℕ) (v o : Option ℕ) (l : List ℕ)
    → member j l ≡ false
    → Linked f o l
    → Linked (update f j v) o l
update-Linked f j v o [] m e = e
update-Linked f j v o (i ∷ l) m (e, h) = (
  e,
  subst (λ p. Linked (update f j v) p l) (sym (update_ne f j v i (ground arith)))
      (update-Linked f j v (f i) l (ground arith) h),
)

pub member-snoc : (j : ℕ) (l : List ℕ) (b : ℕ) → member j (l ++ b ∷ []) ≡ (member j l || (j == b))
member-snoc j [] b = elim (Bool-cases (j == b)) [ inl e ↦ rw e refl | inr e ↦ rw e refl ]
member-snoc j (i ∷ l) b = elim (Bool-cases (j == i)) [
  | inl e ↦ rw e refl
  | inr e ↦ rw e (member-snoc j l b)
]

pub Apart-snoc : (l : List ℕ) (b : ℕ) → Apart l → member b l ≡ false → Apart (l ++ b ∷ [])
Apart-snoc [] b a m = (refl, tt)
Apart-snoc (i ∷ l) b (n, a) m =
    (member-snoc i l b ∙ rw n (ground arith), Apart-snoc l b a (ground arith))

-- where the loop ends, and what the pointer that it finds makes of the rest of the list
abbrev Ends : (f : ℕ → Option ℕ) → (i b : ℕ) → List ℕ → Option ℕ → Type 0
Ends f i b l o =
    (e : ℕ) × (o ≡ some e)
    × (member e (i ∷ l) ≡ true)
    × Linked (update f e (some b)) (update f e (some b) i) (l ++ b ∷ [])

end_loop-Ends :
    (n : ℕ) (f : ℕ → Option ℕ) (q : Option ℕ) (i b : ℕ) (l : List ℕ)
    → Linked f (f i) l
    → Apart (i ∷ l)
    → member b (i ∷ l) ≡ false
    → f b ≡ none
    → length l ≤ n
    → Ends f i b l (end_loop n f q (some i))
unfolding end_loop
end_loop-Ends n f q i b [] e a m z h =
    subst (Ends f i b []) (sym (stops n)) (
      i,
      refl,
      ground arith,
      (update_self f i (some b), update_ne f i (some b) b (ground arith) ∙ z),
    )
  where
    stops : (n : ℕ) → end_loop n f q (some i) ≡ some i
    stops zero = refl
    stops (suc n) = rw (e, end_loop) refl
end_loop-Ends zero f q i b (j ∷ l) e a m z h = absurd (omega (arith, h))
end_loop-Ends (suc n) f q i b (j ∷ l) (e, k) (u, a) m z h =
    let (d, x, y, w) = end_loop-Ends n f q j b l k a (ground arith) z (omega (arith, h)) in
    let next =
      ap
        (λ (o : Option ℕ). elim o as (λ _. Option ℕ) [
          | none ↦ some i
          | some j ↦ end_loop n f q (some j)
        ])
        e in
    let apart : i ≢ d =
      λ p. let c = subst (λ t. member t (j ∷ l) ≡ true) (sym p) y in absurd (cc) in
    (d, next ∙ x, ground (arith, y), (update_ne f d (some b) i apart ∙ e, w))

-- A buffer that is not in the queue is put to its end, when the loop has a round for each that is.
pub append-Linked :
    (n : ℕ) (f : ℕ → Option ℕ) (q : Option ℕ) (b : ℕ) (l : List ℕ)
    → Linked f q l
    → Apart l
    → member b l ≡ false
    → f b ≡ none
    → length l ≤ n
    → (((l ≡ []) × (end_loop n f q none ≡ none))
        ⊎ ((e : ℕ) × (end_loop n f q none ≡ some e) × Linked (update f e (some b)) q (l ++ b ∷ [])))
unfolding end_loop
append-Linked zero f q b [] e a m z h = inl (refl, refl)
append-Linked (suc n) f q b [] e a m z h = inl (refl, rw e refl)
append-Linked zero f q b (i ∷ l) e a m z h = absurd (omega (arith, h))
append-Linked (suc n) f q b (i ∷ l) (e, k) a m z h =
    let (d, x, y, w) = end_loop-Ends n f q i b l k a m z (omega (arith, h)) in
    let first =
      ap
        (λ (o : Option ℕ). elim o as (λ _. Option ℕ) [
          | none ↦ none
          | some i ↦ end_loop n f q (some i)
        ])
        e in
    inr (d, first ∙ x, (e, w))
