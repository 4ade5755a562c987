-- ===== src/Proc/Orphans.antt =====
-- The loop of exit that passes the children of the exiting process to init: every child changes
-- its parent, and a zombie among them wakes init.
use mathlib.Core.Option
use fp_sisop20_f.Base.{
  ℕ, zero, suc, ◌+◌, ◌<◌, ◌≡◌, refl, ◌∙◌, ap, sym, inl, inr, Bool, true, false, ◌&&◌, ◌||◌, Option,
  none, some, List, arith, ltb, leb, ◌==◌, if◌then◌else◌, Bool-cases, get_elem?, length,
}
use fp_sisop20_f.Proc.{Proc, modify, of_proc, wake, wakeup1, adopted, orphan_at, pass_children}
use fp_sisop20_f.Proc.Lookup.{
  get-modify, get-map, length-map, length-modify, opt_ext, opt_comp, opt_id, opt_if,
}

-- whether one of the `k` slots from `i` on holds a zombie child
unfoldable pub orphans : ℕ → List Proc → ℕ → ℕ → Bool
orphans cur ps i zero = false
orphans cur ps i (suc k) = orphan_at cur (get_elem? ps i) || orphans cur ps (i + 1) k

abbrev pub wake_if : Bool → ℕ → Proc → Proc
wake_if b init p = if b then wake (of_proc init) p else p

-- what the loop over the `k` slots from `i` on makes of slot `j`
abbrev pub passed : (cur init : ℕ) → Bool → (i k j : ℕ) → Proc → Proc
passed cur init woken i k j p =
    wake_if woken init (if leb i j && ltb j (i + k) then adopted cur init p else p)

module _ (cur init : ℕ) where
  -- the table after one round
  abbrev round : ℕ → List Proc → List Proc
  round i ps =
      if orphan_at cur (get_elem? ps i)
      then wakeup1 (of_proc init) (modify i (adopted cur init) ps)
      else modify i (adopted cur init) ps

  at_slot :
      (i j : ℕ) (p : Proc)
      → (if j == i then adopted cur init p else p)
        ≡ (if leb i j && ltb j (i + 1) then adopted cur init p else p)
  at_slot i j p = elim (Bool-cases (j == i)) [
    | inl e ↦ let e' : (leb i j && ltb j (i + 1)) ≡ true = ground arith in rw (e, e')
    | inr e ↦ let e' : (leb i j && ltb j (i + 1)) ≡ false = ground arith in rw (e, e')
  ]

  get-round :
      (i : ℕ) (ps : List Proc) (j : ℕ)
      → get_elem? (round i ps) j
        ≡ Option.map (passed cur init (orphan_at cur (get_elem? ps i)) i 1 j) (get_elem? ps j)
  unfolding wakeup1
  get-round i ps j = elim (Bool-cases (orphan_at cur (get_elem? ps i))) [
    | inl e ↦ rw e (
        get-map (wake (of_proc init)) (modify i (adopted cur init) ps) j
        ∙ ap (Option.map (wake (of_proc init))) (
            get-modify i (adopted cur init) ps j
            ∙ opt_if (j == i) (adopted cur init) (get_elem? ps j))
        ∙ opt_comp _ _ _ (λ p. ap (wake (of_proc init)) (at_slot i j p)) (get_elem? ps j))
    | inr e ↦ rw e (
        get-modify i (adopted cur init) ps j
        ∙ opt_if (j == i) (adopted cur init) (get_elem? ps j)
        ∙ opt_ext _ _ (at_slot i j) (get_elem? ps j))
  ]

  orphan_at-wake :
      (o : Option Proc) → orphan_at cur (Option.map (wake (of_proc init)) o) ≡ orphan_at cur o
  orphan_at-wake none = refl
  orphan_at-wake (some p) = ground arith

  orphan_at-round :
      (i : ℕ) (ps : List Proc) (j : ℕ)
      → i < j
      → orphan_at cur (get_elem? (round i ps) j) ≡ orphan_at cur (get_elem? ps j)
  orphan_at-round i ps j lt =
      rw (get-round i ps j) (other_slot (orphan_at cur (get_elem? ps i)) (get_elem? ps j))
    where
      other_slot :
          (b : Bool) (o : Option Proc)
          → orphan_at cur (Option.map (passed cur init b i 1 j) o) ≡ orphan_at cur o
      other_slot b none = refl
      other_slot b (some p) =
          let e : (leb i j && ltb j (i + 1)) ≡ false = ground arith in rw e (ground arith)

  orphans-round :
      (i : ℕ) (ps : List Proc) (j k : ℕ) → i < j → orphans cur (round i ps) j k ≡ orphans cur ps j k
  unfolding orphans
  orphans-round i ps j zero lt = refl
  orphans-round i ps j (suc k) lt =
      rw (orphan_at-round i ps j lt, orphans-round i ps (j + 1) k (omega arith))

  commutes :
      (p : Proc)
      → adopted cur init (wake (of_proc init) p) ≡ wake (of_proc init) (adopted cur init p)
  commutes p = ground arith

  wake_twice : (p : Proc) → wake (of_proc init) (wake (of_proc init) p) ≡ wake (of_proc init) p
  wake_twice p = ground arith

  wakes : (b c : Bool) (p : Proc) → wake_if b init (wake_if c init p) ≡ wake_if (c || b) init p
  wakes true true p = wake_twice p
  wakes true false p = refl
  wakes false true p = refl
  wakes false false p = refl

  adopt_wake :
      (c : Bool) (p : Proc)
      → adopted cur init (wake_if c init p) ≡ wake_if c init (adopted cur init p)
  adopt_wake true p = commutes p
  adopt_wake false p = refl

  -- two parts of the loop
  both :
      (b c : Bool) (i k j : ℕ) (p : Proc)
      → passed cur init c (i + 1) k j (passed cur init b i 1 j p)
        ≡ passed cur init (b || c) i (suc k) j p
  both b c i k j p = elim (Bool-cases (j == i)) [
    | inl e ↦
        let now : (leb i j && ltb j (i + 1)) ≡ true = ground arith in
        let later : (leb (i + 1) j && ltb j (i + 1 + k)) ≡ false = ground arith in
        let any : (leb i j && ltb j (i + suc k)) ≡ true = ground arith in
        rw (now, later, any) (wakes c b (adopted cur init p))
    | inr e ↦
        let now : (leb i j && ltb j (i + 1)) ≡ false = ground arith in
        let any : (leb i j && ltb j (i + suc k)) ≡ (leb (i + 1) j && ltb j (i + 1 + k)) =
          ground arith in
        rw (now, any)
          (elim (Bool-cases (leb (i + 1) j && ltb j (i + 1 + k))) [
            | inl l ↦ rw (l, adopt_wake b p) (wakes c b (adopted cur init p))
            | inr l ↦ rw l (wakes c b p)
          ])
  ]

  -- The loop as a map over the table.
  pub get-pass_children :
      (i k : ℕ) (ps : List Proc) (j : ℕ)
      → get_elem? (pass_children cur init i k ps) j
        ≡ Option.map (passed cur init (orphans cur ps i k) i k j) (get_elem? ps j)
  unfolding pass_children orphans
  get-pass_children i zero ps j =
      let e : (leb i j && ltb j (i + 0)) ≡ false = ground arith in
      sym (opt_id (passed cur init false i 0 j) (λ p. rw e refl) (get_elem? ps j))
  get-pass_children i (suc k) ps j =
      get-pass_children (i + 1) k (round i ps) j
      ∙ rw (orphans-round i ps (i + 1) k (omega arith), get-round i ps j)
          (opt_comp _ _ _
            (λ p. both (orphan_at cur (get_elem? ps i)) (orphans cur ps (i + 1) k) i k j p)
            (get_elem? ps j))

  pub length-pass_children :
      (i k : ℕ) (ps : List Proc) → length (pass_children cur init i k ps) ≡ length ps
  unfolding pass_children wakeup1
  length-pass_children i zero ps = refl
  length-pass_children i (suc k) ps =
      length-pass_children (i + 1) k (round i ps)
      ∙ (elim (Bool-cases (orphan_at cur (get_elem? ps i))) [
        | inl e ↦ rw e (length-map _ _ ∙ length-modify i _ ps)
        | inr e ↦ rw e (length-modify i _ ps)
      ])
