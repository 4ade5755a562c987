-- ===== src/Vfs/Owned.antt =====
-- The references and locks that a call has taken and not given back.
use fp_sisop20_f.Base.{
  ℕ, suc, ◌+◌, ◌<◌, ◌≡◌, ◌≢◌, refl, sym, subst, ◌∙◌, arith, ◌⊎◌, inl, inr, Bool, true, false, ◌||◌,
  Bool-cases, List, [], ◌∷◌, ◌==◌, if◌then◌else◌,
}
use fp_sisop20_f.Inode.{Icache}
use fp_sisop20_f.Inode.Effects.{Sets}
use fp_sisop20_f.Content.{Fs}
use fp_sisop20_f.Vfs.{Kernel, slot, set_icache}

abbrev pub count : ℕ → List ℕ → ℕ
count j [] = 0
count j (i ∷ l) = let rest = count j l in if j == i then suc rest else rest

abbrev pub member : ℕ → List ℕ → Bool
member j [] = false
member j (i ∷ l) = (j == i) || member j l

-- Since `b`, the call has taken the references `refs` and the locks `locks`, each of them of an inode that it
-- refers to; no inode else is locked; the log is busy or not; files, descriptors and the current
-- directory are those of `b`.
pub record Owns (b : Kernel) (refs locks : List ℕ) (t : Bool) (k : Kernel) : Type 0 where
  pub ref_counts : (j : ℕ) → (slot j k).ref ≡ (slot j b).ref + count j refs
  pub held : (j : ℕ) → (slot j k).busy ≡ member j locks
  pub referred : (j : ℕ) → member j locks ≡ true → 0 < count j refs
  pub log : k.log_busy ≡ t
  pub same_files : k.files ≡ b.files
  pub same_ofile : k.ofile ≡ b.ofile
  pub same_cwd : k.cwd ≡ b.cwd

-- The same references in another order.
pub Owns-reorder :
    {b k : Kernel} {t : Bool} (refs refs' locks : List ℕ)
    → ((j : ℕ) → count j refs ≡ count j refs')
    → Owns b refs locks t k
    → Owns b refs' locks t k
Owns-reorder refs refs' locks e v = record {
  ref_counts = λ j. omega (arith, v.ref_counts j, e j);
  held = v.held;
  referred = λ j m. omega (arith, v.referred j m, e j);
  log = v.log;
  same_files = v.same_files;
  same_ofile = v.same_ofile;
  same_cwd = v.same_cwd;
}

-- The same locks in another order.
pub Owns-relock :
    {b k : Kernel} {t : Bool} (refs locks locks' : List ℕ)
    → ((j : ℕ) → member j locks ≡ member j locks')
    → Owns b refs locks t k
    → Owns b refs locks' t k
Owns-relock refs locks locks' e v = record {
  ref_counts = v.ref_counts;
  held = λ j. v.held j ∙ e j;
  referred = λ j m. v.referred j (e j ∙ m);
  log = v.log;
  same_files = v.same_files;
  same_ofile = v.same_ofile;
  same_cwd = v.same_cwd;
}

module _ {b : Kernel} {t : Bool} (refs locks : List ℕ) (k : Kernel)
    (v : Owns b refs locks t k) where
  -- The cache has changed in one slot, and the blocks in any way.
  pub moved :
      (i n : ℕ) (d : Bool) (c : Icache) (fs : Fs) (refs' locks' : List ℕ)
      → Sets i n d k.icache c
      → n ≡ (slot i b).ref + count i refs'
      → ((j : ℕ) → j ≢ i → count j refs' ≡ count j refs)
      → d ≡ member i locks'
      → ((j : ℕ) → j ≢ i → member j locks' ≡ member j locks)
      → (d ≡ true → 0 < count i refs')
      → Owns b refs' locks' t (record k { icache = c; fs = fs })
  moved i n d c fs refs' locks' s en er ed el h = record {
    ref_counts = λ j. elim (Bool-cases (j == i)) [
      | inl e ↦
          s.refs j
          ∙ rw e (
              let q : j ≡ i = ground arith in
              subst (λ x. n ≡ (slot x b).ref + count x refs') (sym q) en)
      | inr e ↦ s.refs j ∙ rw e (omega (arith, v.ref_counts j, er j (ground arith)))
    ];
    held = λ j. elim (Bool-cases (j == i)) [
      | inl e ↦
          s.locks j
          ∙ rw e (let q : j ≡ i = ground arith in subst (λ x. d ≡ member x locks') (sym q) ed)
      | inr e ↦ s.locks j ∙ rw e (v.held j ∙ sym (el j (ground arith)))
    ];
    referred = λ j m. elim (Bool-cases (j == i)) [
      | inl e ↦
          let q : j ≡ i = ground arith in
          subst (λ x. 0 < count x refs') (sym q) (h (ed ∙ subst (λ x. member x locks' ≡ true) q m))
      | inr e ↦
          let z : count j refs' ≡ count j refs = er j (ground arith) in
          omega (arith, z, v.referred j (sym (el j (ground arith)) ∙ m))
    ];
    log = v.log;
    same_files = v.same_files;
    same_ofile = v.same_ofile;
    same_cwd = v.same_cwd;
  }

  -- A slot whose references and lock are as they were.
  pub kept :
      (i : ℕ) (c : Icache) (fs : Fs)
      → Sets i (slot i k).ref (slot i k).busy k.icache c
      → Owns b refs locks t (record k { icache = c; fs = fs })
  kept i c fs s =
      moved i (slot i k).ref (slot i k).busy c fs refs locks s (v.ref_counts i) (λ _ _. refl)
        (v.held i) (λ _ _. refl) (λ e. v.referred i (sym (v.held i) ∙ e))

  -- One reference more.
  pub more :
      (i : ℕ) (d : Bool) (c : Icache)
      → Sets i ((slot i k).ref + 1) d k.icache c
      → (d ≡ (slot i k).busy) ⊎ (((slot i k).ref ≡ 0) × (d ≡ false))
      → Owns b (i ∷ refs) locks t (set_icache c k)
  more i d c s h =
      moved i ((slot i k).ref + 1) d c k.fs (i ∷ refs) locks s (ground (arith, v.ref_counts i))
        (λ j ne. ground arith) lock (λ _ _. refl) (λ e. ground arith)
    where
      lock : d ≡ member i locks
      lock = elim h [
        | inl e ↦ e ∙ v.held i
        | inr (z, e) ↦ elim (Bool-cases (member i locks)) [
          | inl m ↦ absurd (omega (arith, v.referred i m, v.ref_counts i, z))
          | inr m ↦ e ∙ sym m
        ]
      ]
