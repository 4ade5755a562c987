-- ===== src/Vm/Copyout.antt =====
-- copyout writes to pages of the user only.
use fp_sisop20_f.Base.{
  ℕ, zero, suc, ◌+◌, ◌-◌, ◌%◌, ◌<◌, ◌≤◌, ◌≡◌, ◌≢◌, refl, sym, ap, subst, ◌∙◌, arith, ◌⊎◌, inl, inr,
  Bool, true, false, not, ◌&&◌, ◌||◌, Bool-cases, Option, none, some, ◌==◌, leb, ltb, if◌then◌else◌,
  update, update_self, update_ne, copy_words, copy_words_lem, word, add32,
}
use fp_sisop20_f.Vm.{Pte, Vm, pgsize, pdx, ptx, round_down, walkpgdir}
use fp_sisop20_f.Vm.Pages.{entry_of}
use fp_sisop20_f.Vm.User.{pointed_to, uva2ka, in_page, write_page, copy_page, copyout_loop, copyout}

-- The user may have the page of an address, and it is `page`.
abbrev pub IsUser : (pgdir x page : ℕ) → Vm → Type 0
IsUser pgdir x page v =
    ((entry_of pgdir v x).present ≡ true)
    × ((entry_of pgdir v x).user ≡ true)
    × ((entry_of pgdir v x).addr ≡ page)

-- What an address 0 must not hold: an entry that the user may have.
abbrev pub IsNoUser : Pte → Type 0
IsNoUser e = (not e.present || not e.user) ≡ true

user_page :
    (e : Pte) (page : ℕ)
    → (if not e.present || not e.user then none else some e.addr) ≡ some page
    → (e.present ≡ true) × (e.user ≡ true) × (e.addr ≡ page)
user_page e page h = ground arith

abbrev page_if : Pte → Option ℕ
page_if e = if not e.present || not e.user then none else some e.addr

points_to :
    (null : Pte) (pgdir uva : ℕ) (v : Vm)
    → pointed_to null uva (walkpgdir pgdir uva false v)
      ≡ (if (v.tables pgdir (pdx uva)).present then entry_of pgdir v uva else null)
unfolding walkpgdir
points_to null pgdir uva v = elim (Bool-cases (v.tables pgdir (pdx uva)).present) [
  | inl p ↦ rw p refl
  | inr p ↦ rw p refl
]

-- What uva2ka answers is a page that the user may have.
pub uva2ka_lem :
    (null : Pte) (pgdir uva page : ℕ) (v : Vm)
    → IsNoUser null
    → uva2ka null pgdir uva v ≡ some page
    → IsUser pgdir uva page v
unfolding uva2ka
uva2ka_lem null pgdir uva page v n e =
    let f : page_if (if (v.tables pgdir (pdx uva)).present then entry_of pgdir v uva else null)
        ≡ some page =
      ap page_if (sym (points_to null pgdir uva v)) ∙ e in
    elim (Bool-cases (v.tables pgdir (pdx uva)).present) [
      | inl p ↦
          user_page (entry_of pgdir v uva) page
            (ap (λ b. page_if (if b then entry_of pgdir v uva else null)) (sym p) ∙ f)
      | inr p ↦
          let g : page_if null ≡ some page =
            ap (λ b. page_if (if b then entry_of pgdir v uva else null)) (sym p) ∙ f in
          let z : page_if null ≡ none = rw n refl in
          let w : none ≡ some page = sym z ∙ g in absurd (cc)
    ]

-- All addresses of a page have its entry.
pub entry_of-page :
    (pgdir x : ℕ) (v : Vm) → x < word → entry_of pgdir v x ≡ entry_of pgdir v (round_down x)
entry_of-page pgdir x v h =
    let e : pdx x ≡ pdx (round_down x) = omega arith in
    let f : ptx x ≡ ptx (round_down x) = omega arith in rw (e, f) refl

pub in_page_lem :
    (va len : ℕ)
    → 0 < len
    → (0 < in_page va len)
      × (in_page va len ≤ len)
      × (in_page va len ≤ pgsize - (va - round_down va))
      × ((in_page va len ≡ len) ⊎ (in_page va len ≡ pgsize - (va - round_down va)))
in_page_lem va len h = ground arith

-- No byte is written but those of the range, where the user may have them; and all of them are the user's
-- if the copy is complete.
pub record Copied (pgdir va len : ℕ) (v : Vm) (r : Bool × Vm) : Type 0 where
  pub tables : r.1.tables ≡ v.tables
  pub free : r.1.free ≡ v.free
  pub untouched :
      (page at : ℕ)
      → ((x : ℕ) → va ≤ x → x < va + len → IsUser pgdir x page v → x % pgsize ≢ at)
      → r.1.bytes page at ≡ v.bytes page at
  pub allowed :
      r.0 ≡ true
      → (x : ℕ) → va ≤ x
      → x < va + len
      → ((entry_of pgdir v x).present ≡ true) × ((entry_of pgdir v x).user ≡ true)

write_page_lem :
    (pgdir va n page page' at : ℕ) (p : ℕ → ℕ) (from : ℕ) (v : Vm)
    → IsUser pgdir (round_down va) page v
    → va + n ≤ word
    → n ≤ pgsize - (va - round_down va)
    → ((x : ℕ) → va ≤ x → x < va + n → IsUser pgdir x page' v → x % pgsize ≢ at)
    → (write_page page (va - round_down va) p from n v).bytes page' at ≡ v.bytes page' at
write_page_lem pgdir va n page page' at p from v u hw hn free = elim (Bool-cases (page' == page)) [
  | inr e ↦ ap (λ f. f at) (update_ne v.bytes page _ page' (ground arith))
  | inl e ↦
      let q : page' ≡ page = ground arith in
      ap (λ y. update v.bytes page (copy_words (v.bytes page) (va - round_down va) p from n) y at) q
      ∙ ap (λ f. f at) (update_self v.bytes page _)
      ∙ copy_words_lem (v.bytes page) (va - round_down va) p from n at
      ∙ elim (Bool-cases (leb (va - round_down va) at && ltb at (va - round_down va + n))) [
        | inr f ↦ rw f (ap (λ y. v.bytes y at) (sym q))
        | inl f ↦
            absurd
              (free (round_down va + at) (ground arith) (ground arith) (user f q) (ground arith))
      ]
]
  where
    user :
        (leb (va - round_down va) at && ltb at (va - round_down va + n)) ≡ true
        → page' ≡ page
        → IsUser pgdir (round_down va + at) page' v
    user f q =
        let l : at < pgsize = ground arith in
        let w : round_down va + at < word = ground arith in
        let z : round_down (round_down va + at) ≡ round_down va = omega arith in
        let e : entry_of pgdir v (round_down va + at) ≡ entry_of pgdir v (round_down va) =
          entry_of-page pgdir (round_down va + at) v w ∙ ap (entry_of pgdir v) z in
        let (a, b, c) = u in
        (ap (λ y. y.present) e ∙ a, ap (λ y. y.user) e ∙ b, ap (λ y. y.addr) e ∙ c ∙ sym q)

done-Copied : (pgdir va : ℕ) (b : Bool) (v : Vm) → Copied pgdir va 0 v (b, v)
done-Copied pgdir va b v = record {
  tables = refl;
  free = refl;
  untouched = λ page at h. refl;
  allowed = λ e x l h. absurd (omega arith);
}

-- a page, and then the rest
page-Copied :
    (null : Pte) (pgdir va len n b : ℕ) (p : ℕ → ℕ) (from : ℕ) (v : Vm) (o : Option ℕ)
    (rest : Vm → Bool × Vm)
    → ((page : ℕ) → o ≡ some page → IsUser pgdir (round_down va) page v)
    → va + len ≤ word
    → n ≤ len
    → n ≤ pgsize - (va - round_down va)
    → (n ≡ len) ⊎ (b ≡ va + n)
    → ((w : Vm) → Copied pgdir b (len - n) w (rest w))
    → Copied pgdir va len v
        (copy_page o rest (λ page. write_page page (va - round_down va) p from n v) v)
page-Copied null pgdir va len n b p from v none rest u hw hl hn at ih = record {
  tables = refl;
  free = refl;
  untouched = λ page at h. refl;
  allowed = λ e x l h. absurd (cc);
}
page-Copied null pgdir va len n b p from v (some page) rest u hw hl hn at ih =
    let w = write_page page (va - round_down va) p from n v in
    let c : Copied pgdir b (len - n) w (rest w) = ih w in
    let first : IsUser pgdir (round_down va) page v = u page refl in
    record {
      tables = c.tables;
      free = c.free;
      untouched = λ page' i free.
          c.untouched page' i (λ x l h. free x (omega (arith, at)) (omega (arith, at)))
          ∙ write_page_lem pgdir va n page page' i p from v first (omega arith) hn
              (λ x l h. free x l (omega arith));
      allowed = λ e x l h. elim (Bool-cases (ltb x (va + n))) [
        | inl f ↦
            let z : round_down x ≡ round_down va = ground arith in
            let q : entry_of pgdir v x ≡ entry_of pgdir v (round_down va) =
              entry_of-page pgdir x v (omega arith) ∙ ap (entry_of pgdir v) z in
            let (a, d, _) = first in (ap (λ y. y.present) q ∙ a, ap (λ y. y.user) q ∙ d)
        | inr f ↦
            let g : va + n ≤ x = ground arith in
            c.allowed e x (omega (arith, at)) (omega (arith, at))
      ];
    }

pub copyout_loop-Copied :
    (null : Pte) (pgdir k va : ℕ) (p : ℕ → ℕ) (from len : ℕ) (v : Vm)
    → IsNoUser null
    → va + len ≤ word
    → len ≤ k
    → Copied pgdir va len v (copyout_loop null pgdir k va p from len v)
unfolding copyout_loop
copyout_loop-Copied null pgdir zero va p from len v n hw h =
    let z : len ≡ 0 = omega arith in
    subst (λ l. Copied pgdir va l v (true, v)) (sym z) (done-Copied pgdir va true v)
copyout_loop-Copied null pgdir (suc k) va p from len v n hw h = elim (Bool-cases (len == 0)) [
  | inl e ↦
      let z : len ≡ 0 = ground arith in
      rw e (subst (λ l. Copied pgdir va l v (true, v)) (sym z) (done-Copied pgdir va true v))
  | inr e ↦
      let (some_bytes, less, fits, last) = in_page_lem va len (ground arith) in
      let b = add32 (round_down va) pgsize in
      let at : (in_page va len ≡ len) ⊎ (b ≡ va + in_page va len) =
        next va len (in_page va len) hw less last in
      rw e (
        page-Copied null pgdir va len (in_page va len) b p from v
          (uva2ka null pgdir (round_down va) v)
          (copyout_loop null pgdir k b p (from + in_page va len) (len - in_page va len))
          (λ page q. uva2ka_lem null pgdir (round_down va) page v n q) hw less fits at
          (λ w.
            copyout_loop-Copied null pgdir k b p (from + in_page va len) (len - in_page va len) w n
              (omega (arith, at, less)) (omega (arith, some_bytes))))
]
  where
    next :
        (va len n : ℕ)
        → va + len ≤ word
        → n ≤ len
        → (n ≡ len) ⊎ (n ≡ pgsize - (va - round_down va))
        → (n ≡ len) ⊎ (add32 (round_down va) pgsize ≡ va + n)
    next va len n hw less last = ground arith

-- Where address 0 holds no entry that the user may have, copyout of a range of the address space leaves
-- all page tables and the free list as they are, writes no byte but those of the range in pages that the
-- user may have, and succeeds only if the user may have all pages of the range.
pub copyout-Copied :
    (null : Pte) (pgdir va : ℕ) (p : ℕ → ℕ) (len : ℕ) (v : Vm)
    → IsNoUser null
    → va + len ≤ word
    → Copied pgdir va len v (copyout null pgdir va p len v)
unfolding copyout
copyout-Copied null pgdir va p len v n h =
    copyout_loop-Copied null pgdir len va p 0 len v n h (omega arith)
