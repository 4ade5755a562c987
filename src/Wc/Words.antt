-- ===== src/Wc/Words.antt =====
-- wc against the words of the whole contents.
use fp_sisop20_f.Base.{
  ℕ, suc, ◌+◌, ◌%◌, ◌^◌, ◌≡◌, refl, ap, sym, ◌∙◌, arith, Bool, true, false, Bool-cases, inl, inr,
  none, some, List, [], ◌∷◌, ◌++◌, ◌==◌, length, add32, if◌then◌else◌,
}
use fp_sisop20_f.Wc.{Counts, none_yet, is_space, count_char, count_buf, read_loop, wc}

abbrev pub concat : List (List ℕ) → List ℕ
concat [] = []
concat (buf ∷ bufs) = buf ++ concat bufs

-- The reference: the pieces between white space that are not empty. `cur` is the piece so far.
abbrev pub close : List ℕ → List (List ℕ) → List (List ℕ)
close [] ws = ws
close (x ∷ xs) ws = (x ∷ xs) ∷ ws

abbrev pub words : (cur text : List ℕ) → List (List ℕ)
words cur [] = close cur []
words cur (x ∷ xs) = if is_space x then close cur (words [] xs) else words (cur ++ x ∷ []) xs

abbrev pub newlines : List ℕ → ℕ
newlines [] = 0
newlines (x ∷ xs) = let n = newlines xs in if x == 10 then suc n else n

count_buf-append :
    (xs ys : List ℕ) (s : Counts) → count_buf (xs ++ ys) s ≡ count_buf ys (count_buf xs s)
unfolding count_buf
count_buf-append [] ys s = refl
count_buf-append (x ∷ xs) ys s = count_buf-append xs ys (count_char x s)

-- The buffers make no difference.
read_loop-concat :
    (bufs : List (List ℕ)) (s : Counts) → read_loop bufs s ≡ count_buf (concat bufs) s
unfolding read_loop count_buf
read_loop-concat [] s = refl
read_loop-concat (buf ∷ bufs) s =
    read_loop-concat bufs (count_buf buf s) ∙ sym (count_buf-append buf (concat bufs) s)

abbrev one : List ℕ → ℕ
one [] = 0
one (_ ∷ _) = 1

-- so many words, lines and characters, as far as an int counts
record Tallies (a b d : ℕ) (s : Counts) : Type 0 where
  words_lem : s.w ≡ a % 2 ^ 32
  lines_lem : s.l ≡ b % 2 ^ 32
  chars_lem : s.c ≡ d % 2 ^ 32

length-close : (cur : List ℕ) (ws : List (List ℕ)) → length (close cur ws) ≡ one cur + length ws
length-close [] ws = omega arith
length-close (x ∷ xs) ws = omega arith

-- a word is open exactly if the piece so far is not empty
abbrev IsOpen : List ℕ → Counts → Type 0
IsOpen [] s = s.inword ≡ false
IsOpen (_ ∷ _) s = s.inword ≡ true

-- one character
abbrev Goes : (x : ℕ) → (cur : List ℕ) → (a b d : ℕ) → Counts → Type 0
Goes x cur a b d s =
    if is_space x
    then IsOpen [] s × Tallies (a + one cur) (b + newlines (x ∷ [])) (d + 1) s
    else IsOpen (cur ++ x ∷ []) s × Tallies (a + 1) (b + newlines (x ∷ [])) (d + 1) s

add32_mod : (n k m : ℕ) → n ≡ k % 2 ^ 32 → add32 n m ≡ (k + m) % 2 ^ 32
add32_mod n k m e = rw e (omega arith)

add_nothing : (n k : ℕ) → n ≡ k % 2 ^ 32 → n ≡ (k + 0) % 2 ^ 32
add_nothing n k e = omega (arith, e)

more_lines :
    (x n b : ℕ)
    → n ≡ b % 2 ^ 32
    → (if x == 10 then add32 n 1 else n) ≡ (b + newlines (x ∷ [])) % 2 ^ 32
more_lines x n b e = elim (Bool-cases (x == 10)) [
  | inl h ↦ rw h (add32_mod n b 1 e)
  | inr h ↦ rw h (add_nothing n b e)
]

count_char-Goes :
    (x : ℕ) (cur : List ℕ) (a b d : ℕ) (s : Counts)
    → IsOpen cur s
    → Tallies (a + one cur) b d s
    → Goes x cur a b d (count_char x s)
unfolding count_char
count_char-Goes x cur a b d s o t = elim (Bool-cases (is_space x)) [
  | inl e ↦ rw e (
    refl,
    record {
      words_lem = t.words_lem;
      lines_lem = more_lines x s.l b t.lines_lem;
      chars_lem = add32_mod s.c d 1 t.chars_lem;
    },
  )
  | inr e ↦ rw e (in_word cur o t)
]
  where
    in_word :
        (cur : List ℕ)
        → IsOpen cur s
        → Tallies (a + one cur) b d s
        → (let s' = record s { c = add32 s.c 1; l = if x == 10 then add32 s.l 1 else s.l } in
            let s'' = if s.inword then s' else record s' { w = add32 s.w 1; inword = true } in
            IsOpen (cur ++ x ∷ []) s'' × Tallies (a + 1) (b + newlines (x ∷ [])) (d + 1) s'')
    in_word [] o t = rw o (
      refl,
      record {
        words_lem = add32_mod s.w a 1 (omega (arith, t.words_lem));
        lines_lem = more_lines x s.l b t.lines_lem;
        chars_lem = add32_mod s.c d 1 t.chars_lem;
      },
    )
    in_word (y ∷ ys) o t = rw o (
      refl,
      record {
        words_lem = t.words_lem;
        lines_lem = more_lines x s.l b t.lines_lem;
        chars_lem = add32_mod s.c d 1 t.chars_lem;
      },
    )

retally :
    {a b d a' b' d' : ℕ} (s : Counts)
    → a ≡ a'
    → b ≡ b'
    → d ≡ d'
    → Tallies a b d s
    → Tallies a' b' d' s
retally s ea eb ed t = record {
  words_lem = t.words_lem ∙ ap (λ n. n % 2 ^ 32) ea;
  lines_lem = t.lines_lem ∙ ap (λ n. n % 2 ^ 32) eb;
  chars_lem = t.chars_lem ∙ ap (λ n. n % 2 ^ 32) ed;
}

newlines_lem :
    (x : ℕ) (xs : List ℕ) (b : ℕ) → b + newlines (x ∷ []) + newlines xs ≡ b + newlines (x ∷ xs)
newlines_lem x xs b = elim (Bool-cases (x == 10)) [
  | inl e ↦ rw e (omega arith)
  | inr e ↦ rw e (omega arith)
]

one-append : (cur : List ℕ) (x : ℕ) → one (cur ++ x ∷ []) ≡ 1
one-append [] x = refl
one-append (y ∷ ys) x = refl

count_buf-Tallies :
    (text cur : List ℕ) (a b d : ℕ) (s : Counts)
    → IsOpen cur s
    → Tallies (a + one cur) b d s
    → Tallies (a + length (words cur text)) (b + newlines text) (d + length text) (count_buf text s)
unfolding count_buf
count_buf-Tallies [] cur a b d s o t =
    let e : length (words cur []) ≡ one cur = length-close cur [] ∙ omega arith in
    record {
      words_lem = t.words_lem ∙ ap (λ n. (a + n) % 2 ^ 32) (sym e);
      lines_lem = omega (arith, t.lines_lem);
      chars_lem = omega (arith, t.chars_lem);
    }
count_buf-Tallies (x ∷ xs) cur a b d s o t =
    let g = count_char-Goes x cur a b d s o t in
    let n = newlines (x ∷ []) in
    elim (Bool-cases (is_space x)) [
      | inl e ↦
          let (p, u) = rw e at g in
          let v =
            count_buf-Tallies xs [] (a + one cur) (b + n) (d + 1) (count_char x s) p
              (retally (count_char x s) (omega arith) refl refl u) in
          let l = length-close cur (words [] xs) in
          retally (count_buf xs (count_char x s)) (rw e (omega (arith, l))) (newlines_lem x xs b)
            (omega arith) v
      | inr e ↦
          let (p, u) = rw e at g in
          let v =
            count_buf-Tallies xs (cur ++ x ∷ []) a (b + n) (d + 1) (count_char x s) p
              (retally (count_char x s) (ap (λ k. a + k) (sym (one-append cur x))) refl refl u) in
          retally (count_buf xs (count_char x s)) (rw e refl) (newlines_lem x xs b) (omega arith) v
    ]

same_counts :
    (s : Counts) (l w c : ℕ)
    → s.l ≡ l
    → s.w ≡ w
    → s.c ≡ c
    → s ≡ record { l = l; w = w; c = c; inword = s.inword }
same_counts s l w c e f g =
    ap {A = ℕ} {B = Counts} (λ n. record s { l = n }) e
    ∙ ap {A = ℕ} {B = Counts} (λ n. record s { l = l; w = n }) f
    ∙ ap {A = ℕ} {B = Counts} (λ n. record s { l = l; w = w; c = n }) g

-- wc prints, of the contents that all its reads give together, the number of line ends, of pieces between white
-- space and of characters, each as far as an int counts, no matter how the reads cut the contents; when a read
-- fails, it prints none of them.
pub wc-words :
    (bufs : List (List ℕ)) (fails : Bool)
    → (inword : Bool) × (wc bufs fails ≡ (
        if fails
        then none
        else some (record {
          l = newlines (concat bufs) % 2 ^ 32;
          w = length (words [] (concat bufs)) % 2 ^ 32;
          c = length (concat bufs) % 2 ^ 32;
          inword = inword;
        })))
unfolding wc
wc-words bufs fails =
    let s = count_buf (concat bufs) none_yet in
    let t : Tallies (length (words [] (concat bufs))) (newlines (concat bufs))
        (length (concat bufs)) s =
      retally s (omega arith) (omega arith) (omega arith) (
        count_buf-Tallies (concat bufs) [] 0 0 0 none_yet refl
          (record { words_lem = refl; lines_lem = refl; chars_lem = refl })) in
    (
      s.inword,
      ap (λ (s : Counts). if fails then none else some s)
          (read_loop-concat bufs none_yet
            ∙ same_counts s _ _ _ t.lines_lem t.words_lem t.chars_lem),
    )
