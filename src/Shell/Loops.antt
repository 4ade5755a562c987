-- ===== src/Shell/Loops.antt =====
-- What the loops of the shell's parser end with.
use fp_sisop20_f.Base.{
  ℕ, zero, suc, ◌<◌, ◌≤◌, ◌≡◌, ◌≢◌, refl, sym, subst, arith, inl, inr, Bool-cases, List, [], ◌∷◌,
  ◌++◌, ◌==◌, leb, length,
}
use fp_sisop20_f.Shell.{
  Cmd, exec, redir, pipe, sequence, back, maxargs, Outcome, parsed, panic, unfinished, and_then,
  peek, gettoken, Redir, redir_to, redirected, redir_loop, parseredirs, exec_loop, back_loop,
}
use fp_sisop20_f.Shell.Tokens.{IsWord, gettoken_lem, peek_lem}

-- The rounds are enough, what is answered has a property, and `n` characters at most are left.
abbrev pub Ends : {A : Type 0} → (A → Type 0) → (n : ℕ) → Outcome A → Type 0
Ends P n unfinished = ⊥
Ends P n panic = Unit
Ends P n (parsed a s) = P a × (length s ≤ n)

pub and_then-Ends :
    {A B : Type 0} (P : A → Type 0) (Q : B → Type 0) (n m : ℕ) (o : Outcome A)
    (f : A → List ℕ → Outcome B)
    → Ends P n o
    → ((a : A) (s : List ℕ) → P a → length s ≤ n → Ends Q m (f a s))
    → Ends Q m (and_then o f)
and_then-Ends P Q n m unfinished f h g = h
and_then-Ends P Q n m panic f h g = tt
and_then-Ends P Q n m (parsed a s) f (p, l) g = g a s p l

pub weaken :
    {A : Type 0} (P : A → Type 0) (n m : ℕ) (o : Outcome A) → Ends P n o → n ≤ m → Ends P m o
weaken P n m unfinished h l = h
weaken P n m panic h l = tt
weaken P n m (parsed a s) (p, q) l = (p, omega arith)

abbrev pub AllWords : List (List ℕ) → Type 0
AllWords [] = Unit
AllWords (w ∷ ws) = IsWord w × AllWords ws

abbrev pub AllTo : List Redir → Type 0
AllTo [] = Unit
AllTo (r ∷ rs) = IsWord r.file × AllTo rs

-- The words of a command fit into argv with the 0 behind them, and words and files are words.
unfoldable pub IsCommand : Cmd → Type 0
IsCommand (exec argv) = (length argv < maxargs) × AllWords argv
IsCommand (redir cmd file mode fd) = IsCommand cmd × IsWord file
IsCommand (pipe left right) = IsCommand left × IsCommand right
IsCommand (sequence left right) = IsCommand left × IsCommand right
IsCommand (back cmd) = IsCommand cmd

AllWords-snoc : (ws : List (List ℕ)) (w : List ℕ) → AllWords ws → IsWord w → AllWords (ws ++ w ∷ [])
AllWords-snoc [] w h q = (q, tt)
AllWords-snoc (x ∷ ws) w (p, h) q = (p, AllWords-snoc ws w h q)

AllTo-append : (rs rs' : List Redir) → AllTo rs → AllTo rs' → AllTo (rs ++ rs')
AllTo-append [] rs' h q = q
AllTo-append (r ∷ rs) rs' (p, h) q = (p, AllTo-append rs rs' h q)

pub redirected-IsCommand :
    (cmd : Cmd) (rs : List Redir) → IsCommand cmd → AllTo rs → IsCommand (redirected cmd rs)
unfolding IsCommand
redirected-IsCommand cmd [] h q = h
redirected-IsCommand cmd (r ∷ rs) h (p, q) =
    redirected-IsCommand (redir cmd r.file r.mode r.fd) rs (h, p) q

redir_to-file : (tok : ℕ) (file : List ℕ) → (redir_to tok file).file ≡ file
redir_to-file tok file = elim (Bool-cases (tok == 60)) [ inl e ↦ rw e refl | inr e ↦ rw e refl ]

redir_loop-Ends : (k : ℕ) (s : List ℕ) → length s < k → Ends AllTo (length s) (redir_loop k s)
unfolding redir_loop
redir_loop-Ends zero s h = absurd (omega arith)
redir_loop-Ends (suc k) s h = elim (Bool-cases (peek (60 ∷ 62 ∷ []) s).0) [
  | inr e ↦ rw e (tt, (peek_lem (60 ∷ 62 ∷ []) s).0)
  | inl e ↦
      let (_, _, l) = peek_lem (60 ∷ 62 ∷ []) s in
      let (le, _, word) = gettoken_lem (gettoken (peek (60 ∷ 62 ∷ []) s).1).2 in
      elim (Bool-cases ((gettoken (gettoken (peek (60 ∷ 62 ∷ []) s).1).2).0 == 97)) [
        | inr q ↦ rw (e, q) tt
        | inl q ↦
            rw (e, q)
              (and_then-Ends AllTo AllTo _ (length s) _ _
                (redir_loop-Ends k (gettoken (gettoken (peek (60 ∷ 62 ∷ []) s).1).2).2
                  (omega (arith, l e, le)))
                (λ rs s4 p b. (
                  (subst IsWord (sym (redir_to-file _ _)) (word (ground arith)), p),
                  omega (arith, l e, le, b),
                )))
      ]
]

pub parseredirs-Ends : (s : List ℕ) → Ends AllTo (length s) (parseredirs s)
parseredirs-Ends s = redir_loop-Ends (suc (length s)) s (omega arith)

-- The words fit into argv; what the loop of `parseexec` has.
abbrev pub IsExec : List (List ℕ) × List Redir → Type 0
IsExec (argv, rs) = (length argv < maxargs) × AllWords argv × AllTo rs

pub exec_loop-Ends :
    (k : ℕ) (argv : List (List ℕ)) (rs : List Redir) (s : List ℕ)
    → length s < k
    → IsExec (argv, rs)
    → Ends IsExec (length s) (exec_loop k argv rs s)
unfolding exec_loop
exec_loop-Ends zero argv rs s h v = absurd (omega arith)
exec_loop-Ends (suc k) argv rs s h v = elim (Bool-cases (peek (124 ∷ 41 ∷ 38 ∷ 59 ∷ []) s).0) [
  | inl e ↦ rw e (v, (peek_lem (124 ∷ 41 ∷ 38 ∷ 59 ∷ []) s).0)
  | inr e ↦
      let (lp, lt, _) = peek_lem (124 ∷ 41 ∷ 38 ∷ 59 ∷ []) s in
      let t = gettoken (peek (124 ∷ 41 ∷ 38 ∷ 59 ∷ []) s).1 in
      let (_, less, word) = gettoken_lem (peek (124 ∷ 41 ∷ 38 ∷ 59 ∷ []) s).1 in
      elim (Bool-cases (t.0 == 0)) [
        | inl z ↦ rw (e, z) (v, lt)
        | inr z ↦ elim (Bool-cases (t.0 == 97)) [
          | inr q ↦ rw (e, z, q) tt
          | inl q ↦ elim (Bool-cases (leb maxargs (length (argv ++ t.1 ∷ [])))) [
            | inl f ↦ rw (e, z, q, f) tt
            | inr f ↦
                let (_, ws, ts) = v in
                let n : t.0 ≢ 0 = ground arith in
                let w : IsWord t.1 = word (ground arith) in
                rw (e, z, q, f)
                  (and_then-Ends AllTo IsExec (length t.2) (length s) _ _ (parseredirs-Ends t.2)
                    (λ rs' s3 p b.
                      weaken IsExec (length s3) (length s) _
                        (exec_loop-Ends k (argv ++ t.1 ∷ []) (rs ++ rs') s3
                          (omega (arith, less n, lp, b))
                          (ground arith, AllWords-snoc argv t.1 ws w, AllTo-append rs rs' ts p))
                        (omega (arith, lt, b))))
          ]
        ]
      ]
]

pub back_loop-Ends :
    (k : ℕ) (cmd : Cmd) (s : List ℕ)
    → length s < k
    → IsCommand cmd
    → Ends IsCommand (length s) (back_loop k cmd s)
unfolding back_loop IsCommand
back_loop-Ends zero cmd s h v = absurd (omega arith)
back_loop-Ends (suc k) cmd s h v =
    let (lp, lt, less) = peek_lem (38 ∷ []) s in
    elim (Bool-cases (peek (38 ∷ []) s).0) [
      | inr e ↦ rw e (v, lp)
      | inl e ↦ rw e (
          weaken IsCommand (length (gettoken (peek (38 ∷ []) s).1).2) (length s) _
            (back_loop-Ends k (back cmd) (gettoken (peek (38 ∷ []) s).1).2 (omega (arith, less e))
              v)
            lt)
    ]
