-- ===== src/Shell/Parsed.antt =====
-- The parser of the shell ends on every line, with commands that fit into argv.
use fp_sisop20_f.Base.{
  ℕ, zero, suc, ◌<◌, ◌≤◌, arith, inl, inr, Bool-cases, not, List, [], ◌∷◌, length, if◌then◌else◌,
}
use fp_sisop20_f.Shell.{
  Cmd, exec, pipe, sequence, Outcome, parsed, panic, and_then, peek, gettoken, redirected,
  parseredirs, exec_loop, parseblock, parseexec, parsepipe, parseline, at_end, parsecmd,
}
use fp_sisop20_f.Shell.Tokens.{peek_lem}
use fp_sisop20_f.Shell.Loops.{
  Ends, weaken, and_then-Ends, AllTo, IsCommand, redirected-IsCommand, parseredirs-Ends, IsExec,
  exec_loop-Ends, back_loop-Ends,
}

-- what follows a separator, joined to the command before it
joined-Ends :
    (sep : List ℕ) (join : Cmd → Cmd → Cmd) (parse : List ℕ → Outcome Cmd) (n : ℕ) (cmd : Cmd)
    (s : List ℕ)
    → ((right : Cmd) → IsCommand right → IsCommand (join cmd right))
    → IsCommand cmd
    → length s ≤ n
    → ((t : List ℕ) → length t < length s → Ends IsCommand (length t) (parse t))
    → Ends IsCommand n (
        if (peek sep s).0
        then and_then (parse (gettoken (peek sep s).1).2) (λ right s4. parsed (join cmd right) s4)
        else parsed cmd (peek sep s).1)
joined-Ends sep join parse n cmd s joins v l ends =
    let (le, lt, less) = peek_lem sep s in
    let s3 = (gettoken (peek sep s).1).2 in
    elim (Bool-cases (peek sep s).0) [
      | inr e ↦ rw e (v, omega (arith, le))
      | inl e ↦ rw e (
          and_then-Ends IsCommand IsCommand (length s3) n (parse s3) _ (ends s3 (less e))
            (λ right s4 w b. (joins right w, omega (arith, b, lt))))
    ]

module _ (line : List ℕ → Outcome Cmd) (n : ℕ)
    (line-Ends : (s : List ℕ) → length s < n → Ends IsCommand (length s) (line s)) where
  parseblock-Ends : (s : List ℕ) → length s ≤ n → Ends IsCommand (length s) (parseblock line s)
  parseblock-Ends s h =
      let (_, lt, less) = peek_lem (40 ∷ []) s in
      let s2 = (gettoken (peek (40 ∷ []) s).1).2 in
      elim (Bool-cases (peek (40 ∷ []) s).0) [
        | inr e ↦ rw e tt
        | inl e ↦ rw e (
            and_then-Ends IsCommand IsCommand (length s2) (length s) (line s2) _
              (line-Ends s2 (omega (arith, less e)))
              (λ cmd s3 v l. closed s cmd s3 v (omega (arith, l, lt))))
      ]
    where
      closed :
          (s : List ℕ) (cmd : Cmd) (s3 : List ℕ)
          → IsCommand cmd
          → length s3 ≤ length s
          → Ends IsCommand (length s) (
              if not (peek (41 ∷ []) s3).0
              then panic
              else and_then
                  (parseredirs (gettoken (peek (41 ∷ []) s3).1).2)
                  (λ rs s6. parsed (redirected cmd rs) s6))
      closed s cmd s3 v l =
          let (_, lt, _) = peek_lem (41 ∷ []) s3 in
          let s5 = (gettoken (peek (41 ∷ []) s3).1).2 in
          elim (Bool-cases (peek (41 ∷ []) s3).0) [
            | inr e ↦ rw e tt
            | inl e ↦ rw e (
                and_then-Ends AllTo IsCommand (length s5) (length s) (parseredirs s5) _
                  (parseredirs-Ends s5)
                  (λ rs s6 p b. (redirected-IsCommand cmd rs v p, omega (arith, b, lt))))
          ]

  parseexec-Ends : (s : List ℕ) → length s ≤ n → Ends IsCommand (length s) (parseexec line s)
  unfolding parseexec
  parseexec-Ends s h =
      let (le, _, _) = peek_lem (40 ∷ []) s in
      let s1 = (peek (40 ∷ []) s).1 in
      elim (Bool-cases (peek (40 ∷ []) s).0) [
        | inl e ↦ rw e (
            weaken IsCommand (length s1) (length s) (parseblock line s1)
              (parseblock-Ends s1 (omega (arith, le))) le)
        | inr e ↦ rw e (
            and_then-Ends AllTo IsCommand (length s1) (length s) (parseredirs s1) _
              (parseredirs-Ends s1)
              (λ rs s2 p b.
                and_then-Ends IsExec IsCommand (length s2) (length s)
                  (exec_loop (suc (length s2)) [] rs s2) _
                  (exec_loop-Ends (suc (length s2)) [] rs s2 (omega arith) (omega arith, tt, p))
                  (λ (argv, rs') s3 (fits, ws, ts) l. (
                    redirected-IsCommand (exec argv) rs' (unfold IsCommand in (fits, ws)) ts,
                    omega (arith, le, b, l),
                  ))))
      ]

  parsepipe-Ends :
      (k : ℕ) (s : List ℕ)
      → length s ≤ n
      → length s < k
      → Ends IsCommand (length s) (parsepipe k line s)
  unfolding parsepipe
  parsepipe-Ends zero s h r = absurd (omega arith)
  parsepipe-Ends (suc k) s h r =
      and_then-Ends IsCommand IsCommand (length s) (length s) (parseexec line s) _
        (parseexec-Ends s h)
        (λ cmd s1 v l.
          joined-Ends (124 ∷ []) pipe (parsepipe k line) (length s) cmd s1
            (λ right w. unfold IsCommand in (v, w)) v l
            (λ t less. parsepipe-Ends k t (omega arith) (omega arith)))

parseline-Ends : (k : ℕ) (s : List ℕ) → length s < k → Ends IsCommand (length s) (parseline k s)
unfolding parseline
parseline-Ends zero s h = absurd (omega arith)
parseline-Ends (suc k) s h =
    and_then-Ends IsCommand IsCommand (length s) (length s) _ _
      (parsepipe-Ends (parseline k) k (λ t l. parseline-Ends k t l) (suc (length s)) s (omega arith)
        (omega arith))
      (λ cmd s1 v l.
        and_then-Ends IsCommand IsCommand (length s1) (length s) _ _
          (back_loop-Ends (suc (length s1)) cmd s1 (omega arith) v)
          (λ cmd' s2 w b.
            joined-Ends (59 ∷ []) sequence (parseline k) (length s) cmd' s2
              (λ right u. unfold IsCommand in (w, u)) w (omega arith)
              (λ t less. parseline-Ends k t (omega arith))))

-- On every line the rounds of parsecmd are enough, and when it does not panic it has parsed the line up
-- to its end, each command has less than MAXARGS words, and each word and file name has one
-- character at least and no white space and no symbol.
pub parsecmd-Ends : (s : List ℕ) → Ends IsCommand 0 (parsecmd s)
unfolding parsecmd
parsecmd-Ends s =
    and_then-Ends IsCommand IsCommand (length s) 0 _ _
      (parseline-Ends (suc (length s)) s (omega arith)) (λ cmd s1 v l. whole cmd (peek [] s1).1 v)
  where
    whole : (cmd : Cmd) (s2 : List ℕ) → IsCommand cmd → Ends IsCommand 0 (at_end cmd s2)
    whole cmd [] v = (v, omega arith)
    whole cmd (c ∷ s2) v = tt
