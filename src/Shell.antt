-- ===== src/Shell.antt =====
-- The parser of sh.c. A pointer into the line is the list of the characters from it on, and a token is
-- the list of its characters; a line holds no NUL, so that `*s` is 0 at its end only. The loops take as
-- rounds one more than there are characters left, and `parseline` one for each nesting of `(` and each `;`.
pub mod Tokens
pub mod Loops
pub mod Parsed
mod Tests
use fp_sisop20_f.Base.{
  ℕ, zero, suc, ◌+◌, Bool, true, false, not, ◌&&◌, ◌||◌, List, [], ◌∷◌, ◌++◌, ◌==◌, leb, length,
  if◌then◌else◌,
}

-- `struct cmd` and its kinds; `exec` has the words of argv.
pub data Cmd : Type 0 where
  exec : (argv : List (List ℕ)) → Cmd
  redir : Cmd → (file : List ℕ) → (mode fd : ℕ) → Cmd
  pipe : (left right : Cmd) → Cmd
  sequence : (left right : Cmd) → Cmd
  back : Cmd → Cmd

-- MAXARGS
abbrev pub maxargs : ℕ
maxargs = 10

-- A parser answers and leaves the rest of the line, or ends the shell's child by `panic`; `unfinished`
-- is a parser whose rounds ran out.
pub data Outcome (A : Type 0) : Type 0 where
  parsed : A → List ℕ → Outcome A
  panic : Outcome A
  unfinished : Outcome A

abbrev pub and_then : {A B : Type 0} → Outcome A → (A → List ℕ → Outcome B) → Outcome B
and_then (parsed a s) f = f a s
and_then panic f = panic
and_then unfinished f = unfinished

-- `strchr(set, c)` of a character that is not NUL
abbrev pub among : ℕ → List ℕ → Bool
among c [] = false
among c (x ∷ set) = (c == x) || among c set

-- " \t\r\n\v"
abbrev pub whitespace : List ℕ
whitespace = 32 ∷ 9 ∷ 13 ∷ 10 ∷ 11 ∷ []

-- "<|>&;()"
abbrev pub symbols : List ℕ
symbols = 60 ∷ 124 ∷ 62 ∷ 38 ∷ 59 ∷ 40 ∷ 41 ∷ []

-- `while(s < es && strchr(whitespace, *s)) s++;`
unfoldable pub skip : List ℕ → List ℕ
skip [] = []
skip (c ∷ s) = let rest = skip s in if among c whitespace then rest else c ∷ s

abbrev pub in_word : ℕ → Bool
in_word c = not (among c whitespace) && not (among c symbols)

-- the loop of a word: the word and what follows it
unfoldable pub word_loop : List ℕ → List ℕ × List ℕ
word_loop [] = ([], [])
word_loop (c ∷ s) = let (w, rest) = word_loop s in if in_word c then (c ∷ w, rest) else ([], c ∷ s)

-- a `>`, or the two characters of `>>`, which is '+'
abbrev pub after_gt : List ℕ → ℕ × List ℕ × List ℕ
after_gt [] = (62, 62 ∷ [], [])
after_gt (c ∷ s) = if c == 62 then (43, 62 ∷ 62 ∷ [], s) else (62, 62 ∷ [], c ∷ s)

-- The switch of `gettoken`: what it returns, the token and what follows it. A word is 'a'.
unfoldable pub token_at : List ℕ → ℕ × List ℕ × List ℕ
unfolding word_loop
token_at [] = (0, [], [])
token_at (c ∷ s) =
    let (w, rest) = word_loop s in
    if c == 62
    then after_gt s
    else (if among c symbols
        then (c, c ∷ [], s)
        else (if in_word c then (97, c ∷ w, rest) else (97, [], c ∷ s)))

unfoldable pub gettoken : List ℕ → ℕ × List ℕ × List ℕ
unfolding skip token_at
gettoken s = let (ret, text, rest) = token_at (skip s) in (ret, text, skip rest)

abbrev pub starts_with : List ℕ → List ℕ → Bool
starts_with toks [] = false
starts_with toks (c ∷ s) = among c toks

unfoldable pub peek : (toks : List ℕ) → List ℕ → Bool × List ℕ
unfolding skip
peek toks s = (starts_with toks (skip s), skip s)

-- A redirection that `redircmd` puts around a command; O_WRONLY|O_CREATE is 513.
pub record Redir : Type 0 where
  pub file : List ℕ
  pub mode : ℕ
  pub fd : ℕ

abbrev pub redir_to : ℕ → List ℕ → Redir
redir_to tok file =
    if tok == 60
    then (record { file = file; mode = 0; fd = 0 })
    else (record { file = file; mode = 513; fd = 1 })

-- the redirections around a command, the first the innermost
abbrev pub redirected : Cmd → List Redir → Cmd
redirected cmd [] = cmd
redirected cmd (r ∷ rs) = redirected (redir cmd r.file r.mode r.fd) rs

-- The loop of `parseredirs`: it answers the redirections that it puts around the command.
unfoldable pub redir_loop : (rounds : ℕ) → List ℕ → Outcome (List Redir)
unfolding gettoken peek
redir_loop zero s = unfinished
redir_loop (suc k) s =
    let (found, s1) = peek (60 ∷ 62 ∷ []) s in
    let (tok, _, s2) = gettoken s1 in
    let (ret, file, s3) = gettoken s2 in
    let rest = and_then (redir_loop k s3) (λ rs s4. parsed (redir_to tok file ∷ rs) s4) in
    if found then (if ret == 97 then rest else panic) else parsed [] s1

abbrev pub parseredirs : List ℕ → Outcome (List Redir)
parseredirs s = redir_loop (suc (length s)) s

-- The loop of `parseexec`. The words go on into the command that the redirections are around already.
unfoldable pub exec_loop :
    (rounds : ℕ)
    → (argv : List (List ℕ)) → List Redir
    → List ℕ
    → Outcome (List (List ℕ) × List Redir)
unfolding gettoken peek redir_loop
exec_loop zero argv rs s = unfinished
exec_loop (suc k) argv rs s =
    let (found, s1) = peek (124 ∷ 41 ∷ 38 ∷ 59 ∷ []) s in
    let (tok, q, s2) = gettoken s1 in
    let argv' = argv ++ q ∷ [] in
    let rest = and_then (parseredirs s2) (λ rs' s3. exec_loop k argv' (rs ++ rs') s3) in
    if found
    then parsed (argv, rs) s1
    else (if tok == 0
        then parsed (argv, rs) s2
        else (if not (tok == 97)
            then panic
            else (if leb maxargs (length argv') then panic else rest)))

-- `parseblock` where `parseline` is `line`
abbrev pub parseblock : (line : List ℕ → Outcome Cmd) → List ℕ → Outcome Cmd
parseblock line s =
    let (opened, s1) = peek (40 ∷ []) s in
    let (_, _, s2) = gettoken s1 in
    if not opened
    then panic
    else and_then (line s2) (λ cmd s3.
      let (closed, s4) = peek (41 ∷ []) s3 in
      let (_, _, s5) = gettoken s4 in
      if not closed
      then panic
      else and_then (parseredirs s5) (λ rs s6. parsed (redirected cmd rs) s6))

unfoldable pub parseexec : (line : List ℕ → Outcome Cmd) → List ℕ → Outcome Cmd
unfolding exec_loop
parseexec line s =
    let (block, s1) = peek (40 ∷ []) s in
    if block
    then parseblock line s1
    else and_then (parseredirs s1) (λ rs s2.
      and_then (exec_loop (suc (length s2)) [] rs s2)
        (λ (argv, rs') s3. parsed (redirected (exec argv) rs') s3))

unfoldable pub parsepipe : (rounds : ℕ) → (line : List ℕ → Outcome Cmd) → List ℕ → Outcome Cmd
unfolding parseexec
parsepipe zero line s = unfinished
parsepipe (suc k) line s = and_then (parseexec line s) (λ cmd s1.
    let (found, s2) = peek (124 ∷ []) s1 in
    let (_, _, s3) = gettoken s2 in
    let rest = and_then (parsepipe k line s3) (λ right s4. parsed (pipe cmd right) s4) in
    if found then rest else parsed cmd s2)

-- the loop of `parseline` over `&`
unfoldable pub back_loop : (rounds : ℕ) → Cmd → List ℕ → Outcome Cmd
unfolding gettoken peek
back_loop zero cmd s = unfinished
back_loop (suc k) cmd s =
    let (found, s1) = peek (38 ∷ []) s in
    let (_, _, s2) = gettoken s1 in
    let rest = back_loop k (back cmd) s2 in if found then rest else parsed cmd s1

unfoldable pub parseline : (rounds : ℕ) → List ℕ → Outcome Cmd
unfolding parsepipe back_loop gettoken peek
parseline zero s = unfinished
parseline (suc k) s = and_then (parsepipe (suc (length s)) (parseline k) s) (λ cmd s1.
    and_then (back_loop (suc (length s1)) cmd s1) (λ cmd' s2.
      let (found, s3) = peek (59 ∷ []) s2 in
      let (_, _, s4) = gettoken s3 in
      let rest = and_then (parseline k s4) (λ right s5. parsed (sequence cmd' right) s5) in
      if found then rest else parsed cmd' s3))

abbrev pub at_end : Cmd → List ℕ → Outcome Cmd
at_end cmd [] = parsed cmd []
at_end cmd (c ∷ s) = panic

unfoldable pub parsecmd : List ℕ → Outcome Cmd
unfolding parseline peek
parsecmd s =
    and_then (parseline (suc (length s)) s) (λ cmd s1. let (_, s2) = peek [] s1 in at_end cmd s2)
