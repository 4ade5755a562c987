-- ===== src/Shell/Tests.antt =====
-- A line of the shell, and a witness that the theorem on the parser applies.
use fp_sisop20_f.Base.{ℕ, ◌≡◌, refl, List, [], ◌∷◌}
use fp_sisop20_f.Shell.{
  exec, redir, pipe, sequence, back, parsed, skip, word_loop, token_at, gettoken, peek, redir_loop,
  exec_loop, parseexec, parsepipe, back_loop, parseline, parsecmd,
}
use fp_sisop20_f.Shell.Loops.{Ends, IsCommand}
use fp_sisop20_f.Shell.Parsed.{parsecmd-Ends}

-- a b>c |d>>e& ;f
abbrev good_line : List ℕ
good_line = 97 ∷ 32 ∷ 98 ∷ 62 ∷ 99 ∷ 32 ∷ 124 ∷ 100 ∷ 62 ∷ 62 ∷ 101 ∷ 38 ∷ 32 ∷ 59 ∷ 102 ∷ []

parsecmd_good :
    parsecmd good_line
    ≡ parsed
        (sequence
          (back (
            pipe
              (redir (exec ((97 ∷ []) ∷ (98 ∷ []) ∷ [])) (99 ∷ []) 513 1)
              (redir (exec ((100 ∷ []) ∷ [])) (101 ∷ []) 513 1)))
          (exec ((102 ∷ []) ∷ [])))
        []
unfolding parsecmd parseline parsepipe parseexec exec_loop redir_loop back_loop peek gettoken
    token_at skip word_loop
parsecmd_good = refl

parsecmd-Ends_example : Ends IsCommand 0 (parsecmd good_line)
parsecmd-Ends_example = parsecmd-Ends good_line
