-- ===== src/Wc.antt =====
-- wc.c: the counts of lines, words and characters. What `read` answers is a list of buffers, and whether it
-- answers 0 or an error behind them.
pub mod Words
mod Tests
use fp_sisop20_f.Base.{
  ℕ, suc, ◌+◌, Bool, true, false, ◌||◌, Option, none, some, List, [], ◌∷◌, ◌==◌, add32,
  if◌then◌else◌,
}

pub record Counts : Type 0 where
  pub l : ℕ
  pub w : ℕ
  pub c : ℕ
  pub inword : Bool

abbrev pub none_yet : Counts
none_yet = record { l = 0; w = 0; c = 0; inword = false }

-- `strchr(" \r\t\n\v", c)`
abbrev pub is_space : ℕ → Bool
is_space c = (c == 32) || (c == 13) || (c == 9) || (c == 10) || (c == 11)

unfoldable pub count_char : ℕ → Counts → Counts
count_char x s =
    let s' = record s { c = add32 s.c 1; l = if x == 10 then add32 s.l 1 else s.l } in
    if is_space x
    then record s' { inword = false }
    else (if s.inword then s' else record s' { w = add32 s.w 1; inword = true })

unfoldable pub count_buf : List ℕ → Counts → Counts
count_buf [] s = s
count_buf (x ∷ xs) s = count_buf xs (count_char x s)

unfoldable pub read_loop : List (List ℕ) → Counts → Counts
read_loop [] s = s
read_loop (buf ∷ bufs) s = read_loop bufs (count_buf buf s)

-- The counts that it prints, unless a read fails.
unfoldable pub wc : List (List ℕ) → (fails : Bool) → Option Counts
wc bufs fails = let s = read_loop bufs none_yet in if fails then none else some s
