-- ===== src/Console.antt =====
-- console.c: the screen, and the input line that interrupts edit and `consoleread` takes from. Code
-- under `cons.lock` or `input.lock` is one step. What it does outside its own state is collected in
-- order as events.
pub mod Cga
pub mod Line
mod Tests
use fp_sisop20_f.Base.{
  ℕ, zero, suc, ◌+◌, ◌-◌, ◌*◌, ◌/◌, ◌%◌, ◌^◌, Bool, true, false, not, ◌&&◌, ◌||◌, Option, none,
  some, List, [], ◌∷◌, ◌++◌, map, ◌==◌, ltb, leb, if◌then◌else◌, update, get_or, set, take, add32,
  sub32, ℤ, pos, minus_one, nonneg_part, to_uint, to_int,
}

-- BACKSPACE
abbrev pub backspace : ℕ
backspace = 256

-- The cells of `crt`, and the cursor that the ports 14 and 15 of CRTPORT hold.
pub record Screen : Type 0 where
  pub cells : ℕ → ℕ
  pub cursor : ℕ

-- the cell and the position after the character, before scrolling
abbrev pub placed : ℕ → Screen → Screen
placed c s =
    if c == 10
    then record s { cursor = s.cursor + (80 - s.cursor % 80) }
    else (if c == backspace
        then record s { cursor = s.cursor - 1 }
        else record { cells = update s.cells s.cursor (c % 256 + 0x700); cursor = s.cursor + 1 })

-- The two calls on the screen memory: `memmove` of 23 rows, and `memset` with the size
-- `sizeof(crt[0])*(24*80 - pos)`, an unsigned product of 2.
abbrev pub scrolled : Screen → Screen
scrolled s =
    let at = s.cursor - 80 in
    let moved : ℕ → ℕ = λ a. if ltb a (23 * 80) then s.cells (a + 80) else s.cells a in
    let count = (24 * 80 + 2 ^ 31 - at) % 2 ^ 31 in
    record { cells = λ a. if leb at a && ltb a (at + count) then 0 else moved a; cursor = at }

unfoldable pub cgaputc : ℕ → Screen → Screen
cgaputc c s =
    let p = placed c s in
    let q = if leb 24 (p.cursor / 80) then scrolled p else p in
    record { cells = update q.cells q.cursor (32 + 0x700); cursor = q.cursor % 2 ^ 16 }

-- The screen, and the characters for the serial port; `none` where the kernel has panicked and this
-- CPU stops.
unfoldable pub consputc : (panicked : Bool) → ℕ → Screen → Option (Screen × List ℕ)
unfolding cgaputc
consputc panicked c s =
    if panicked
    then none
    else some (cgaputc c s, if c == backspace then 8 ∷ 32 ∷ 8 ∷ [] else c ∷ [])

-- INPUT_BUF
abbrev pub input_buf : ℕ
input_buf = 128

-- `input`: the line buffer with its read, write and edit index
pub record Input : Type 0 where
  pub buf : List ℕ
  pub r : ℕ
  pub w : ℕ
  pub e : ℕ

-- `puts c` is a call of `consputc`.
pub data Event : Type 0 where
  puts : ℕ → Event
  lists_processes wakes_readers : Event
  unlocks_inode locks_inode : Event

-- C('D')
abbrev pub ctrl_d : ℕ
ctrl_d = 4

-- C('U'): the loop erases back to the last end of line, at most `k` characters.
unfoldable pub kill_line : ℕ → Input → Input × List Event
kill_line zero i = (i, [])
kill_line (suc k) i =
    let (i', es) = kill_line k (record i { e = sub32 i.e 1 }) in
    if not (i.e == i.w) && not (get_or i.buf (sub32 i.e 1 % input_buf) 0 == 10)
    then (i', puts backspace ∷ es)
    else (i, [])

unfoldable pub erase : Input → Input × List Event
erase i = if not (i.e == i.w) then (record i { e = sub32 i.e 1 }, puts backspace ∷ []) else (i, [])

-- one more character at the end of the line, which is complete at its end, at C('D') or if it is full
abbrev pub typed : ℕ → Input → Input × List Event
typed c i =
    let i' = record i { buf = set i.buf (i.e % input_buf) (c % 256); e = add32 i.e 1 } in
    if (c == 10) || (c == ctrl_d) || (i'.e == add32 i.r input_buf)
    then (record i' { w = i'.e }, puts c ∷ wakes_readers ∷ [])
    else (i', puts c ∷ [])

-- the default case
unfoldable pub type_char : ℕ → Input → Input × List Event
type_char c i =
    if not (c == 0) && ltb (sub32 i.e i.r) input_buf
    then typed (if c == 13 then 10 else c) i
    else (i, [])

-- the switch of `consoleintr` on one character
unfoldable pub feed : ℕ → Input → Input × List Event
unfolding kill_line erase type_char
feed c i =
    if c == 16
    then (i, lists_processes ∷ [])
    else (if c == 21
        then kill_line (sub32 i.e i.w) i
        else (if (c == 8) || (c == 127) then erase i else type_char c i))

-- `consoleintr` on the characters that `getc` answers, up to its first negative answer
unfoldable pub consoleintr : List ℕ → Input → Input × List Event
unfolding feed
consoleintr [] i = (i, [])
consoleintr (c ∷ cs) i =
    let (i', es) = feed c i in let (i'', es') = consoleintr cs i' in (i'', es ++ es')

-- How a run of `consoleread` ends: it returns, or sleeps with `n` characters to go.
pub data Read : Type 0 where
  returned : ℤ → Read
  asleep : ℕ → Read

-- `target - n`, as an int
abbrev pub count_of : ℕ → ℕ → Read
count_of target n = returned (to_int (sub32 target n))

-- The loop, with `n` characters to go, run until it returns or sleeps. The characters stored at `dst`
-- are the middle part.
unfoldable pub read_line : (killed : Bool) → (target n : ℕ) → Input → Input × List ℕ × Read
read_line killed target zero i = (i, [], count_of target 0)
read_line killed target (suc n) i =
    let c = get_or i.buf (i.r % input_buf) 0 in
    let i' = record i { r = add32 i.r 1 } in
    let (i'', cs, o) = read_line killed target n i' in
    if i.r == i.w
    then (i, [], if killed then returned minus_one else asleep (suc n))
    else (if c == ctrl_d
        then ((if ltb (suc n) target then i else i'), [], count_of target (suc n))
        else (if c == 10 then (i', c ∷ [], count_of target n) else (i'', c ∷ cs, o)))

abbrev pub relocks : Read → List Event
relocks (returned _) = locks_inode ∷ []
relocks (asleep _) = []

-- The first run of a call; after a sleep it goes on with `read_line`. A call with a negative count
-- returns 0 at once.
unfoldable pub consoleread : (killed : Bool) → (n : ℤ) → Input → Input × List ℕ × Read × List Event
unfolding read_line
consoleread killed n i =
    let (i', cs, o) = read_line killed (nonneg_part n) (nonneg_part n) i in
    (i', cs, o, unlocks_inode ∷ relocks o)

-- `buf` is the caller's memory from `buf` on.
unfoldable pub consolewrite : (buf : List ℕ) → (n : ℤ) → ℤ × List Event
consolewrite buf n =
    (n, unlocks_inode ∷ map (λ c. puts (c % 256)) (take (nonneg_part n) buf) ++ locks_inode ∷ [])
