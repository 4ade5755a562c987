-- ===== src/File.antt =====
-- file.c: the table of open files, and reads and writes through it. Each function is one section
-- under `ftable.lock` where it takes that. Calls of other parts are collected in order; what they
-- answer is an argument.
pub mod Refs
pub mod Chunks
mod Tests
use fp_sisop20_f.Base.{
  ℕ, zero, suc, ◌+◌, ◌-◌, ◌*◌, ◌/◌, Bool, true, false, not, ◌&&◌, ◌||◌, Option, none, some, List,
  [], ◌∷◌, ◌==◌, ltb, if◌then◌else◌, update, min, add32, ℤ, pos, negsuc, minus_one, Result, ok,
  panic, ◌>>=◌, ◌>>◌, panic_if,
}

pub data FileType : Type 0 where
  fd_none fd_pipe fd_inode : FileType

-- `struct file`; a pipe and an inode are named by numbers.
pub record File : Type 0 where
  pub type : FileType
  pub ref : ℕ
  pub readable : Bool
  pub writable : Bool
  pub pipe : ℕ
  pub ip : ℕ
  pub off : ℕ

-- `ftable`
abbrev pub Files : Type 0
Files = ℕ → File

-- NFILE
abbrev pub nfile : ℕ
nfile = 100

pub data Call : Type 0 where
  pipeclose : (pipe : ℕ) → (writable : Bool) → Call
  begin_trans commit_trans : Call
  iput ilock iunlock stati : (ip : ℕ) → Call
  writei : (ip : ℕ) → (src off n : ℕ) → Call

-- The loop of `filealloc`: the first of `k` files from `i` on that is free.
unfoldable pub free_file : Files → (i k : ℕ) → Option ℕ
free_file t i zero = none
free_file t i (suc k) = let rest = free_file t (i + 1) k in if (t i).ref == 0 then some i else rest

abbrev pub claimed : Files → Option ℕ → Option (ℕ × Files)
claimed t none = none
claimed t (some i) = some (i, update t i (record (t i) { ref = 1 }))

unfoldable pub filealloc : Files → Option (ℕ × Files)
unfolding free_file
filealloc t = claimed t (free_file t 0 nfile)

unfoldable pub filedup : ℕ → Files → Result Files
filedup f t = do panic_if ((t f).ref == 0); ok (update t f (record (t f) { ref = (t f).ref + 1 }))

-- what `fileclose` does to the pipe or inode of its last reference
abbrev pub closing : File → FileType → List Call
closing ff fd_pipe = pipeclose ff.pipe ff.writable ∷ []
closing ff fd_inode = begin_trans ∷ iput ff.ip ∷ commit_trans ∷ []
closing ff fd_none = []

unfoldable pub fileclose : ℕ → Files → Result (Files × List Call)
fileclose f t = do
  panic_if ((t f).ref == 0)
  let left = (t f).ref - 1
  ok (
      if ltb 0 left
      then (update t f (record (t f) { ref = left }), [])
      else (update t f (record (t f) { ref = 0; type = fd_none }), closing (t f) (t f).type))

abbrev pub is_inode : FileType → Bool
is_inode fd_inode = true
is_inode _ = false

-- The metadata goes to the caller by `stati`.
unfoldable pub filestat : File → ℤ × List Call
filestat f =
    if is_inode f.type
    then (pos 0, ilock f.ip ∷ stati f.ip ∷ iunlock f.ip ∷ [])
    else (minus_one, [])

abbrev pub advance : ℕ → ℤ → ℕ
advance off (pos r) = add32 off r
advance off (negsuc _) = off

-- `fileread`, where `piperead` and `readi` answer with `from_pipe` and `from_inode`
abbrev pub read_by : (from_pipe from_inode : ℤ) → File → FileType → Result (ℤ × File)
read_by from_pipe from_inode f fd_pipe = ok (from_pipe, f)
read_by from_pipe from_inode f fd_inode =
    ok (from_inode, record f { off = advance f.off from_inode })
read_by from_pipe from_inode f fd_none = panic

unfoldable pub fileread : (from_pipe from_inode : ℤ) → File → Result (ℤ × File)
fileread from_pipe from_inode f =
    if not f.readable then ok (minus_one, f) else read_by from_pipe from_inode f f.type

-- `max` of `filewrite`: the bytes that one transaction can carry
abbrev pub chunk : ℕ
chunk = (10 - 1 - 1 - 2) / 2 * 512

-- how the loop of `filewrite` ends
pub data Written : Type 0 where
  stopped : (i : ℕ) → Written
  short_write out_of_rounds : Written

abbrev pub one_write : File → (i n1 : ℕ) → List Call
one_write f i n1 =
    begin_trans ∷ ilock f.ip ∷ writei f.ip i f.off n1 ∷ iunlock f.ip ∷ commit_trans ∷ []

abbrev pub calls_then : List Call → Written × File × List Call → Written × File × List Call
calls_then cs (o, f, ds) = (o, f, append cs ds)
  where
    append : List Call → List Call → List Call
    append [] ds = ds
    append (c ∷ cs) ds = c ∷ append cs ds

-- The rest of a round: `r` is what `writei` answers to a write of `n1` bytes, and `rest` what the
-- later rounds do.
abbrev pub after_write :
    File → (i n1 : ℕ) → ℤ → Written × File × List Call → Written × File × List Call
after_write f i n1 (negsuc _) rest = (stopped i, f, one_write f i n1)
after_write f i n1 (pos r) rest =
    if r == n1
    then calls_then (one_write f i n1) rest
    else (short_write, record f { off = add32 f.off r }, one_write f i n1)

-- The loop from byte `i` on, in at most `k` rounds. `answer i off n` is what `writei` answers.
unfoldable pub write_loop :
    (answer : ℕ → ℕ → ℕ → ℤ) → (k i n : ℕ) → File → Written × File × List Call
write_loop answer zero i n f = (out_of_rounds, f, [])
write_loop answer (suc k) i n f =
    let n1 = min (n - i) chunk in
    let rest = write_loop answer k (i + n1) n (record f { off = add32 f.off n1 }) in
    if ltb i n then after_write f i n1 (answer i f.off n1) rest else (stopped i, f, [])

abbrev pub write_result : (n : ℕ) → Written × File × List Call → Result (ℤ × File × List Call)
write_result n (stopped i, f, cs) = ok (if i == n then pos n else minus_one, f, cs)
write_result n (_, f, cs) = panic

abbrev pub write_by :
    (from_pipe : ℤ)
    → (answer : ℕ → ℕ → ℕ → ℤ) → File
    → (n : ℤ) → FileType
    → Result (ℤ × File × List Call)
write_by from_pipe answer f n fd_pipe = ok (from_pipe, f, [])
write_by from_pipe answer f (pos n) fd_inode = write_result n (write_loop answer (suc n) 0 n f)
write_by from_pipe answer f (negsuc _) fd_inode = ok (minus_one, f, [])
write_by from_pipe answer f n fd_none = panic

-- `filewrite` of `n` bytes, where `pipewrite` answers `from_pipe` and `writei` answers by `answer`. A
-- round writes at least one byte, so `n + 1` rounds are enough; a negative `n` makes none.
unfoldable pub filewrite :
    (from_pipe : ℤ) → (answer : ℕ → ℕ → ℕ → ℤ) → File → (n : ℤ) → Result (ℤ × File × List Call)
unfolding write_loop
filewrite from_pipe answer f n =
    if not f.writable then ok (minus_one, f, []) else write_by from_pipe answer f n f.type
