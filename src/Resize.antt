-- ===== src/Resize.antt =====
-- truncate.c and vim.c: what the two programs make of the contents of a file. A file is its list of
-- bytes; a read answers with the next bytes, 512 at most. A write at the end of a file that would be
-- longer than MAXFILE blocks then fails and changes nothing, and truncate does not look at that; any
-- other write is carried out whole.
pub mod Contents
mod Tests
use fp_sisop20_f.Base.{
  ℕ, zero, suc, ◌+◌, ◌-◌, ◌*◌, ◌%◌, ◌^◌, Bool, true, false, not, ◌&&◌, ◌||◌, List, [], ◌∷◌, ◌++◌,
  ◌==◌, ltb, leb, if◌then◌else◌, min, length, take, drop, replicate, ℤ, nonneg_part, to_int,
}

-- sizeof(buf)
abbrev pub buf_size : ℕ
buf_size = 512

-- MAXFILE * BSIZE
abbrev pub max_size : ℕ
max_size = (12 + 128) * 512

-- `write` to a file that is open at its end
abbrev pub write_end : List ℕ → List ℕ → List ℕ
write_end file bytes = if leb (length file + length bytes) max_size then file ++ bytes else file

-- The reading loop of `truncate`, in at most `k` rounds: the new file, and what is left of `nowsize`.
unfoldable pub copy_loop : (k : ℕ) → (old : List ℕ) → (nowsize : ℕ) → (file : List ℕ) → List ℕ × ℕ
copy_loop zero old nowsize file = (file, nowsize)
copy_loop (suc k) old nowsize file =
    let buf = take buf_size old in
    let n = min (length buf) nowsize in
    let rest = copy_loop k (drop buf_size old) (nowsize - n) (write_end file (take n buf)) in
    if ltb 0 (length buf) && ltb 0 nowsize then rest else (file, nowsize)

-- `while(nowsize--) write(fd1,empty,1)`
unfoldable pub pad_loop : (nowsize : ℕ) → (file : List ℕ) → List ℕ
pad_loop zero file = file
pad_loop (suc n) file = pad_loop n (write_end file (0 ∷ []))

-- the contents of the new file
unfoldable pub truncate : (old : List ℕ) → (size : ℤ) → List ℕ
unfolding copy_loop pad_loop
truncate old size =
    let (file, left) = copy_loop (suc (length old)) old (nonneg_part size) [] in pad_loop left file

-- whether `strchr` finds the character
abbrev pub has : ℕ → List ℕ → Bool
has c [] = false
has c (d ∷ ds) = (d == c) || has c ds

-- the string up to the character: `*temp = '\0'`
abbrev pub cut : ℕ → List ℕ → List ℕ
cut c [] = []
cut c (d ∷ ds) = if d == c then [] else d ∷ cut c ds

abbrev pub number : ℕ → List ℕ → ℕ
number n [] = n
number n (c ∷ cs) = if leb 48 c && leb c 57 then number ((n * 10 + (c - 48)) % 2 ^ 32) cs else n

abbrev pub tail_of : List ℕ → List ℕ
tail_of [] = []
tail_of (_ ∷ cs) = cs

-- The number with its unit K, M or G, in bytes, as an int's bit pattern.
unfoldable pub amount : List ℕ → ℕ
amount cs =
    if has 75 cs
    then (number 0 (cut 75 cs) * 1024) % 2 ^ 32
    else (if has 77 cs
        then (number 0 (cut 77 cs) * 1024 ^ 2) % 2 ^ 32
        else (if has 71 cs then (number 0 (cut 71 cs) * 1024 ^ 3) % 2 ^ 32 else number 0 cs))

abbrev pub not_negative : ℕ → ℕ
not_negative x = if leb (2 ^ 31) x then 0 else x

-- The size that `main` asks for: the argument of `-s`, at a file of `size` bytes.
unfoldable pub new_size : (size : ℕ) → List ℕ → ℤ
unfolding amount
new_size size arg =
    if has 43 arg
    then to_int ((size + amount (tail_of arg)) % 2 ^ 32)
    else (if has 45 arg
        then to_int (not_negative ((size + 2 ^ 32 - amount (tail_of arg)) % 2 ^ 32))
        else to_int (amount arg))

-- The reading loop of vim's `overwrite`, which only counts.
unfoldable pub count_loop : (k : ℕ) → (old : List ℕ) → (len : ℕ) → ℕ
count_loop zero old len = len
count_loop (suc k) old len =
    let n = length (take buf_size old) in
    let rest = count_loop k (drop buf_size old) (len + n) in if ltb 0 n then rest else len

-- a write to a file from its beginning on
abbrev pub write_over : List ℕ → List ℕ → List ℕ
write_over bytes old = bytes ++ drop (length bytes) old

-- The contents after `overwrite`: the message and then the NULs are written from offset 0 on.
unfoldable pub overwrite : (old message : List ℕ) → List ℕ
unfolding count_loop
overwrite old message =
    let len = count_loop (suc (length old)) old 0 in
    let zeros = if ltb (length message) len then replicate (len - length message) 0 else [] in
    write_over (message ++ zeros) old
