-- ===== src/Ulib.antt =====
-- ulib.c: the string routines of the user library, over byte-addressed memory. A loop up to a NUL takes
-- rounds as fuel; `none` means that they ran out.
pub mod Strings
mod Tests
use fp_sisop20_f.Base.{
  ℕ, zero, suc, ◌+◌, ◌-◌, ◌*◌, ◌%◌, ◌^◌, Bool, true, false, not, ◌&&◌, ◌||◌, Option, none, some,
  List, [], ◌∷◌, ◌==◌, ltb, leb, if◌then◌else◌, ℤ, pos, negsuc, nonneg_part, sub_ℕ,
}
use fp_sisop20_f.Memory.{Mem, write}

-- The memory after the copy; the pointer returned is `s`.
unfoldable pub strcpy : (fuel : ℕ) → Mem → (s t : ℕ) → Option Mem
unfolding write
strcpy zero m s t = none
strcpy (suc k) m s t =
    let m' = write m s (m t) in
    let rest = strcpy k m' (s + 1) (t + 1) in if m t == 0 then some m' else rest

unfoldable pub strcmp : (fuel : ℕ) → Mem → (p q : ℕ) → Option ℤ
strcmp zero m p q = none
strcmp (suc k) m p q =
    let rest = strcmp k m (p + 1) (q + 1) in
    if not (m p == 0) && (m p == m q) then rest else some (sub_ℕ (m p) (m q))

-- The address found, 0 where there is none.
unfoldable pub strchr : (fuel : ℕ) → Mem → (s c : ℕ) → Option ℕ
strchr zero m s c = none
strchr (suc k) m s c =
    let rest = strchr k m (s + 1) c in
    if m s == 0 then some 0 else (if m s == c then some s else rest)

-- `atoi`: the loop, with the value so far; an int wraps around.
unfoldable pub atoi_loop : (fuel : ℕ) → Mem → (s n : ℕ) → Option ℕ
atoi_loop zero m s n = none
atoi_loop (suc k) m s n =
    let rest = atoi_loop k m (s + 1) ((n * 10 + (m s + 2 ^ 32) - 48) % 2 ^ 32) in
    if leb 48 (m s) && leb (m s) 57 then rest else some n

-- the bit pattern of the int
unfoldable pub atoi : (fuel : ℕ) → Mem → (s : ℕ) → Option ℕ
unfolding atoi_loop
atoi fuel m s = atoi_loop fuel m s 0

-- The copy goes upwards only.
unfoldable pub copy : Mem → (dst src : ℕ) → (n : ℕ) → Mem
unfolding write
copy m dst src zero = m
copy m dst src (suc n) = copy (write m dst (m src)) (dst + 1) (src + 1) n

unfoldable pub memmove_up : Mem → (vdst vsrc : ℕ) → (n : ℤ) → Mem
unfolding copy
memmove_up m vdst vsrc n = copy m vdst vsrc (nonneg_part n)

-- The loop of `gets` with room for `k` characters; `input` is what the reads of one byte answer, and
-- its end is the end of the file or an error. The characters stored, without the NUL behind them, and
-- the input left.
unfoldable pub gets_loop : (k : ℕ) → (input : List ℕ) → List ℕ × List ℕ
gets_loop zero input = ([], input)
gets_loop (suc k) [] = ([], [])
gets_loop (suc k) (c ∷ cs) =
    let (line, left) = gets_loop k cs in
    if (c == 10) || (c == 13) then (c ∷ [], cs) else (c ∷ line, left)

unfoldable pub gets : (max : ℤ) → (input : List ℕ) → List ℕ × List ℕ
unfolding gets_loop
gets max input = gets_loop (nonneg_part max - 1) input
