-- ===== src/Syscall.antt =====
-- syscall.c and the descriptors of sysfile.c: how the kernel fetches the arguments of a system call
-- from the memory of the calling process, which runs from address 0 to its size.
pub mod Fetch
pub mod Descriptors
mod Tests
use fp_sisop20_f.Base.{
  ℕ, zero, suc, ◌+◌, ◌-◌, ◌*◌, ◌^◌, Bool, true, false, ◌||◌, Option, none, some, List, [], ◌∷◌,
  ◌==◌, ltb, leb, if◌then◌else◌, add32, ℤ, pos, negsuc, to_int, to_uint,
}
use fp_sisop20_f.Memory.{Mem}

-- What the calls read and change of `proc`: its memory, the saved stack pointer, and its descriptors,
-- of which there are NOFILE.
pub record User : Type 0 where
  pub mem : Mem
  pub sz : ℕ
  pub esp : ℕ
  pub ofile : List (Option ℕ)

-- `*(int*)addr`
abbrev pub word_at : Mem → ℕ → ℕ
word_at m a = m a + 2 ^ 8 * m (a + 1) + 2 ^ 16 * m (a + 2) + 2 ^ 24 * m (a + 3)

-- The bit pattern of the int; `none` is the result -1.
unfoldable pub fetchint : User → ℕ → Option ℕ
fetchint u addr =
    if leb u.sz addr || ltb u.sz (add32 addr 4) then none else some (word_at u.mem addr)

-- The loop of `fetchstr`: the characters before a NUL among the `k` from `s` on.
unfoldable pub string_loop : Mem → (s : ℕ) → (k : ℕ) → (len : ℕ) → Option ℕ
string_loop m s zero len = none
string_loop m s (suc k) len =
    let rest = string_loop m (s + 1) k (len + 1) in if m s == 0 then some len else rest

-- The length of the string; the pointer that it sets is `addr`.
unfoldable pub fetchstr : User → ℕ → Option ℕ
unfolding string_loop
fetchstr u addr = if leb u.sz addr then none else string_loop u.mem addr (u.sz - addr) 0

unfoldable pub argint : User → ℕ → Option ℕ
unfolding fetchint
argint u n = fetchint u (add32 (add32 u.esp 4) (4 * n))

-- the checks of `argptr` on the pointer `i`
abbrev pub block_at : User → ℤ → ℕ → Option ℕ
block_at u size i = if leb u.sz i || ltb u.sz (add32 i (to_uint size)) then none else some i

abbrev pub then_try : Option ℕ → (ℕ → Option ℕ) → Option ℕ
then_try none f = none
then_try (some i) f = f i

unfoldable pub argptr : User → ℕ → (size : ℤ) → Option ℕ
unfolding argint
argptr u n size = then_try (argint u n) (block_at u size)

unfoldable pub argstr : User → ℕ → Option ℕ
unfolding argint fetchstr
argstr u n = then_try (argint u n) (fetchstr u)

-- NOFILE
abbrev pub nofile : ℕ
nofile = 16

abbrev pub entry : List (Option ℕ) → ℕ → Option ℕ
entry [] fd = none
entry (o ∷ os) zero = o
entry (o ∷ os) (suc fd) = entry os fd

abbrev pub set_entry : List (Option ℕ) → ℕ → Option ℕ → List (Option ℕ)
set_entry [] fd f = []
set_entry (o ∷ os) zero f = f ∷ os
set_entry (o ∷ os) (suc fd) f = o ∷ set_entry os fd f

abbrev pub with_fd : ℕ → Option ℕ → Option (ℕ × ℕ)
with_fd fd none = none
with_fd fd (some f) = some (fd, f)

abbrev pub file_of : User → Option ℕ → Option (ℕ × ℕ)
file_of u none = none
file_of u (some fd) =
    if leb (2 ^ 31) fd || leb nofile fd then none else with_fd fd (entry u.ofile fd)

-- the descriptor and its file
unfoldable pub argfd : User → ℕ → Option (ℕ × ℕ)
unfolding argint
argfd u n = file_of u (argint u n)

-- the loop of `fdalloc` over the descriptors from `fd` on
unfoldable pub free_fd : List (Option ℕ) → (fd : ℕ) → Option ℕ
free_fd [] fd = none
free_fd (none ∷ os) fd = some fd
free_fd (some f ∷ os) fd = free_fd os (fd + 1)

abbrev pub given : User → ℕ → Option ℕ → Option (ℕ × User)
given u f none = none
given u f (some fd) = some (fd, record u { ofile = set_entry u.ofile fd (some f) })

unfoldable pub fdalloc : User → ℕ → Option (ℕ × User)
unfolding free_fd
fdalloc u f = given u f (free_fd u.ofile 0)

-- a call of file.c
pub data Call : Type 0 where
  filedup fileclose : ℕ → Call

-- `sys_dup`: the new descriptor, the process behind the call, and the calls made
abbrev pub duplicated : ℕ → Option (ℕ × User) → Option (ℕ × User × List Call)
duplicated f none = none
duplicated f (some (fd, u)) = some (fd, u, filedup f ∷ [])

abbrev pub dup_of : User → Option (ℕ × ℕ) → Option (ℕ × User × List Call)
dup_of u none = none
dup_of u (some (_, f)) = duplicated f (given u f (free_fd u.ofile 0))

unfoldable pub sys_dup : User → Option (ℕ × User × List Call)
unfolding argfd free_fd
sys_dup u = dup_of u (argfd u 0)

abbrev pub close_of : User → Option (ℕ × ℕ) → Option (User × List Call)
close_of u none = none
close_of u (some (fd, f)) = some (record u { ofile = set_entry u.ofile fd none }, fileclose f ∷ [])

unfoldable pub sys_close : User → Option (User × List Call)
unfolding argfd
sys_close u = close_of u (argfd u 0)
