-- ===== src/Pipe/Queue.antt =====
-- The bytes that a pipe holds, as a queue: `put` appends and `get` removes the oldest, also where
-- the 32-bit counters wrap round.
use fp_sisop20_f.Base.{
  ℕ, zero, suc, ◌+◌, ◌%◌, ◌≤◌, ◌<◌, ◌≡◌, ◌≢◌, refl, ◌∙◌, ap, ap₂, true, false, List, [], ◌∷◌, ◌++◌,
  arith, length, get_or, set, length-set, get_or-set_self, get_or-set_ne, add32, sub32, word,
}
use fp_sisop20_f.Pipe.{Pipe, pipe_size, is_full, is_empty, put, get, fresh_pipe}

-- the `k` bytes from counter value `h` on
unfoldable pub window : List ℕ → ℕ → ℕ → List ℕ
window bytes h zero = []
window bytes h (suc k) = get_or bytes (h % pipe_size) 0 ∷ window bytes (add32 h 1) k

-- how many bytes a pipe holds
abbrev pub held : Pipe → ℕ
held p = sub32 p.nwrite p.nread

abbrev pub contents : Pipe → List ℕ
contents p = window p.bytes p.nread (held p)

pub record IsValid (p : Pipe) : Type 0 where
  pub room : length p.bytes ≡ pipe_size
  pub read_word : p.nread < word
  pub write_word : p.nwrite < word
  pub bounded : held p ≤ pipe_size

pub length-window : (bytes : List ℕ) (h k : ℕ) → length (window bytes h k) ≡ k
unfolding window
length-window bytes h zero = refl
length-window bytes h (suc k) = ap suc (length-window bytes (add32 h 1) k)

window-set :
    (bytes : List ℕ) (x n h i : ℕ)
    → length bytes ≡ pipe_size
    → n < pipe_size
    → i % pipe_size ≡ (h + n) % pipe_size
    → window (set bytes (i % pipe_size) x) h (suc n) ≡ window bytes h n ++ (x ∷ [])
unfolding window
window-set bytes x zero h i l lt e = ground (arith, get_or-set_self bytes (i % pipe_size) x 0)
window-set bytes x (suc n) h i l lt e =
    ap₂ ◌∷◌ (get_or-set_ne bytes (i % pipe_size) (h % pipe_size) x 0 (omega arith))
      (window-set bytes x n (add32 h 1) i l (omega arith) (omega arith))

-- A byte put into a pipe that is not full goes to the end of the queue.
pub put_lem :
    {p : Pipe} (c : ℕ)
    → IsValid p
    → is_full p ≡ false
    → IsValid (put p c) × (contents (put p c) ≡ contents p ++ (c ∷ []))
unfolding put
put_lem {p} c v h =
    let lt : held p < pipe_size = ground arith in
    let e : sub32 (add32 p.nwrite 1) p.nread ≡ suc (held p) = omega arith in
    (
      record {
        room = length-set p.bytes (p.nwrite % pipe_size) c ∙ v.room;
        read_word = v.read_word;
        write_word = omega arith;
        bounded = omega arith;
      },
      rw e (window-set p.bytes c (held p) p.nread p.nwrite v.room lt (omega arith)),
    )

window-pred :
    (bytes : List ℕ) (h k j : ℕ)
    → k ≡ suc j
    → window bytes h k ≡ get_or bytes (h % pipe_size) 0 ∷ window bytes (add32 h 1) j
unfolding window
window-pred bytes h k j e = rw e

-- A byte got from a pipe that is not empty is the oldest of the queue.
pub get_lem :
    {p : Pipe}
    → IsValid p
    → is_empty p ≡ false
    → IsValid (get p).1 × (contents p ≡ (get p).0 ∷ contents (get p).1)
unfolding get
get_lem {p} v h =
    let ne : p.nread ≢ p.nwrite = ground arith in
    let e : held p ≡ suc (sub32 p.nwrite (add32 p.nread 1)) = omega arith in
    (
      record {
        room = v.room;
        read_word = omega arith;
        write_word = v.write_word;
        bounded = omega arith;
      },
      window-pred p.bytes p.nread (held p) _ e,
    )

pub contents_of_empty : {p : Pipe} → IsValid p → is_empty p ≡ true → contents p ≡ []
unfolding window
contents_of_empty {p} v h = let e : held p ≡ 0 = ground arith in rw e

pub fresh_pipe_lem :
    (page : List ℕ)
    → length page ≡ pipe_size
    → IsValid (fresh_pipe page) × (contents (fresh_pipe page) ≡ [])
unfolding fresh_pipe window
fresh_pipe_lem page l = (
  record { room = l; read_word = omega arith; write_word = omega arith; bounded = omega arith },
  refl,
)
