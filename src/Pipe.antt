-- ===== src/Pipe.antt =====
-- pipe.c: the bounded byte queue between a writer and a reader. A call runs under the pipe's lock
-- until it returns or sleeps; a sleeping call gives up the lock and goes on later, from where it
-- stood, in whatever state it finds. The channels on which a run calls `wakeup` are part of its
-- result.
pub mod Queue
pub mod Stream
pub mod Fifo
mod Tests
use fp_sisop20_f.Base.{
  ℕ, zero, suc, ◌+◌, ◌%◌, Bool, true, false, ◌&&◌, ◌||◌, not, List, [], ◌∷◌, ◌==◌, if◌then◌else◌,
  length, get_or, set, take, add32, ℤ, pos, minus_one, nonneg_part, replicate,
}

-- PIPESIZE
abbrev pub pipe_size : ℕ
pipe_size = 512

-- `struct pipe` without its lock. Bytes are only moved, so a byte is any number.
pub record Pipe : Type 0 where
  pub bytes : List ℕ
  pub nread : ℕ
  pub nwrite : ℕ
  pub readopen : Bool
  pub writeopen : Bool

-- the two channels of a pipe: `&p->nread`, on which readers sleep, and `&p->nwrite`
pub data Channel : Type 0 where
  readers writers : Channel

-- How a run ends. A writer that sleeps has the bytes `rest` still to write.
pub data Outcome : Type 0 where
  returned : ℤ → Outcome
  asleep : Channel → (rest : List ℕ) → Outcome

-- what `pipealloc` leaves in a fresh page with contents `page`
unfoldable pub fresh_pipe : List ℕ → Pipe
fresh_pipe page = record { bytes = page; nread = 0; nwrite = 0; readopen = true; writeopen = true }

abbrev pub is_full : Pipe → Bool
is_full p = p.nwrite == add32 p.nread pipe_size

abbrev pub is_empty : Pipe → Bool
is_empty p = p.nread == p.nwrite

-- `p->data[p->nwrite++ % PIPESIZE] = c`
unfoldable pub put : Pipe → ℕ → Pipe
put p c = record p { bytes = set p.bytes (p.nwrite % pipe_size) c; nwrite = add32 p.nwrite 1 }

-- `p->data[p->nread++ % PIPESIZE]`
unfoldable pub get : Pipe → ℕ × Pipe
get p = (get_or p.bytes (p.nread % pipe_size) 0, record p { nread = add32 p.nread 1 })

-- The loop of `pipewrite` over the bytes that are left, run until it returns or sleeps.
unfoldable pub write_loop : (killed : Bool) → ℤ → Pipe → List ℕ → Pipe × List Channel × Outcome
unfolding put
write_loop killed n p [] = (p, readers ∷ [], returned n)
write_loop killed n p (c ∷ cs) =
    let rest = write_loop killed n (put p c) cs in
    if is_full p
    then (if not p.readopen || killed
        then (p, [], returned minus_one)
        else (p, readers ∷ [], asleep writers (c ∷ cs)))
    else rest

-- `addr` is the caller's memory from `addr` on.
unfoldable pub pipewrite :
    (killed : Bool) → Pipe → (addr : List ℕ) → (n : ℤ) → Pipe × List Channel × Outcome
unfolding write_loop
pipewrite killed p addr n = write_loop killed n p (take (nonneg_part n) addr)

-- The copy loop of `piperead`: at most `n` bytes, in the order read.
unfoldable pub read_loop : Pipe → ℕ → Pipe × List ℕ
unfolding get
read_loop p zero = (p, [])
read_loop p (suc n) =
    let (c, p') = get p in
    let (p'', cs) = read_loop p' n in if is_empty p then (p, []) else (p'', c ∷ cs)

-- The bytes that it stores at `addr` are the middle part of the result. Nothing is kept across a
-- sleep, so a sleeping reader starts again.
unfoldable pub piperead : (killed : Bool) → Pipe → (n : ℤ) → Pipe × List ℕ × List Channel × Outcome
unfolding read_loop
piperead killed p n =
    if is_empty p && p.writeopen
    then (if killed then (p, [], [], returned minus_one) else (p, [], [], asleep readers []))
    else (let (p', cs) = read_loop p (nonneg_part n) in
        (p', cs, writers ∷ [], returned (pos (length cs))))

-- The last part tells whether the page is freed.
unfoldable pub pipeclose : Pipe → (writable : Bool) → Pipe × List Channel × Bool
pipeclose p writable =
    let p' = if writable then record p { writeopen = false } else record p { readopen = false } in
    (p', (if writable then readers else writers) ∷ [], not p'.readopen && not p'.writeopen)
