-- ===== src/Pipe/Fifo.antt =====
-- Any sequence of runs on one pipe: what is read is what was written, in order.
use fp_sisop20_f.Base.{
  ℕ, ◌≡◌, refl, ◌∙◌, ap, sym, Bool, true, false, ◌&&◌, List, [], ◌∷◌, ◌++◌, append-nil,
  append_assoc, arith, inl, inr, length, length-append, take, take-nil, drop_all, length-take,
  take-append-drop, take-min, sub32, if◌then◌else◌, Bool-cases, ℤ, pos, minus_one, nonneg_part, min,
}
use fp_sisop20_f.Pipe.{
  Pipe, readers, Outcome, returned, asleep, is_empty, pipewrite, piperead, pipeclose,
}
use fp_sisop20_f.Pipe.Queue.{IsValid, contents, contents_of_empty, get_lem}
use fp_sisop20_f.Pipe.Stream.{
  room, Wrote, pipewrite-Wrote, Delivered, read_loop-Delivered, held-contents,
}

abbrev pub is_nil : List ℕ → Bool
is_nil [] = true
is_nil (_ ∷ _) = false

-- how a read of a pipe that holds `q` ends, when it has delivered `cs`
abbrev pub read_outcome : Bool → Pipe → List ℕ → Outcome
read_outcome killed p cs =
    if is_nil (contents p) && p.writeopen
    then (if killed then returned minus_one else asleep readers [])
    else returned (pos (length cs))

is_nil-contents : {p : Pipe} → IsValid p → is_nil (contents p) ≡ is_empty p
is_nil-contents {p} v = elim (Bool-cases (is_empty p)) [
  | inl e ↦ rw (contents_of_empty v e, e)
  | inr e ↦ rw ((get_lem v e).1, e)
]

nothing-Delivered : (p : Pipe) (n : ℕ) → IsValid p → is_empty p ≡ true → Delivered p n p []
nothing-Delivered p n v e = record {
  valid = v;
  oldest = rw (contents_of_empty v e, take-nil);
  queue = rw (contents_of_empty v e) (sym (drop_all n [] (omega arith)));
  writer = refl;
  ends = (refl, refl);
}

-- A read of a valid pipe delivers the oldest bytes that it holds, at most `n`, and removes exactly
-- those. It returns their number, 0 at the end of the stream; only where the pipe is empty and the
-- writing end open does it sleep instead, or return -1 if the reader was killed.
pub piperead-Delivered :
    (killed : Bool) (p : Pipe) (n : ℤ)
    → IsValid p
    → Delivered p (nonneg_part n) (piperead killed p n).0 (piperead killed p n).1
      × ((piperead killed p n).3 ≡ read_outcome killed p (piperead killed p n).1)
unfolding piperead
piperead-Delivered killed p n v =
    let e = is_nil-contents v in
    elim (Bool-cases (is_empty p && p.writeopen)) [
      | inl b ↦
          rw (e, b)
            (elim (Bool-cases killed) [
              | inl k ↦ rw k (nothing-Delivered p (nonneg_part n) v (ground arith), refl)
              | inr k ↦ rw k (nothing-Delivered p (nonneg_part n) v (ground arith), refl)
            ])
      | inr b ↦ rw (e, b) (read_loop-Delivered p (nonneg_part n) v, refl)
    ]

-- The calls on a pipe; a sleeping call that goes on is a new event.
pub data Event : Type 0 where
  write_call : (killed : Bool) → (addr : List ℕ) → (n : ℤ) → Event
  read_call : (killed : Bool) → (n : ℤ) → Event
  close_call : (writable : Bool) → Event

-- The bytes that a write put into the pipe: `nwrite` counts them.
abbrev pub taken_in : Pipe → Pipe → List ℕ → List ℕ
taken_in p p' cs = take (sub32 p'.nwrite p.nwrite) cs

-- the bytes accepted and delivered, in order, and the pipe at the end
pub run : Pipe → List Event → List ℕ × List ℕ × Pipe
run p [] = ([], [], p)
run p (write_call killed addr n ∷ es) =
    let p' = (pipewrite killed p addr n).0 in
    let (accepted, delivered, q) = run p' es in
    (taken_in p p' (take (nonneg_part n) addr) ++ accepted, delivered, q)
run p (read_call killed n ∷ es) =
    let r = piperead killed p n in
    let (accepted, delivered, q) = run r.0 es in (accepted, r.1 ++ delivered, q)
run p (close_call writable ∷ es) = run (pipeclose p writable).0 es

taken_in_lem :
    {killed : Bool} {n : ℤ} {p : Pipe} {cs : List ℕ} {p' : Pipe} {o : Outcome}
    → IsValid p
    → Wrote killed n p cs p' o
    → contents p' ≡ contents p ++ taken_in p p' cs
taken_in_lem {p} {cs} {p'} v w =
    let l = ap length w.queue in
    let m = length-append (contents p) (take (room p) cs) in
    let k = length-take (room p) cs in
    let e : sub32 p'.nwrite p.nwrite ≡ min (room p) (length cs) = omega (
      arith,
      l,
      m,
      k,
      held-contents p,
      held-contents p',
      v.bounded,
      w.valid.bounded,
      w.reader,
      v.read_word,
      v.write_word,
      w.valid.write_word,
    ) in
    rw e (w.queue ∙ ap (λ t. contents p ++ t) (take-min (room p) cs))

close-contents :
    (p : Pipe) (writable : Bool)
    → IsValid p
    → IsValid (pipeclose p writable).0 × (contents (pipeclose p writable).0 ≡ contents p)
unfolding pipeclose
close-contents p true v = (omega arith, refl)
close-contents p false v = (omega arith, refl)

-- However writes, reads and closes of a valid pipe follow one another, sleeps included, the bytes
-- read and then those still held are the bytes held at first and then those that the writes
-- accepted, in the same order: none is lost, repeated or reordered.
pub run_fifo :
    (p : Pipe) (es : List Event)
    → IsValid p
    → let (accepted, delivered, q) = run p es in delivered ++ contents q ≡ contents p ++ accepted
unfolding run
run_fifo p [] v = sym (append-nil (contents p))
run_fifo p (write_call killed addr n ∷ es) v =
    let w = pipewrite-Wrote killed p addr n v in
    run_fifo (pipewrite killed p addr n).0 es w.valid
    ∙ rw (taken_in_lem v w) (append_assoc (contents p) _ _)
run_fifo p (read_call killed n ∷ es) v =
    let (d, _) = piperead-Delivered killed p n v in
    let whole : (piperead killed p n).1 ++ contents (piperead killed p n).0 ≡ contents p =
      rw (d.oldest, d.queue) (take-append-drop (nonneg_part n) (contents p)) in
    append_assoc (piperead killed p n).1 _ _
    ∙ ap (λ t. (piperead killed p n).1 ++ t) (run_fifo (piperead killed p n).0 es d.valid)
    ∙ sym (append_assoc (piperead killed p n).1 _ _)
    ∙ ap (λ t. t ++ (run (piperead killed p n).0 es).0) whole
run_fifo p (close_call writable ∷ es) v =
    let (v', e) = close-contents p writable v in rw (← e) (run_fifo (pipeclose p writable).0 es v')
