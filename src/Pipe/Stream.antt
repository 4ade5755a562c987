-- ===== src/Pipe/Stream.antt =====
-- pipewrite and piperead against an unbounded list of bytes of which at most PIPESIZE are held.
use fp_sisop20_f.Base.{
  ℕ, zero, suc, ◌-◌, ◌≡◌, refl, ◌∙◌, ap, sym, Bool, true, false, ◌||◌, not, List, [], ◌∷◌, ◌++◌,
  append-nil, append_assoc, arith, inl, inr, length, length-append, take, drop, take-nil, leb,
  if◌then◌else◌, Bool-cases, ℤ, minus_one, nonneg_part,
}
use fp_sisop20_f.Pipe.{
  Pipe, pipe_size, Channel, readers, writers, Outcome, returned, asleep, is_full, is_empty, put,
  get, write_loop, pipewrite, read_loop,
}
use fp_sisop20_f.Pipe.Queue.{
  IsValid, held, contents, length-window, put_lem, get_lem, contents_of_empty,
}

-- how many bytes still fit
abbrev pub room : Pipe → ℕ
room p = pipe_size - held p

-- how a write of `cs` ends
abbrev pub write_outcome : Bool → ℤ → Pipe → List ℕ → Outcome
write_outcome killed n p cs =
    if leb (length cs) (room p)
    then returned n
    else (if not p.readopen || killed
        then returned minus_one
        else asleep writers (drop (room p) cs))

-- what a write leaves
pub record Wrote (killed : Bool) (n : ℤ) (p : Pipe) (cs : List ℕ) (p' : Pipe) (o : Outcome)
    : Type 0 where
  pub valid : IsValid p'
  pub queue : contents p' ≡ contents p ++ take (room p) cs
  pub outcome : o ≡ write_outcome killed n p cs
  pub reader : p'.nread ≡ p.nread
  pub ends : (p'.readopen ≡ p.readopen) × (p'.writeopen ≡ p.writeopen)

pub held-contents : (p : Pipe) → length (contents p) ≡ held p
held-contents p = length-window p.bytes p.nread (held p)

module _ (killed : Bool) (n : ℤ) where
  write_full :
      {p : Pipe} (c : ℕ) (cs : List ℕ)
      → IsValid p
      → is_full p ≡ true
      → Wrote killed n p
          (c ∷ cs)
          p
          (if not p.readopen || killed then returned minus_one else asleep writers (c ∷ cs))
  write_full {p} c cs v h =
      let e : room p ≡ 0 = ground arith in
      record {
        valid = v;
        queue = rw e (sym (append-nil (contents p)));
        outcome = rw e (ground arith);
        reader = refl;
        ends = (refl, refl);
      }

  put_first :
      {p : Pipe} (c : ℕ) (cs : List ℕ) {p' : Pipe} {o : Outcome}
      → IsValid p
      → is_full p ≡ false
      → Wrote killed n (put p c) cs p' o
      → Wrote killed n p (c ∷ cs) p' o
  unfolding put
  put_first {p} c cs v h w =
      let (v', q) = put_lem c v h in
      let e : room p ≡ suc (room (put p c)) = omega (
        arith,
        v.bounded,
        ap length q,
        held-contents p,
        held-contents (put p c),
        length-append (contents p) (c ∷ []),
      ) in
      record {
        valid = w.valid;
        queue =
            rw e (w.queue ∙ rw q (append_assoc (contents p) (c ∷ []) (take (room (put p c)) cs)));
        outcome = w.outcome ∙ rw e (ground arith);
        reader = w.reader;
        ends = w.ends;
      }

  -- what a full pipe answers
  abbrev stuck : Pipe → List ℕ → Pipe × List Channel × Outcome
  stuck p cs =
      if not p.readopen || killed
      then (p, [], returned minus_one)
      else (p, readers ∷ [], asleep writers cs)

  stuck-Wrote :
      (p : Pipe) (c : ℕ) (cs : List ℕ)
      → IsValid p
      → is_full p ≡ true
      → Wrote killed n p (c ∷ cs) (stuck p (c ∷ cs)).0 (stuck p (c ∷ cs)).2
  stuck-Wrote p c cs v h = elim (Bool-cases (not p.readopen || killed)) [
    | inl e ↦ rw e (rw e at (write_full c cs v h))
    | inr e ↦ rw e (rw e at (write_full c cs v h))
  ]

  write_loop-Wrote :
      (p : Pipe) (cs : List ℕ)
      → IsValid p
      → Wrote killed n p cs (write_loop killed n p cs).0 (write_loop killed n p cs).2
  unfolding write_loop
  write_loop-Wrote p [] v = record {
    valid = v;
    queue = rw (take-nil, append-nil);
    outcome = ground arith;
    reader = refl;
    ends = (refl, refl);
  }
  write_loop-Wrote p (c ∷ cs) v = elim (Bool-cases (is_full p)) [
    | inl e ↦ rw e (stuck-Wrote p c cs v e)
    | inr e ↦ rw e (put_first c cs v e (write_loop-Wrote (put p c) cs (put_lem c v e).0))
  ]

-- A write to a valid pipe appends as many of the `n` bytes at `addr` as fit. If all fit it returns
-- `n`; else it returns -1 where the reading end is closed or the writer was killed, and sleeps with
-- exactly the other bytes left where not.
pub pipewrite-Wrote :
    (killed : Bool) (p : Pipe) (addr : List ℕ) (n : ℤ)
    → IsValid p
    → Wrote killed n p
        (take (nonneg_part n) addr)
        (pipewrite killed p addr n).0
        (pipewrite killed p addr n).2
unfolding pipewrite
pipewrite-Wrote killed p addr n v = write_loop-Wrote killed n p (take (nonneg_part n) addr) v

-- what a read of `n` bytes leaves
pub record Delivered (p : Pipe) (n : ℕ) (p' : Pipe) (cs : List ℕ) : Type 0 where
  pub valid : IsValid p'
  pub oldest : cs ≡ take n (contents p)
  pub queue : contents p' ≡ drop n (contents p)
  pub writer : p'.nwrite ≡ p.nwrite
  pub ends : (p'.readopen ≡ p.readopen) × (p'.writeopen ≡ p.writeopen)

pub read_loop-Delivered :
    (p : Pipe) (n : ℕ) → IsValid p → Delivered p n (read_loop p n).0 (read_loop p n).1
unfolding read_loop
read_loop-Delivered p zero v = record {
  valid = v;
  oldest = refl;
  queue = refl;
  writer = refl;
  ends = (refl, refl);
}
read_loop-Delivered p (suc n) v = elim (Bool-cases (is_empty p)) [
  | inl e ↦ rw e (record {
    valid = v;
    oldest = rw (contents_of_empty v e);
    queue = rw (contents_of_empty v e);
    writer = refl;
    ends = (refl, refl);
  })
  | inr e ↦
      let (v', q) = get_lem v e in
      let rest = read_loop-Delivered (get p).1 n v' in
      rw e (record {
        valid = rest.valid;
        oldest = rw q (ap (λ l. (get p).0 ∷ l) rest.oldest);
        queue = rw q rest.queue;
        writer = rest.writer ∙ (unfold get in refl);
        ends = (rest.ends.0 ∙ (unfold get in refl), rest.ends.1 ∙ (unfold get in refl));
      })
]
