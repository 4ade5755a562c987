-- ===== src/Pipe/Tests.antt =====
-- A fresh pipe, and witnesses that the theorems on pipes apply to it.
use fp_sisop20_f.Base.{
  ℕ, ◌≡◌, refl, true, false, List, [], ◌∷◌, ◌++◌, replicate, pos, nonneg_part, take,
}
use fp_sisop20_f.Pipe.{Pipe, pipe_size, fresh_pipe, pipewrite, piperead}
use fp_sisop20_f.Pipe.Queue.{IsValid, contents, fresh_pipe_lem}
use fp_sisop20_f.Pipe.Stream.{Wrote, pipewrite-Wrote, Delivered}
use fp_sisop20_f.Pipe.Fifo.{
  Event, write_call, read_call, close_call, run, run_fifo, piperead-Delivered, read_outcome,
}

abbrev zeros : List ℕ
zeros = replicate pipe_size 0

abbrev empty_pipe : Pipe
empty_pipe = fresh_pipe zeros

empty_pipe-IsValid : IsValid empty_pipe
empty_pipe-IsValid = (fresh_pipe_lem zeros refl).0

abbrev talk : List Event
talk =
    write_call false (1 ∷ 2 ∷ 3 ∷ []) (pos 3)
    ∷ read_call false (pos 2)
    ∷ close_call true
    ∷ read_call false (pos 9)
    ∷ []

run_fifo_example :
    let (accepted, delivered, q) = run empty_pipe talk in
    delivered ++ contents q ≡ contents empty_pipe ++ accepted
run_fifo_example = run_fifo empty_pipe talk empty_pipe-IsValid

pipewrite-Wrote_example :
    Wrote false
      (pos 2)
      empty_pipe
      (take (nonneg_part (pos 2)) (5 ∷ 6 ∷ 7 ∷ []))
      (pipewrite false empty_pipe (5 ∷ 6 ∷ 7 ∷ []) (pos 2)).0
      (pipewrite false empty_pipe (5 ∷ 6 ∷ 7 ∷ []) (pos 2)).2
pipewrite-Wrote_example =
    pipewrite-Wrote false empty_pipe (5 ∷ 6 ∷ 7 ∷ []) (pos 2) empty_pipe-IsValid

piperead-Delivered_example :
    Delivered empty_pipe
      (nonneg_part (pos 4))
      (piperead false empty_pipe (pos 4)).0
      (piperead false empty_pipe (pos 4)).1
    × ((piperead false empty_pipe (pos 4)).3
        ≡ read_outcome false empty_pipe (piperead false empty_pipe (pos 4)).1)
piperead-Delivered_example = piperead-Delivered false empty_pipe (pos 4) empty_pipe-IsValid
