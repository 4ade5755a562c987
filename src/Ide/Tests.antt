-- ===== src/Ide/Tests.antt =====
-- A queue of one request, and witnesses that the theorems on the disk apply.
use fp_sisop20_f.Base.{
  ℕ, ◌≡◌, ◌≤◌, refl, arith, true, false, none, some, List, [], ◌∷◌, ◌++◌, ok, length, min,
}
use fp_sisop20_f.Bcache.{Buf}
use fp_sisop20_f.Ide.{Ide, ideintr, commands}
use fp_sisop20_f.Ide.Fifo.{IsSound, Serves, ideintr-Serves}
use fp_sisop20_f.Ide.Trace.{Event, request, interrupt, run, run-requests}
use fp_sisop20_f.Ide.Address.{sector_of, drive_of, commands_lem}

abbrev written : Buf
written = record {
  dev = 1;
  sector = 70000;
  busy = true;
  valid = true;
  dirty = true;
  bytes = λ i. i;
}

abbrev wanted : Buf
wanted = record written { sector = 3; valid = false; dirty = false }

abbrev one_queued : Ide
one_queued = record {
  bufs = λ _. written;
  qnext = λ _. none;
  idequeue = some 3;
  havedisk1 = true;
  sent = commands written ∷ [];
}

one_queued-IsSound : IsSound one_queued (3 ∷ [])
one_queued-IsSound = record {
  linked = (refl, refl);
  apart = (refl, tt);
  started = ([], refl);
  waiting = λ j m. refl;
}

abbrev events : List Event
events = request 5 wanted ∷ interrupt none ∷ interrupt (some (λ i. 7)) ∷ interrupt none ∷ []

run-requests_example :
    (woken : List ℕ) × (left : List ℕ) × (s' : Ide) × (run 10 events one_queued ≡ ok (woken, s'))
    × IsSound s' left
    × (woken ++ left ≡ 3 ∷ 5 ∷ [])
    × (min 3 1 ≤ length woken)
run-requests_example =
    run-requests 10 events one_queued (3 ∷ []) one_queued-IsSound
      (refl, omega arith, refl, refl, refl, tt)

ideintr-Serves_example :
    (s' : Ide) × (ideintr none one_queued ≡ ok (some 3, s')) × Serves none one_queued 3 [] s'
ideintr-Serves_example = ideintr-Serves none one_queued 3 [] one_queued-IsSound

commands_lem_example : (sector_of (commands written) ≡ 70000) × (drive_of (commands written) ≡ 1)
commands_lem_example = commands_lem written (omega arith) (omega arith)
