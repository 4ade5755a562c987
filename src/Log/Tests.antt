-- ===== src/Log/Tests.antt =====
-- A log on an empty disk, and witnesses that the theorems on transactions apply to it.
use fp_sisop20_f.Base.{◌≡◌, refl, arith, true, false, [], ◌∷◌, ok, some}
use fp_sisop20_f.Log.{Block, Log, modify, begin_trans, commit_trans, find_slot, log_slot, log_write}
use fp_sisop20_f.Log.Commit.{IsOpen}
use fp_sisop20_f.Log.Write.{Writes, write_all, transaction}
use fp_sisop20_f.Log.Atomic.{IsIdle, Atomic, transaction-Atomic, transaction_fits}

abbrev empty_log : Log
empty_log = record {
  start = 20;
  size = 10;
  busy = false;
  n = 0;
  sector = λ _. 0;
  cache = λ _ _. 0;
  disk = λ _ _. 0;
  history = [];
}

abbrev open_log : Log
open_log = record empty_log { busy = true }

abbrev sevens : Block
sevens = λ _. 7

abbrev one_write : Writes
one_write = (3, sevens) ∷ []

abbrev final_log : Log
final_log = commit_trans (log_slot 3 0 (modify 3 sevens open_log))

open_log-IsOpen : IsOpen open_log
open_log-IsOpen = record {
  few = omega arith;
  home = λ j lt. absurd (omega arith);
  distinct = λ j k lt m e. absurd (omega arith);
  logged = λ j lt. absurd (omega arith);
  cached = λ j lt. absurd (omega arith);
  coherent = λ a la u. refl;
  clear = refl;
}

empty_log-IsIdle : IsIdle empty_log
empty_log-IsIdle = record {
  nothing = refl;
  consistent = record {
    few = omega arith;
    home = λ j lt. absurd (omega arith);
    distinct = λ j k lt m e. absurd (omega arith);
    logged = λ j lt. absurd (omega arith);
    cached = λ j lt. absurd (omega arith);
    coherent = λ a la u. refl;
    clear = refl;
  };
  crashless = refl;
}

begun : begin_trans empty_log ≡ some open_log
unfolding begin_trans
begun = refl

performed : transaction one_write open_log ≡ ok final_log
unfolding transaction write_all log_write find_slot modify
performed = refl

transaction-Atomic_example : Atomic one_write empty_log final_log
transaction-Atomic_example =
    transaction-Atomic one_write empty_log open_log final_log empty_log-IsIdle (omega arith, tt)
      begun performed

transaction_fits_example :
    (l l' : Log) × (begin_trans empty_log ≡ some l) × (transaction one_write l ≡ ok l')
transaction_fits_example =
    transaction_fits one_write empty_log empty_log-IsIdle refl (omega arith) (omega arith)
