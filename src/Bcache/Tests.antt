-- ===== src/Bcache/Tests.antt =====
-- A disk of four sectors, and witnesses that the theorems on the buffer cache apply.
use fp_sisop20_f.Base.{◌≡◌, refl, arith, ok, [], ◌∷◌, true, false, update}
use fp_sisop20_f.Bcache.{
  Buf, Bcache, Disk, bread, bwrite, brelse, binit, held, wakes, insert_loop, find_cached,
  find_clean, bget, put_buf, iderw,
}
use fp_sisop20_f.Bcache.Store.{IsStore}
use fp_sisop20_f.Bcache.Transfer.{read_buf}
use fp_sisop20_f.Bcache.Writes.{edit, store_at}
use fp_sisop20_f.Bcache.Release.{bwrite-Stores}
use fp_sisop20_f.Bcache.Empty.{on_disk, binit-IsStore}

abbrev small_disk : Disk
small_disk = record { disksize = 4; memory = λ a. a }

empty-IsStore : IsStore (on_disk small_disk) binit small_disk
empty-IsStore = binit-IsStore small_disk (omega arith)

abbrev taken_buf : Buf
taken_buf = record {
  dev = 1;
  sector = 3;
  busy = true;
  valid = false;
  dirty = false;
  bytes = λ _. 0;
}

-- buffer 0, the last of the list, filled with sector 3
abbrev cache_with_3 : Bcache
cache_with_3 = put_buf 0 (read_buf taken_buf small_disk) (put_buf 0 taken_buf binit)

bread_3 : bread 1 3 binit small_disk ≡ ok (held 0 cache_with_3, small_disk)
unfolding bread bget iderw binit insert_loop find_cached find_clean update
bread_3 = refl

bwrite-Stores_example :
    (c2 : Bcache) × (m2 : Disk) × (c3 : Bcache) × (bwrite 0
        (edit 0 (λ k. k) cache_with_3)
        small_disk
      ≡ ok (c2, m2))
    × (brelse 0 c2 ≡ ok (c3, wakes 0 ∷ []))
    × (m2.disksize ≡ 4)
    × IsStore (store_at 3 (λ k. k) (on_disk small_disk)) c3 m2
bwrite-Stores_example =
    bwrite-Stores (on_disk small_disk) 3 0 binit cache_with_3 small_disk small_disk (λ k. k)
      empty-IsStore (omega arith) bread_3
