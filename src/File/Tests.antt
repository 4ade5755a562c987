-- ===== src/File/Tests.antt =====
-- A file table with one open file, and witnesses that the theorems on it apply.
use fp_sisop20_f.Base.{◌≡◌, refl, arith, true, false, List, pos, ok, ◌==◌, if◌then◌else◌}
use fp_sisop20_f.File.{Files, File, fd_none, fd_inode, filewrite, Call}
use fp_sisop20_f.File.Chunks.{Carries, filewrite_lem}

abbrev free : File
free = record {
  type = fd_none;
  ref = 0;
  readable = false;
  writable = false;
  pipe = 0;
  ip = 0;
  off = 0;
}

abbrev opened : File
opened = record free { type = fd_inode; ref = 1; writable = true; ip = 4 }

abbrev files : Files
files i = if i == 0 then opened else free

filewrite_lem_example :
    (calls : List Call) × (filewrite (pos 0) (λ i off m. pos m) opened (pos 4000)
      ≡ ok (pos 4000, record opened { off = 4000 }, calls))
    × Carries 4 0 0 4000 calls
filewrite_lem_example =
    filewrite_lem (pos 0) (λ i off m. pos m) 4000 opened refl refl (omega arith) (λ i off m l. refl)
