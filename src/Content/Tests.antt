-- ===== src/Content/Tests.antt =====
-- A device with one short file, and witnesses that the theorems on its contents apply.
use fp_sisop20_f.Base.{◌≡◌, inl, arith, none, [], ok, ltb, ◌==◌, if◌then◌else◌, minus_one}
use fp_sisop20_f.Inode.{Dinode}
use fp_sisop20_f.Content.{Fs, writei}
use fp_sisop20_f.Content.Writei.{writei_refuses}

abbrev device : Fs
device = record { size = 100; ninodes = 16; used = λ b. ltb b 30; blocks = λ _ _. 0; logged = [] }

-- three bytes, in block 20
abbrev short_file : Dinode
short_file = record {
  type = 2;
  major = 0;
  minor = 0;
  nlink = 1;
  size = 3;
  addrs = λ i. if i == 0 then 20 else 0;
}

writei_refuses_example :
    writei (λ _. none) 4 4 1 (λ i. i) short_file device ≡ ok (minus_one, short_file, device)
writei_refuses_example =
    writei_refuses (λ _. none) 4 4 1 (λ i. i) short_file device (omega arith) (omega arith)
      (omega arith) (inl (omega arith))
