-- ===== src/Dir/Tests.antt =====
-- An empty directory and a path, and witnesses that the theorems on them apply.
use fp_sisop20_f.Base.{ℕ, ◌≡◌, refl, arith, none, Option, List, [], ◌∷◌, ok, ltb}
use fp_sisop20_f.Inode.{Dinode}
use fp_sisop20_f.Content.{Fs}
use fp_sisop20_f.Dir.{Name, t_dir, dirlookup}
use fp_sisop20_f.Dir.Lookup.{IsDirectory, Finds, dirlookup-Finds}

abbrev some_device : Fs
some_device = record {
  size = 100;
  ninodes = 16;
  used = λ b. ltb b 30;
  blocks = λ _ _. 5;
  logged = [];
}

-- one entry, in block 20
abbrev one_entry : Dinode
one_entry = record { type = t_dir; major = 0; minor = 0; nlink = 1; size = 16; addrs = λ _. 20 }

one_entry-IsDirectory : IsDirectory one_entry some_device
one_entry-IsDirectory = record {
  kind = refl;
  whole = refl;
  bounded = omega arith;
  full = λ x l. ground arith;
}

abbrev fives : Name
fives = λ _. 5

dirlookup-Finds_example :
    (o : Option (ℕ × ℕ)) × (dirlookup (λ _. none) fives one_entry some_device
      ≡ ok (o, one_entry, some_device))
    × Finds (λ _. none) fives one_entry some_device 0 o
dirlookup-Finds_example =
    dirlookup-Finds (λ _. none) fives one_entry some_device one_entry-IsDirectory

-- /a//bb
abbrev a_path : List ℕ
a_path = 47 ∷ 97 ∷ 47 ∷ 47 ∷ 98 ∷ 98 ∷ []
