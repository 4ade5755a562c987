-- ===== src/Vfs/Sample.antt =====
-- A root directory with one file in it, cached in slot 0 as the current directory.
use fp_sisop20_f.Base.{
  ℕ, refl, arith, false, none, Option, List, [], ◌∷◌, ltb, ◌==◌, if◌then◌else◌, ℤ,
}
use fp_sisop20_f.Inode.{Dinode, Inode}
use fp_sisop20_f.Dir.{Name, t_dir}
use fp_sisop20_f.File.{File, fd_none}
use fp_sisop20_f.Vfs.{Kernel}
use fp_sisop20_f.Vfs.Owned.{Owns}

abbrev no_blocks : ℕ → ℕ
no_blocks i = 0

abbrev blank : Dinode
blank = record { type = 0; major = 0; minor = 0; nlink = 0; size = 0; addrs = no_blocks }

-- two entries, in block 20
abbrev root : Dinode
root = record blank { type = t_dir; nlink = 1; size = 32; addrs = λ i. if i == 0 then 20 else 0 }

abbrev empty_file : Dinode
empty_file = record blank { type = 2; nlink = 1 }

abbrev inodes : ℕ → ℕ → Dinode
inodes dev i = if i == 1 then root else (if i == 2 then empty_file else blank)

abbrev no_inode : Inode
no_inode = record { dev = 0; inum = 0; ref = 0; busy = false; valid = false; copy = blank }

abbrev cached : ℕ → Inode
cached i = record no_inode {
  dev = if i == 0 then 1 else 0;
  inum = if i == 0 then 1 else 0;
  ref = if i == 0 then 1 else 0;
}

-- "a" is inode 2, and "." is inode 1.
abbrev entries : ℕ → ℕ
entries i =
    if i == 0
    then 2
    else (if i == 2 then 97 else (if i == 16 then 1 else (if i == 18 then 46 else 0)))

abbrev closed : File
closed = record {
  type = fd_none;
  ref = 0;
  readable = false;
  writable = false;
  pipe = 0;
  ip = 0;
  off = 0;
}

abbrev pub start : Kernel
start = record {
  icache = record { slots = cached; disk = inodes };
  fs = record {
    size = 100;
    ninodes = 16;
    used = λ b. ltb b 30;
    blocks = λ b i. if b == 20 then entries i else 0;
    logged = [];
  };
  log_busy = false;
  files = λ _. closed;
  ofile = none ∷ none ∷ [];
  cwd = 0;
}

pub start-Owns : Owns start [] [] false start
start-Owns = record {
  ref_counts = λ j. omega arith;
  held = λ j. refl;
  referred = λ j m. absurd (cc);
  log = refl;
  same_files = refl;
  same_ofile = refl;
  same_cwd = refl;
}

abbrev pub nothing : Name
nothing i = 0

-- a device that does not answer
abbrev pub no_driver : ℕ → Option ℤ
no_driver _ = none

-- "a" and "/b"
abbrev pub a_name : List ℕ
a_name = 97 ∷ []

abbrev pub b_path : List ℕ
b_path = 47 ∷ 98 ∷ []
