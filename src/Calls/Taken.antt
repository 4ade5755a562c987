-- ===== src/Calls/Taken.antt =====
-- Files and descriptors that open takes, beside references and locks.
use fp_sisop20_f.Base.{
  ℕ, ◌-◌, ◌≡◌, refl, sym, ◌∙◌, arith, Bool, false, Option, none, some, List, [], ◌∷◌, subst,
  Bool-cases, ◌==◌, ◌%◌, inl, inr, true, not, ◌||◌, if◌then◌else◌,
}
use fp_sisop20_f.Vfs.{Kernel}
use fp_sisop20_f.Vfs.Runs.{Runs}
use fp_sisop20_f.Vfs.Owned.{Owns}
use fp_sisop20_f.Base.{update, ◌≢◌, ap, ok}
use fp_sisop20_f.File
use fp_sisop20_f.File.{File, Files, fd_none, fd_inode, free_file, claimed, nfile}
use fp_sisop20_f.File.Refs.{Scanned, free_file-Scanned}
use fp_sisop20_f.Syscall.{free_fd, set_entry, entry}
use fp_sisop20_f.Syscall.Descriptors.{Lowest, free_fd-Lowest, entry-set_self}
use fp_sisop20_f.Calls.Nodes.{opened_file, wr_only, rd_wr}
use fp_sisop20_f.Calls.{allocated, filealloc, given, fdalloc}

-- Other files and descriptors, on both sides.
pub Owns-files :
    {b k : Kernel} {t : Bool} (refs locks : List ℕ) (files : Files) (ofile : List (Option ℕ))
    → Owns b refs locks t k
    → Owns
        (record b { files = files; ofile = ofile })
        refs
        locks
        t
        (record k { files = files; ofile = ofile })
Owns-files refs locks files ofile v = record {
  ref_counts = v.ref_counts;
  held = v.held;
  referred = v.referred;
  log = v.log;
  same_files = refl;
  same_ofile = refl;
  same_cwd = v.same_cwd;
}

-- A free file has no type.
abbrev pub IsIdle : Files → Type 0
IsIdle t = (f : ℕ) → (t f).ref ≡ 0 → (t f).type ≡ fd_none

-- whether a mode allows to read, and to write: O_RDONLY, O_WRONLY, O_RDWR, and both of the last
abbrev pub allows : ℕ → Bool × Bool
allows omode =
    if omode % 4 == 0
    then (true, false)
    else (if omode % 4 == 2 then (true, true) else (false, true))

-- a file at the start of an inode, with one reference, open as the mode says
pub record IsOpened (omode inode : ℕ) (f : File) : Type 0 where
  pub kind : f.type ≡ fd_inode
  pub of_inode : f.ip ≡ inode
  pub at_start : f.off ≡ 0
  pub one_ref : f.ref ≡ 1
  pub access : (f.readable, f.writable) ≡ allows omode

opened_access :
    (omode : ℕ)
    → ◌≡◌ {A = Bool × Bool} (not (wr_only omode), wr_only omode || rd_wr omode) (allows omode)
opened_access omode = elim (Bool-cases (omode % 4 == 0)) [
  | inl e ↦
      let a : wr_only omode ≡ false = ground arith in
      let b : rd_wr omode ≡ false = ground arith in rw (e, a, b) refl
  | inr e ↦ elim (Bool-cases (omode % 4 == 2)) [
    | inl d ↦
        let a : wr_only omode ≡ false = ground arith in
        let b : rd_wr omode ≡ true = ground arith in rw (e, d, a, b) refl
    | inr d ↦ let a : wr_only omode ≡ true = ground arith in rw (e, d, a) refl
  ]
]

pub opened_file-IsOpened :
    (omode inode : ℕ) (f : File) → f.ref ≡ 1 → IsOpened omode inode (opened_file omode inode f)
opened_file-IsOpened omode inode f r = record {
  kind = refl;
  of_inode = refl;
  at_start = refl;
  one_ref = r;
  access = opened_access omode;
}

-- Without a descriptor, every file has the references that it had, and all else is given back. A
-- descriptor is a free one, and stands for a file that was free and is now the inode's, from its
-- start on; that file keeps the reference to the inode.
abbrev pub Opened : (omode : ℕ) → Kernel → Option ℕ → Kernel → Type 0
Opened omode b none k =
    ((j : ℕ) → (k.files j).ref ≡ (b.files j).ref)
    × Owns (record b { files = k.files }) [] [] false k
Opened omode b (some fd) k =
    (ip : ℕ) × (f : ℕ) × ((b.files f).ref ≡ 0)
    × (entry b.ofile fd ≡ none)
    × (entry k.ofile fd ≡ some f)
    × IsOpened omode ip (k.files f)
    × ((j : ℕ) → j ≢ f → k.files j ≡ b.files j)
    × Owns (record b { files = k.files; ofile = k.ofile }) (ip ∷ []) [] false k

pub ended : (b : Kernel) (omode : ℕ) (k : Kernel) → Owns b [] [] false k → Opened omode b none k
ended b omode k v = (
  λ j. ap (λ t. (t j).ref) v.same_files,
  subst (λ t. Owns (record b { files = t }) [] [] false k) (sym v.same_files) v,
)

abbrev pub with_file : Kernel → ℕ → Files
with_file b f = update b.files f (record (b.files f) { ref = 1 })

-- A file that was just taken is closed again without a call.
pub fileclose-fresh :
    (t : Files) (f : ℕ)
    → (t f).ref ≡ 1
    → (t f).type ≡ fd_none
    → File.fileclose f t ≡ ok (update t f (record (t f) { ref = 0; type = fd_none }), [])
unfolding File.fileclose
fileclose-fresh t f r y = rw (y, r) refl

-- behind `filealloc`
abbrev pub Claimed : Kernel → ℕ → Option ℕ → Kernel → Type 0
Claimed b ip none k = Owns b (ip ∷ []) (ip ∷ []) false k
Claimed b ip (some f) k =
    ((b.files f).ref ≡ 0) × Owns (record b { files = with_file b f }) (ip ∷ []) (ip ∷ []) false k

-- behind `fdalloc`
abbrev pub Given : Kernel → (ip f : ℕ) → Option ℕ → Kernel → Type 0
Given b ip f none k = Claimed b ip (some f) k
Given b ip f (some fd) k =
    ((b.files f).ref ≡ 0)
    × (entry b.ofile fd ≡ none)
    × (entry k.ofile fd ≡ some f)
    × Owns (record b { files = with_file b f; ofile = k.ofile }) (ip ∷ []) (ip ∷ []) false k

module _ (b : Kernel) (omode ip : ℕ) {S : Kernel → Type 0} where
  pub filealloc-Claimed :
      (k : Kernel) → Owns b (ip ∷ []) (ip ∷ []) false k → Runs (Claimed b ip) S (filealloc k)
  unfolding filealloc File.filealloc
  filealloc-Claimed k v = by_scan (free_file k.files 0 nfile) (free_file-Scanned k.files 0 nfile)
    where
      by_scan :
          (o : Option ℕ)
          → Scanned k.files 0 nfile o
          → Runs (Claimed b ip) S (allocated k (claimed k.files o))
      by_scan none h = record { ends = v }
      by_scan (some f) (_, _, z) =
          let e = v.same_files in
          record {
            ends = (
              ap (λ t. (t f).ref) (sym e) ∙ z,
              subst
                  (λ t.
                    Owns (record b { files = update t f (record (t f) { ref = 1 }) }) (ip ∷ [])
                      (ip ∷ []) false
                      (record k { files = update k.files f (record (k.files f) { ref = 1 }) }))
                  e
                  (subst
                    (λ os.
                      Owns
                        (record b {
                          files = update k.files f (record (k.files f) { ref = 1 });
                          ofile = os;
                        })
                        (ip ∷ []) (ip ∷ []) false
                        (record k { files = update k.files f (record (k.files f) { ref = 1 }) }))
                    v.same_ofile
                    (Owns-files (ip ∷ []) (ip ∷ [])
                      (update k.files f (record (k.files f) { ref = 1 })) k.ofile v)),
            );
          }

  pub fdalloc-Given :
      (f : ℕ) (k : Kernel) → Claimed b ip (some f) k → Runs (Given b ip f) S (fdalloc f k)
  unfolding fdalloc
  fdalloc-Given f k (z, v) = by_slot (free_fd k.ofile 0) (free_fd-Lowest k.ofile 0)
    where
      by_slot : (o : Option ℕ) → Lowest k.ofile 0 o → Runs (Given b ip f) S (given k f o)
      by_slot none h = record { ends = (z, v) }
      by_slot (some fd) (_, l, n, _) =
          let q : fd - 0 ≡ fd = omega arith in
          record {
            ends = (
              z,
              ap (λ os. entry os fd) (sym v.same_ofile) ∙ ap (entry k.ofile) (sym q) ∙ n,
              entry-set_self k.ofile fd (some f) (omega arith),
              subst
                  (λ t.
                    Owns (record b { files = t; ofile = set_entry k.ofile fd (some f) }) (ip ∷ [])
                      (ip ∷ []) false (record k { ofile = set_entry k.ofile fd (some f) }))
                  v.same_files
                  (Owns-files (ip ∷ []) (ip ∷ []) k.files (set_entry k.ofile fd (some f)) v),
            );
          }
