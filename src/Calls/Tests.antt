-- ===== src/Calls/Tests.antt =====
-- Calls on a small file system, and witnesses that the theorems on calls apply.
use fp_sisop20_f.Base.{◌≡◌, refl, arith, true, Option, none, some, [], ◌∷◌, update, copy_words}
use fp_sisop20_f.Inode
use fp_sisop20_f.Content
use fp_sisop20_f.Dir
use fp_sisop20_f.File
use fp_sisop20_f.Syscall
use fp_sisop20_f.Vfs
use fp_sisop20_f.Vfs.Names
use fp_sisop20_f.Vfs.{Outcome, done, asleep, panicked, ◌>>◌}
use fp_sisop20_f.Vfs.Runs.{Runs}
use fp_sisop20_f.Vfs.Sample.{start, start-Owns, nothing, no_driver, a_name, b_path}
use fp_sisop20_f.Calls
use fp_sisop20_f.Calls.Nodes
use fp_sisop20_f.Calls.{sys_link, sys_unlink}
use fp_sisop20_f.Calls.Nodes.{sys_open, sys_mkdir, sys_chdir}
use fp_sisop20_f.Calls.Balance.{Balanced, Deadlocks, Never}
use fp_sisop20_f.Calls.Links.{sys_link-Balanced}
use fp_sisop20_f.Calls.Unlink.{sys_unlink-Balanced}
use fp_sisop20_f.Calls.Create.{sys_mkdir-Balanced}
use fp_sisop20_f.Calls.Taken.{Opened}
use fp_sisop20_f.Calls.Open.{sys_open-Opened}
use fp_sisop20_f.Calls.Chdir.{Moved, sys_chdir-Moved}

sys_link-Balanced_example :
    Runs (Balanced start) Never (sys_link no_driver (some a_name) (some b_path) nothing start)
sys_link-Balanced_example =
    sys_link-Balanced no_driver start (some a_name) (some b_path) nothing start-Owns

sys_unlink-Balanced_example :
    Runs (Balanced start) (Deadlocks start []) (sys_unlink no_driver (some a_name) nothing start)
sys_unlink-Balanced_example = sys_unlink-Balanced no_driver start (some a_name) nothing start-Owns

sys_mkdir-Balanced_example :
    Runs (Balanced start) (Deadlocks start []) (sys_mkdir no_driver (some b_path) nothing start)
sys_mkdir-Balanced_example = sys_mkdir-Balanced no_driver start (some b_path) nothing start-Owns

sys_open-Opened_example :
    Runs
      (Opened 513 start)
      (Deadlocks start [])
      (sys_open no_driver (some b_path) (some 513) nothing start)
sys_open-Opened_example =
    sys_open-Opened no_driver start b_path 513 nothing start-Owns (λ f z. refl)

sys_chdir-Moved_example : Runs (Moved start) Never (sys_chdir no_driver (some b_path) nothing start)
sys_chdir-Moved_example =
    sys_chdir-Moved no_driver start (some b_path) nothing start-Owns (omega arith)

abbrev answer : {A : Type 0} → Outcome A → Option A
answer (done a k) = some a
answer (asleep k) = none
answer (panicked s) = none

-- Each call succeeds; a file that has a second name is found by it when the first is removed, and not by
-- the first.
calls_return :
    (answer (sys_mkdir no_driver (some b_path) nothing start) ≡ some true)
    × (answer (sys_open no_driver (some b_path) (some 513) nothing start) ≡ some (some 0))
    × (answer (sys_chdir no_driver (some (46 ∷ [])) nothing start) ≡ some true)
    × (answer (
          (sys_link no_driver (some a_name) (some b_path) nothing
              >> sys_unlink no_driver (some a_name) nothing
              >> sys_open no_driver (some b_path) (some 0) nothing)
            start)
        ≡ some (some 0))
    × (answer (
          (sys_link no_driver (some a_name) (some b_path) nothing
              >> sys_unlink no_driver (some a_name) nothing
              >> sys_open no_driver (some a_name) (some 0) nothing)
            start)
        ≡ some none)
unfolding Vfs.logs Vfs.gets Vfs.iget Vfs.idup Vfs.ilock Vfs.free_blocks Vfs.iunlock Vfs.iput
    Vfs.iunlockput Vfs.iupdate Vfs.change Vfs.on_contents Vfs.ialloc Names.lookup Names.writes
    Names.dirlink Names.walk Names.namex Names.namei Names.nameiparent Calls.begin_trans
    Calls.commit_trans Calls.closes Calls.fileclose Calls.filealloc Calls.fdalloc Calls.sys_link
    Calls.empty_from Calls.isdirempty Calls.sys_unlink Calls.create Nodes.set_file Nodes.set_cwd
    Nodes.sys_open Nodes.sys_mkdir Nodes.sys_mknod Nodes.sys_chdir Inode.scan Inode.iget Inode.idup
    Inode.ilock Inode.iunlock Inode.iupdate Inode.itrunc Inode.iput Inode.iunlockput Inode.free_inum
    Inode.ialloc Content.free_block Content.balloc Content.bfree Content.ensure Content.ensure_entry
    Content.bmap Content.read_loop Content.write_loop Content.readi Content.writei Dir.compare_from
    Dir.namecmp Dir.read_entry Dir.lookup_loop Dir.dirlookup Dir.empty_loop Dir.dirlink
    Dir.skip_slashes Dir.element Dir.skipelem File.free_file File.filealloc File.fileclose
    Syscall.free_fd update copy_words Vfs.◌>>=◌ Vfs.◌>>◌
calls_return = (refl, refl, refl, refl, refl)
