-- ===== src/Lib.antt =====
-- The xv6 kernel of this repository with its user programs: what its components promise, modelled
-- from the C source and proved. Each function of the source is the definition of the same name (match
-- of grep.c is `match_re`, memmove of ulib.c `memmove_up`), in the module of its file:
--   Libc      string.c, and the string instructions of x86.h, over the memory of Memory
--   Spinlock  spinlock.c: the nesting of interrupt disabling, and the lock between CPUs
--   Kalloc    kalloc.c: the free list of pages
--   Vm        vm.c: page tables
--   Pipe      pipe.c: the byte queue between two processes
--   Log       log.c, with the disk write of bio.c: the redo log under the file system
--   Bcache    bio.c: the buffer cache, over the disk in memory of memide.c
--   Ide       ide.c: the queue of requests to the disk
--   Proc      proc.c: the process table
--   Inode     fs.c: the inode cache and the inodes on the disk
--   Content   fs.c: the blocks of an inode, its reads and writes, and the bitmap
--   Dir       fs.c: directories and the elements of path names
--   Vfs       fs.c: directories and paths over the inode cache and the blocks
--   File      file.c: the table of open files, above pipes, inodes and the log
--   Syscall   syscall.c and the descriptors of sysfile.c
--   Calls     sysfile.c: link, unlink, open, mkdir, mknod and chdir
--   Console   console.c: the screen and the input line
--   Keyboard  kbd.c, and the tables of kbd.h
--   Print     cprintf of console.c and printf.c
--   Grep      the matcher of grep.c
--   Shell     sh.c: the parser of the shell
--   Ulib      ulib.c: the string routines of the user programs
--   Resize    truncate.c and vim.c: the contents that they leave
--   Wc        wc.c: the counts
-- Base holds what they share, and models no code.
--
-- State is passed explicitly: `Log` is struct log with the disk and the buffer cache, `Table` is ptable
-- with initproc and nextpid, `Pipe` is struct pipe, `Kmem` is kmem with the memory it manages, `Icache`
-- is icache with the inodes of each device. A panic is the result `panic`. Code under a spin lock is one
-- step; a call that sleeps ends with the state in which it sleeps and goes on as a new step, in whatever
-- state it then finds. What other parts answer is an argument, and calls of them whose effect is not
-- modelled are collected in order.
--
-- Words of 32 bits wrap around where the source computes with them; bytes that are only moved are
-- plain numbers, and so are reference counts. Loops whose end the source reads from memory
-- (strlen, strcmp, strchr) take rounds as fuel, and the theorems on them say how many are enough;
-- strcpy and atoi take rounds in the same way, one for each character and one for the end. The
-- loops of the shell's parser take one round more than there are characters left. The loop of
-- filewrite takes one more round than there are bytes, since each round writes one at least.
--
-- Vfs and Calls run a whole call of one process, from a state in which it has locked nothing, while no
-- other process runs: `Kernel` is what fs.c, file.c and the process keep, and an `Act` returns, sleeps or
-- panics. Within Calls, begin_trans and commit_trans only take and free the log. log_write panics outside
-- of a transaction; the number of blocks that one transaction may write, which Log has, is not counted
-- there. namex takes a round for each character of its path and one more.
--
-- Crashes: Log keeps each disk that a block write leaves, and `recovered` is what initlog makes of
-- one after a reboot. Interleavings: Proc.Reach and Spinlock.Exclusion are step relations.
--
-- The disk's queue takes a round for each request that is in it.
--
-- Not modelled: the disk controller and the other devices, traps and the boot code, which are hardware
-- access; exec and the loading of pages from files; pipe of sysfile.c; calls on files by several
-- processes at once; what the shell does with a command that it has parsed.
pub mod Base
pub mod Memory
pub mod Libc
pub mod Spinlock
pub mod Kalloc
pub mod Vm
pub mod Pipe
pub mod Log
pub mod Bcache
pub mod Ide
pub mod Proc
pub mod Inode
pub mod Content
pub mod Dir
pub mod Vfs
pub mod File
pub mod Syscall
pub mod Calls
pub mod Console
pub mod Keyboard
pub mod Print
pub mod Grep
pub mod Shell
pub mod Ulib
pub mod Resize
pub mod Wc
