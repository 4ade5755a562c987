-- ===== src/Proc.antt =====
-- proc.c: the process table. A process is named by its slot. Each function here but `fork` is one section
-- under `ptable.lock`, from `acquire` to `release` or to the switch to the scheduler. `fork` is one step
-- as well, although only its `allocproc` takes the lock and the fields of the new process are set without
-- it. The calls of
-- other parts of the kernel that it makes are collected in order, and their answers are arguments.
pub mod Lookup
pub mod Orphans
pub mod Exit
pub mod Life
pub mod Reach
pub mod Wakeups
pub mod Steps
mod Tests
use fp_sisop20_f.Base.{
  ℕ, zero, suc, ◌+◌, ◌-◌, Bool, true, false, not, ◌&&◌, ◌||◌, Option, none, some, List, [], ◌∷◌,
  ◌++◌, map, ◌==◌, if◌then◌else◌, get_elem?, ℤ, pos, minus_one, Result, ok, panic,
}

-- `enum procstate`
pub data ProcState : Type 0 where
  unused embryo sleeping runnable running zombie : ProcState

abbrev pub same_state : ProcState → ProcState → Bool
same_state unused unused = true
same_state embryo embryo = true
same_state sleeping sleeping = true
same_state runnable runnable = true
same_state running running = true
same_state zombie zombie = true
same_state _ _ = false

-- The value of `chan`: no channel, the address of a process, or any other address.
pub data Channel : Type 0 where
  no_channel : Channel
  of_proc : ℕ → Channel
  address : ℕ → Channel

abbrev pub same_channel : Channel → Channel → Bool
same_channel no_channel no_channel = true
same_channel (of_proc i) (of_proc j) = i == j
same_channel (address a) (address b) = a == b
same_channel _ _ = false

-- `struct proc`; the saved registers (`tf`, `context`) are not modelled. A null pointer is `none`.
pub record Proc : Type 0 where
  pub sz : ℕ
  pub pgdir : Option ℕ
  pub kstack : Option ℕ
  pub state : ProcState
  pub pid : ℕ
  pub parent : Option ℕ
  pub chan : Channel
  pub killed : Bool
  pub ofile : List (Option ℕ)
  pub cwd : Option ℕ
  pub name : List ℕ

-- `ptable`, `initproc` and `nextpid`
pub record Table : Type 0 where
  pub procs : List Proc
  pub initproc : ℕ
  pub nextpid : ℕ

-- a call of another part of the kernel
pub data Call : Type 0 where
  filedup fileclose idup iput kfree freevm : ℕ → Call

abbrev pub opt_call : (ℕ → Call) → Option ℕ → List Call
opt_call f none = []
opt_call f (some a) = f a ∷ []

abbrev pub is_slot : ℕ → Option ℕ → Bool
is_slot i none = false
is_slot i (some j) = j == i

-- the slot of the first process that passes a test, from slot `i` on
unfoldable pub find : (Proc → Bool) → ℕ → List Proc → Option ℕ
find test i [] = none
find test i (p ∷ ps) = let rest = find test (i + 1) ps in if test p then some i else rest

-- an update of the process in one slot
unfoldable pub modify : ℕ → (Proc → Proc) → List Proc → List Proc
modify i f [] = []
modify zero f (p ∷ ps) = f p ∷ ps
modify (suc i) f (p ∷ ps) = p ∷ modify i f ps

abbrev pub with_proc : ℕ → (Proc → Proc) → Table → Table
with_proc i f t = record t { procs = modify i f t.procs }

-- `p->state = EMBRYO; p->pid = nextpid++;`
abbrev pub taken : ℕ → Proc → Proc
taken pid p = record p { state = embryo; pid = pid }

-- `p->kstack = 0; p->state = UNUSED;`
abbrev pub given_up : Proc → Proc
given_up p = record p { kstack = none; state = unused }

-- `allocproc` behind its search
abbrev pub alloc_slot : (page : Option ℕ) → Table → Option ℕ → Option ℕ × Table
alloc_slot page t none = (none, t)
alloc_slot none t (some i) = (
  none,
  with_proc i given_up (record (with_proc i (taken t.nextpid) t) { nextpid = t.nextpid + 1 }),
)
alloc_slot (some a) t (some i) = (
  some i,
  with_proc i (λ p. record p { kstack = some a })
      (record (with_proc i (taken t.nextpid) t) { nextpid = t.nextpid + 1 }),
)

-- `page` is what `kalloc` answers.
unfoldable pub allocproc : (page : Option ℕ) → Table → Option ℕ × Table
allocproc page t = alloc_slot page t (find (λ p. same_state p.state unused) 0 t.procs)

-- the descriptors of the child: those of the parent, and its own where the parent has none
abbrev pub inherit : List (Option ℕ) → List (Option ℕ) → List (Option ℕ)
inherit [] ds = ds
inherit (o ∷ os) [] = []
inherit (none ∷ os) (d ∷ ds) = d ∷ inherit os ds
inherit (some f ∷ os) (_ ∷ ds) = some f ∷ inherit os ds

abbrev pub dup_calls : List (Option ℕ) → List Call
dup_calls [] = []
dup_calls (o ∷ os) = opt_call filedup o ++ dup_calls os

abbrev pub close_calls : List (Option ℕ) → List Call
close_calls [] = []
close_calls (o ∷ os) = opt_call fileclose o ++ close_calls os

-- the last part of `fork`: the child takes over from the process `c`, in slot `cur`
abbrev pub child_of : ℕ → Proc → (pgdir : ℕ) → Proc → Proc
child_of cur c pgdir p = record p {
  sz = c.sz;
  pgdir = some pgdir;
  parent = some cur;
  ofile = inherit c.ofile p.ofile;
  cwd = c.cwd;
  name = c.name;
  state = runnable;
}

-- `fork` behind `allocproc`, whose answer is the last argument
abbrev pub fork_slot :
    ℕ → Proc → (page pgdir : Option ℕ) → (pid : ℕ) → Option ℕ × Table → ℤ × Table × List Call
fork_slot cur c page pgdir pid (none, t) = (minus_one, t, [])
fork_slot cur c page none pid (some i, t) = (minus_one, with_proc i given_up t, opt_call kfree page)
fork_slot cur c page (some d) pid (some i, t) =
    (pos pid, with_proc i (child_of cur c d) t, dup_calls c.ofile ++ opt_call idup c.cwd)

-- `page` and `pgdir` are what `kalloc` and `copyuvm` answer.
unfoldable pub fork :
    (cur : ℕ) → (c : Proc) → (page pgdir : Option ℕ) → Table → ℤ × Table × List Call
unfolding allocproc
fork cur c page pgdir t = fork_slot cur c page pgdir t.nextpid (allocproc page t)

-- `wakeup1`: every process that sleeps on `chan` may run.
abbrev pub wake : Channel → Proc → Proc
wake chan p =
    if same_state p.state sleeping && same_channel p.chan chan
    then record p { state = runnable }
    else p

unfoldable pub wakeup1 : Channel → List Proc → List Proc
wakeup1 chan ps = map (wake chan) ps

unfoldable pub wakeup : Channel → Table → Table
unfolding wakeup1
wakeup chan t = record t { procs = wakeup1 chan t.procs }

-- `wakeup1(proc->parent)`
abbrev pub parent_channel : Option ℕ → Channel
parent_channel none = no_channel
parent_channel (some i) = of_proc i

abbrev pub is_zombie_child : ℕ → Proc → Bool
is_zombie_child cur p = is_slot cur p.parent && same_state p.state zombie

abbrev pub orphan_at : ℕ → Option Proc → Bool
orphan_at cur none = false
orphan_at cur (some p) = is_zombie_child cur p

abbrev pub adopted : ℕ → ℕ → Proc → Proc
adopted cur init p = if is_slot cur p.parent then record p { parent = some init } else p

-- The loop of `exit` over the children: `k` processes from slot `i` on. A zombie passed to init
-- wakes it, wherever init stands in the table.
unfoldable pub pass_children : (cur init : ℕ) → (i k : ℕ) → List Proc → List Proc
unfolding modify wakeup1
pass_children cur init i zero ps = ps
pass_children cur init i (suc k) ps =
    let ps' = modify i (adopted cur init) ps in
    pass_children cur init (i + 1) k
      (if orphan_at cur (get_elem? ps i) then wakeup1 (of_proc init) ps' else ps')

-- NPROC
abbrev pub nproc : ℕ
nproc = 64

-- `exit` by the process `c` in slot `cur`, up to the switch. It panics in init.
unfoldable pub exit : (cur : ℕ) → (c : Proc) → Table → Result (Table × List Call)
unfolding wakeup1 pass_children modify
exit cur c t =
    if cur == t.initproc
    then panic
    else (let closed =
          modify cur (λ p. record p { ofile = map (λ _. none) p.ofile; cwd = none }) t.procs in
        let woken = wakeup1 (parent_channel c.parent) closed in
        let passed = pass_children cur t.initproc 0 nproc woken in
        ok (
          record t { procs = modify cur (λ p. record p { state = zombie }) passed },
          close_calls c.ofile ++ opt_call iput c.cwd,
        ))

-- whether there is a child, as `wait` finds in its pass over the table
unfoldable pub have_kids : ℕ → List Proc → Bool
have_kids cur [] = false
have_kids cur (p ∷ ps) = is_slot cur p.parent || have_kids cur ps

abbrev pub first_byte_zero : List ℕ → List ℕ
first_byte_zero [] = []
first_byte_zero (_ ∷ bs) = 0 ∷ bs

abbrev pub reap : Proc → Proc
reap p = record p {
  kstack = none;
  state = unused;
  pid = 0;
  parent = none;
  name = first_byte_zero p.name;
  killed = false;
}

-- How a pass of `wait` ends: it returns, or sleeps on the caller's own address.
pub data Waited : Type 0 where
  returned : ℤ → Waited
  asleep : Waited

-- the caller goes to sleep on `chan`
unfoldable pub sleep : ℕ → Channel → Table → Table
unfolding modify
sleep cur chan t = with_proc cur (λ p. record p { chan = chan; state = sleeping }) t

-- the end of a pass that found no zombie child, and of one that found `p` in slot `i`
abbrev pub no_zombie : ℕ → Proc → Table → Waited × Table × List Call
no_zombie cur c t =
    if not (have_kids cur t.procs) || c.killed
    then (returned minus_one, t, [])
    else (asleep, sleep cur (of_proc cur) t, [])

abbrev pub reap_slot : ℕ → Table → Option Proc → Waited × Table × List Call
reap_slot i t none = (asleep, t, [])
reap_slot i t (some p) =
    (returned (pos p.pid), with_proc i reap t, opt_call kfree p.kstack ++ opt_call freevm p.pgdir)

abbrev pub wait_slot : ℕ → Proc → Table → Option ℕ → Waited × Table × List Call
wait_slot cur c t none = no_zombie cur c t
wait_slot cur c t (some i) = reap_slot i t (get_elem? t.procs i)

unfoldable pub wait : (cur : ℕ) → (c : Proc) → Table → Waited × Table × List Call
unfolding find have_kids sleep
wait cur c t = wait_slot cur c t (find (is_zombie_child cur) 0 t.procs)

-- a sleeper that runs again
unfoldable pub awake : ℕ → Table → Table
unfolding modify
awake cur t = with_proc cur (λ p. record p { chan = no_channel }) t

abbrev pub strike : Proc → Proc
strike p = record p {
  killed = true;
  state = if same_state p.state sleeping then runnable else p.state;
}

abbrev pub kill_slot : Table → Option ℕ → ℤ × Table
kill_slot t none = (minus_one, t)
kill_slot t (some i) = (pos 0, with_proc i strike t)

unfoldable pub kill : ℕ → Table → ℤ × Table
unfolding find modify
kill pid t = kill_slot t (find (λ p. p.pid == pid) 0 t.procs)

unfoldable pub yield : ℕ → Table → Table
unfolding modify
yield cur t = with_proc cur (λ p. record p { state = runnable }) t

-- The scheduler's scan from slot `i` on: the next process that can run.
unfoldable pub next_runnable : ℕ → List Proc → Option ℕ
unfolding find
next_runnable i ps = find (λ p. same_state p.state runnable) i ps

unfoldable pub dispatch : ℕ → Table → Table
unfolding modify
dispatch i t = with_proc i (λ p. record p { state = running }) t
