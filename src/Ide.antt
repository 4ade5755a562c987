-- ===== src/Ide.antt =====
-- ide.c: the requests that wait for the disk. A function is one step under `idelock` up to where it sleeps.
-- What the controller answers is an argument: the sector, or `none` where its status tells an error; the
-- waits for its ready bit and its set-up (idewait, ideinit) are its own.
pub mod Queue
pub mod Fifo
pub mod Trace
pub mod Address
mod Tests
use fp_sisop20_f.Base.{
  ℕ, zero, suc, ◌+◌, ◌*◌, ◌/◌, ◌%◌, ◌^◌, Bool, true, false, not, ◌&&◌, ◌||◌, Option, none, some,
  List, [], ◌∷◌, ◌==◌, ltb, if◌then◌else◌, update, Result, ok, panic, ◌>>=◌, ◌>>◌, panic_if,
}
use fp_sisop20_f.Bcache.{Buf}

-- what is sent to a port: a byte, or the words of a sector
pub data Out : Type 0 where
  outb : (port value : ℕ) → Out
  outsl : (port : ℕ) → (bytes : ℕ → ℕ) → (count : ℕ) → Out

-- Buffers are numbers; `idequeue` and `qnext` are pointers. `sent` is what each `idestart` has sent, the
-- last one first.
pub record Ide : Type 0 where
  pub bufs : ℕ → Buf
  pub qnext : ℕ → Option ℕ
  pub idequeue : Option ℕ
  pub havedisk1 : Bool
  pub sent : List (List Out)

-- the bits of the drive and of the sector in port 0x1f6
abbrev pub drive_and_top : (dev sector : ℕ) → ℕ
drive_and_top dev sector = 224 + (dev % 2) * 16 + sector / 2 ^ 24 % 16

-- 0x30 and 0x20 are IDE_CMD_WRITE and IDE_CMD_READ.
abbrev pub command : Buf → List Out
command b = if b.dirty then outb 503 48 ∷ outsl 496 b.bytes 128 ∷ [] else outb 503 32 ∷ []

unfoldable pub commands : Buf → List Out
commands b =
    outb 1014 0
    ∷ outb 498 1
    ∷ outb 499 (b.sector % 256)
    ∷ outb 500 (b.sector / 2 ^ 8 % 256)
    ∷ outb 501 (b.sector / 2 ^ 16 % 256)
    ∷ outb 502 (drive_and_top b.dev b.sector)
    ∷ command b

unfoldable pub idestart : Option ℕ → Ide → Result Ide
idestart none s = panic
idestart (some i) s = ok (record s { sent = commands (s.bufs i) ∷ s.sent })

abbrev pub start_if_any : Option ℕ → Ide → Result Ide
start_if_any none s = ok s
start_if_any (some i) s = idestart (some i) s

abbrev pub data_read : Option (ℕ → ℕ) → (ℕ → ℕ) → (ℕ → ℕ)
data_read none bytes j = bytes j
data_read (some sector) bytes j = if ltb j 512 then sector j else bytes j

-- B_VALID is set, B_DIRTY is cleared.
abbrev pub finished : Option (ℕ → ℕ) → Buf → Buf
finished answer b = record b {
  bytes = if not b.dirty then data_read answer b.bytes else b.bytes;
  valid = true;
  dirty = false;
}

-- `ideintr` on the head of the queue; it answers the buffer whose process it wakes.
abbrev pub serve : Option (ℕ → ℕ) → Option ℕ → Ide → Result (Option ℕ × Ide)
serve answer none s = ok (none, s)
serve answer (some i) s = do
  s' ←
      start_if_any (s.qnext i)
        (record s { idequeue = s.qnext i; bufs = update s.bufs i (finished answer (s.bufs i)) })
  ok (some i, s')

unfoldable pub ideintr : (answer : Option (ℕ → ℕ)) → Ide → Result (Option ℕ × Ide)
ideintr answer s = serve answer s.idequeue s

-- `*pp`, where `none` is `&idequeue` and `some i` is `&i->qnext`
abbrev pub pointed : (qnext : ℕ → Option ℕ) → (idequeue : Option ℕ) → Option ℕ → Option ℕ
pointed qnext idequeue none = idequeue
pointed qnext idequeue (some i) = qnext i

-- `for(pp=&idequeue; *pp; pp=&(*pp)->qnext)`
unfoldable pub end_loop :
    (rounds : ℕ) → (qnext : ℕ → Option ℕ) → (idequeue pp : Option ℕ) → Option ℕ
end_loop zero qnext idequeue pp = pp
end_loop (suc k) qnext idequeue pp = elim (pointed qnext idequeue pp) [
  | none ↦ pp
  | some i ↦ end_loop k qnext idequeue (some i)
]

-- `*pp = b`
abbrev pub put_at : Option ℕ → ℕ → Ide → Ide
put_at none i s = record s { idequeue = some i }
put_at (some e) i s = record s { qnext = update s.qnext e (some i) }

abbrev pub queued : (rounds : ℕ) → ℕ → Ide → Ide
queued rounds i s =
    let qnext = update s.qnext i none in
    put_at (end_loop rounds qnext s.idequeue none) i (record s { qnext = qnext })

abbrev pub is_first : ℕ → Option ℕ → Bool
is_first i none = false
is_first i (some j) = i == j

-- what the loop at the end of `iderw` waits for
abbrev pub is_done : Buf → Bool
is_done b = b.valid && not b.dirty

-- `iderw` up to where it sleeps: it has at least one request to wait for.
unfoldable pub iderw : (rounds : ℕ) → ℕ → Ide → Result Ide
iderw rounds i s = do
  panic_if (not (s.bufs i).busy)
  panic_if (is_done (s.bufs i))
  panic_if (not ((s.bufs i).dev == 0) && not s.havedisk1)
  let s' = queued rounds i s
  if is_first i s'.idequeue then idestart (some i) s' else ok s'
