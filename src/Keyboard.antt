-- ===== src/Keyboard.antt =====
-- kbd.c and the tables of kbd.h: scan codes of the keyboard. The bits of the static `shift` are flags of
-- their own; a scan code is a byte, or `none` where the controller has none.
pub mod Layout
pub mod Tables
pub mod Events
mod Tests
use fp_sisop20_f.Base.{
  ℕ, ◌+◌, ◌-◌, Bool, true, false, not, ◌&&◌, ◌||◌, Option, none, some, ◌==◌, leb, ltb,
  if◌then◌else◌,
}
use fp_sisop20_f.Keyboard.Tables.{normalmap, shiftmap, ctlmap}

pub record Flags : Type 0 where
  pub shift : Bool
  pub ctl : Bool
  pub alt : Bool
  pub capslock : Bool
  pub numlock : Bool
  pub scrolllock : Bool
  pub e0esc : Bool

-- `shiftcode`, a flag at a time
abbrev pub is_ctl : ℕ → Bool
is_ctl d = (d == 29) || (d == 157)

abbrev pub is_shift : ℕ → Bool
is_shift d = (d == 42) || (d == 54)

abbrev pub is_alt : ℕ → Bool
is_alt d = (d == 56) || (d == 184)

-- `shift |= shiftcode[data]`
unfoldable pub hold : ℕ → Flags → Flags
hold d s = record s {
  shift = s.shift || is_shift d;
  ctl = s.ctl || is_ctl d;
  alt = s.alt || is_alt d;
}

-- `shift &= ~(shiftcode[data] | E0ESC)`
unfoldable pub let_go : ℕ → Flags → Flags
let_go d s = record s {
  shift = s.shift && not (is_shift d);
  ctl = s.ctl && not (is_ctl d);
  alt = s.alt && not (is_alt d);
  e0esc = false;
}

abbrev pub flip : Bool → Bool → Bool
flip b x = if b then not x else x

-- `shift ^= togglecode[data]`
unfoldable pub toggle : ℕ → Flags → Flags
toggle d s = record s {
  capslock = flip (d == 58) s.capslock;
  numlock = flip (d == 69) s.numlock;
  scrolllock = flip (d == 70) s.scrolllock;
}

-- `charcode[shift & (CTL | SHIFT)][data]`
abbrev pub charcode : Flags → ℕ → ℕ
charcode s d = if s.ctl then ctlmap d else (if s.shift then shiftmap d else normalmap d)

-- what CAPSLOCK makes of a character
abbrev pub other_case : ℕ → ℕ
other_case c =
    if leb 97 c && leb c 122 then c - 32 else (if leb 65 c && leb c 90 then c + 32 else c)

unfoldable pub typed : Flags → ℕ → ℕ
typed s d = let c = charcode s d in if s.capslock then other_case c else c

-- The character, 0 if there is none, or -1, which is `none`; and the flags.
unfoldable pub kbdgetc : Option ℕ → Flags → Option ℕ × Flags
kbdgetc none s = (none, s)
kbdgetc (some byte) s =
    if byte == 224
    then (some 0, record s { e0esc = true })
    else (if leb 128 byte
        then (some 0, let_go (if s.e0esc then byte else byte - 128) s)
        else (let d = if s.e0esc then byte + 128 else byte in
            let s' = toggle d (hold d (record s { e0esc = false })) in (some (typed s' d), s')))
