-- ===== src/Keyboard/Events.antt =====
-- Keys that go down and up, and the bytes that the keyboard sends for them.
use fp_sisop20_f.Base.{
  ℕ, ◌+◌, ◌-◌, ◌<◌, ◌≡◌, ◌≢◌, refl, ap, ap₂, sym, ◌∙◌, arith, Bool, true, false, not, ◌&&◌, ◌||◌,
  Bool-cases, inl, inr, Option, none, some, List, [], ◌∷◌, ◌++◌, ◌==◌, leb, if◌then◌else◌,
}
use fp_sisop20_f.Keyboard.Layout.{
  Key, plain, extended, index, code, legend, meaning, is_shift_key, is_ctl_key, is_alt_key,
  is_plain_key, typed-meaning,
}
use fp_sisop20_f.Keyboard.{
  Flags, is_shift, is_ctl, is_alt, hold, let_go, flip, toggle, typed, kbdgetc,
}

pub data Event : Type 0 where
  down up : Key → Event

abbrev pub bytes : Event → List ℕ
bytes (down (plain c)) = c ∷ []
bytes (up (plain c)) = (c + 128) ∷ []
bytes (down (extended c)) = 224 ∷ c ∷ []
bytes (up (extended c)) = 224 ∷ (c + 128) ∷ []

abbrev pub all_bytes : List Event → List ℕ
all_bytes [] = []
all_bytes (e ∷ es) = bytes e ++ all_bytes es

-- No code sent is 0xE0 itself or more than a byte.
abbrev pub IsCode : List Event → Type 0
IsCode [] = Unit
IsCode (down k ∷ es) = (code k < 128) × IsCode es
IsCode (up k ∷ es) = (code k < 128) × (code k ≢ 96) × IsCode es

abbrev pub if_given : Option ℕ → List ℕ → List ℕ
if_given none cs = cs
if_given (some c) cs = if c == 0 then cs else c ∷ cs

-- `kbdgetc` on one byte after the other; 0 is no character.
pub keys_typed : List ℕ → Flags → List ℕ × Flags
keys_typed [] s = ([], s)
keys_typed (d ∷ ds) s =
    let (c, s') = kbdgetc (some d) s in let (cs, s'') = keys_typed ds s' in (if_given c cs, s'')

-- whether a key of a set is held, as its last event says
abbrev pub held : (Key → Bool) → List Event → Bool → Bool
held is_one [] b = b
held is_one (down k ∷ es) b = held is_one es (b || is_one k)
held is_one (up k ∷ es) b = held is_one es (b && not (is_one k))

-- whether a key has been pressed an odd number of times
abbrev pub odd : (Key → Bool) → List Event → Bool → Bool
odd is_one [] b = b
odd is_one (down k ∷ es) b = odd is_one es (flip (is_one k) b)
odd is_one (up k ∷ es) b = odd is_one es b

-- the flags after some events, by the keys of the keyboard
abbrev pub after : List Event → Flags → Flags
after es s = record s {
  shift = held is_shift_key es s.shift;
  ctl = held is_ctl_key es s.ctl;
  alt = held is_alt_key es s.alt;
  capslock = odd (is_plain_key 58) es s.capslock;
  numlock = odd (is_plain_key 69) es s.numlock;
  scrolllock = odd (is_plain_key 70) es s.scrolllock;
  e0esc = false;
}

-- each key that goes down, with the flags that the events up to it leave
abbrev pub characters : List Event → Flags → List ℕ
characters [] s = []
characters (down k ∷ es) s =
    let s' = after (down k ∷ []) s in if_given (some (meaning (legend k) s')) (characters es s')
characters (up k ∷ es) s = characters es (after (up k ∷ []) s)

-- the flags and the character by the codes in the tables
abbrev flags_by_code : Event → Flags → Flags
flags_by_code e s = record s {
  shift = held (λ k. is_shift (index k)) (e ∷ []) s.shift;
  ctl = held (λ k. is_ctl (index k)) (e ∷ []) s.ctl;
  alt = held (λ k. is_alt (index k)) (e ∷ []) s.alt;
  capslock = odd (λ k. index k == 58) (e ∷ []) s.capslock;
  numlock = odd (λ k. index k == 69) (e ∷ []) s.numlock;
  scrolllock = odd (λ k. index k == 70) (e ∷ []) s.scrolllock;
  e0esc = false;
}

abbrev one_by_code : Event → Flags → List ℕ
one_by_code (down k) s = if_given (some (typed (flags_by_code (down k) s) (index k))) []
one_by_code (up k) s = []

shift_keys : (k : Key) → code k < 128 → is_shift (index k) ≡ is_shift_key k
shift_keys (plain c) l = refl
shift_keys (extended c) l = ground arith

ctl_keys : (k : Key) → code k < 128 → is_ctl (index k) ≡ is_ctl_key k
ctl_keys (plain c) l = ground (arith, l)
ctl_keys (extended c) l = ground arith

alt_keys : (k : Key) → code k < 128 → is_alt (index k) ≡ is_alt_key k
alt_keys (plain c) l = ground (arith, l)
alt_keys (extended c) l = ground arith

lock_keys : (d : ℕ) (k : Key) → d < 128 → code k < 128 → (index k == d) ≡ is_plain_key d k
lock_keys d (plain c) h l = refl
lock_keys d (extended c) h l = ground (arith, h)

flags_by_code_lem : (e : Event) (s : Flags) → IsCode (e ∷ []) → flags_by_code e s ≡ after (e ∷ []) s
flags_by_code_lem (down k) s (l, _) =
    rw
      (
        shift_keys k l,
        ctl_keys k l,
        alt_keys k l,
        lock_keys 58 k (omega arith) l,
        lock_keys 69 k (omega arith) l,
        lock_keys 70 k (omega arith) l,
      )
      refl
flags_by_code_lem (up k) s (l, n, _) = rw (shift_keys k l, ctl_keys k l, alt_keys k l) refl

one_by_code_lem :
    (e : Event) (s : Flags) → IsCode (e ∷ []) → one_by_code e s ≡ characters (e ∷ []) s
one_by_code_lem (down k) s v =
    ap (λ (t : Flags). if_given (some (typed t (index k))) []) (flags_by_code_lem (down k) s v)
    ∙ ap (λ (c : ℕ). if_given (some c) []) (typed-meaning (after (down k ∷ []) s) k v.0)
one_by_code_lem (up k) s v = refl

if_given_append : (o : Option ℕ) (cs : List ℕ) → if_given o cs ≡ if_given o [] ++ cs
if_given_append none cs = refl
if_given_append (some c) cs = elim (Bool-cases (c == 0)) [ inl e ↦ rw e refl | inr e ↦ rw e refl ]

given_first :
    (k : Key) (ds : List ℕ) (s : Flags)
    → ◌≡◌ {A = List ℕ × Flags}
        (let (cs, s') = keys_typed ds (flags_by_code (down k) s) in
          (if_given (some (typed (flags_by_code (down k) s) (index k))) cs, s'))
        (let (cs, s') = keys_typed ds (flags_by_code (down k) s) in
          (one_by_code (down k) s ++ cs, s'))
given_first k ds s =
    let s1 = flags_by_code (down k) s in
    ap (λ (l : List ℕ). (l, (keys_typed ds s1).1))
      (if_given_append (some (typed s1 (index k))) (keys_typed ds s1).0)

-- the bytes of one event
by_code :
    (e : Event) (ds : List ℕ) (s : Flags)
    → IsCode (e ∷ [])
    → s.e0esc ≡ false
    → keys_typed (bytes e ++ ds) s
      ≡ (let (cs, s') = keys_typed ds (flags_by_code e s) in (one_by_code e s ++ cs, s'))
unfolding keys_typed kbdgetc hold let_go toggle
by_code (down (plain c)) ds s (h, _) z =
    let a : (c == 224) ≡ false = ground (arith, h) in
    let b : leb 128 c ≡ false = ground (arith, h) in rw (a, b, z) (given_first (plain c) ds s)
by_code (down (extended c)) ds s (h, _) z =
    let a : (c == 224) ≡ false = ground (arith, h) in
    let b : leb 128 c ≡ false = ground (arith, h) in rw (a, b) (given_first (extended c) ds s)
by_code (up (plain c)) ds s (h, n, _) z =
    let a : (c + 128 == 224) ≡ false = ground (arith, n) in
    let b : leb 128 (c + 128) ≡ true = ground arith in
    let q : c + 128 - 128 ≡ c = omega arith in rw (a, b, z, q) refl
by_code (up (extended c)) ds s (h, n, _) z =
    let a : (c + 128 == 224) ≡ false = ground (arith, n) in
    let b : leb 128 (c + 128) ≡ true = ground arith in rw (a, b) refl

event_lem :
    (e : Event) (ds : List ℕ) (s : Flags)
    → IsCode (e ∷ [])
    → s.e0esc ≡ false
    → keys_typed (bytes e ++ ds) s
      ≡ (let (cs, s') = keys_typed ds (after (e ∷ []) s) in (characters (e ∷ []) s ++ cs, s'))
event_lem e ds s v z =
    by_code e ds s v z
    ∙ ap₂ {A = List ℕ} {B = List ℕ × Flags} (λ cs r. (cs ++ r.0, r.1)) (one_by_code_lem e s v)
        (ap (keys_typed ds) (flags_by_code_lem e s v))

behind : (e : Event) (es : List Event) → IsCode (e ∷ es) → IsCode (e ∷ []) × IsCode es
behind (down k) es (h, v) = ((h, tt), v)
behind (up k) es (h, n, v) = ((h, n, tt), v)

after_append :
    (e : Event) (es : List Event) (s : Flags) → after es (after (e ∷ []) s) ≡ after (e ∷ es) s
after_append (down k) es s = refl
after_append (up k) es s = refl

characters_append :
    (e : Event) (es : List Event) (s : Flags)
    → characters (e ∷ []) s ++ characters es (after (e ∷ []) s) ≡ characters (e ∷ es) s
characters_append (down k) es s =
    let s1 = after (down k ∷ []) s in
    sym (if_given_append (some (meaning (legend k) s1)) (characters es s1))
characters_append (up k) es s = refl

-- kbdgetc on the bytes of any sequence of keys that go down and up, from flags without E0ESC: it gives
-- the characters of the keys that went down, each with the flags at that time, as they are printed on
-- the keys: a letter is a capital if one of SHIFT and CAPSLOCK is on but not both, and its number in
-- the alphabet with CTL; a sign is the one above with SHIFT, whatever CAPSLOCK is. At the end SHIFT, CTL
-- and ALT are what the last event of one of their keys says, the three locks are on if their key went
-- down an odd number of times or even if they were on at first, and E0ESC is clear. The codes are below
-- 128, and a key that goes up does not have the code 0x60, whose byte would be 0xE0.
pub keys_typed_lem :
    (es : List Event) (s : Flags)
    → IsCode es
    → s.e0esc ≡ false
    → keys_typed (all_bytes es) s ≡ (characters es s, after es s)
unfolding keys_typed
keys_typed_lem [] s v z = ap {A = Bool} {B = List ℕ × Flags} (λ x. ([], record s { e0esc = x })) z
keys_typed_lem (e ∷ es) s v z =
    let (v1, v2) = behind e es v in
    event_lem e (all_bytes es) s v1 z
    ∙ ap (λ (r : List ℕ × Flags). (characters (e ∷ []) s ++ r.0, r.1))
        (keys_typed_lem es (after (e ∷ []) s) v2 refl)
    ∙ ap₂ (λ (l : List ℕ) (t : Flags). (l, t)) (characters_append e es s) (after_append e es s)
