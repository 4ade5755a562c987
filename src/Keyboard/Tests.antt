-- ===== src/Keyboard/Tests.antt =====
-- A capital letter with the left shift key, and a witness that the theorem on keys applies.
use fp_sisop20_f.Base.{◌≡◌, refl, arith, false, List, [], ◌∷◌}
use fp_sisop20_f.Keyboard.{Flags}
use fp_sisop20_f.Keyboard.Layout.{plain, extended}
use fp_sisop20_f.Keyboard.Events.{
  Event, down, up, all_bytes, keys_typed, characters, after, keys_typed_lem,
}

abbrev no_flags : Flags
no_flags = record {
  shift = false;
  ctl = false;
  alt = false;
  capslock = false;
  numlock = false;
  scrolllock = false;
  e0esc = false;
}

-- shift, a, and then the key "up"
abbrev some_keys : List Event
some_keys =
    down (plain 42) ∷ down (plain 30) ∷ up (plain 30) ∷ up (plain 42) ∷ down (extended 72) ∷ []

keys_typed_lem_example :
    keys_typed (all_bytes some_keys) no_flags
    ≡ (characters some_keys no_flags, after some_keys no_flags)
keys_typed_lem_example =
    keys_typed_lem some_keys no_flags
      (
        omega arith,
        (
          omega arith,
          (
            omega arith,
            (λ e. absurd (omega (arith, e))),
            (omega arith, (λ e. absurd (omega (arith, e))), (omega arith, tt)),
          ),
        ),
      )
      refl
