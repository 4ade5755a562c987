-- ===== src/Console/Cga.antt =====
-- The screen: cgaputc stays inside its 24 rows of 80 cells.
use fp_sisop20_f.Base.{
  ℕ, ◌+◌, ◌*◌, ◌/◌, ◌<◌, ◌≤◌, ◌≡◌, refl, arith, update, inl, inr, Bool-cases, leb, ◌==◌,
}
use fp_sisop20_f.Console.{Screen, cgaputc, backspace, placed}

-- the number of cells
abbrev pub screen_size : ℕ
screen_size = 24 * 80

placed_lem :
    (c : ℕ) (s : Screen)
    → s.cursor < screen_size
    → ((placed c s).cursor ≤ screen_size)
      × ((a : ℕ) → screen_size ≤ a → (placed c s).cells a ≡ s.cells a)
unfolding update
placed_lem c s h = elim (Bool-cases (c == 10)) [
  | inl e ↦ rw e (omega arith, λ a l. refl)
  | inr e ↦ elim (Bool-cases (c == backspace)) [
    | inl f ↦ rw (e, f) (omega arith, λ a l. refl)
    | inr f ↦ rw (e, f) (omega arith, λ a l. ground arith)
  ]
]

-- `cgaputc` of any character, with the cursor on the screen: the cursor stays on the screen, the cell
-- under it is blank, and no memory behind the screen is written, scrolling included.
pub cgaputc_lem :
    (c : ℕ) (s : Screen)
    → s.cursor < screen_size
    → ((cgaputc c s).cursor < screen_size)
      × ((cgaputc c s).cells (cgaputc c s).cursor ≡ 32 + 0x700)
      × ((a : ℕ) → screen_size ≤ a → (cgaputc c s).cells a ≡ s.cells a)
unfolding cgaputc update
cgaputc_lem c s h =
    let (b, keep) = placed_lem c s h in
    elim (Bool-cases (leb 24 ((placed c s).cursor / 80))) [
      | inl e ↦ rw e (ground arith, ground arith, λ a l. ground (arith, keep a l))
      | inr e ↦ rw e (ground arith, ground arith, λ a l. ground (arith, keep a l))
    ]
