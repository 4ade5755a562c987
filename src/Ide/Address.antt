-- ===== src/Ide/Address.antt =====
-- The registers of the controller.
use fp_sisop20_f.Base.{
  ℕ, ◌+◌, ◌*◌, ◌/◌, ◌%◌, ◌^◌, ◌<◌, ◌≡◌, arith, Bool-cases, inl, inr, List, ◌∷◌, [], ◌==◌,
  if◌then◌else◌,
}
use fp_sisop20_f.Bcache.{Buf}
use fp_sisop20_f.Ide.{Out, outb, outsl, commands}

-- what was last written to a port
abbrev pub register : ℕ → List Out → ℕ → ℕ
register p [] r = r
register p (outb port v ∷ os) r = register p os (if p == port then v else r)
register p (outsl port bytes n ∷ os) r = register p os r

-- the sector and the drive that the controller reads in its registers
abbrev pub sector_of : List Out → ℕ
sector_of os =
    register 499 os 0
    + 2 ^ 8 * register 500 os 0
    + 2 ^ 16 * register 501 os 0
    + 2 ^ 24 * (register 502 os 0 % 16)

abbrev pub drive_of : List Out → ℕ
drive_of os = register 502 os 0 / 16 % 2

sector_lem :
    (s d : ℕ)
    → s < 2 ^ 28
    → s % 256
        + 2 ^ 8 * (s / 2 ^ 8 % 256)
        + 2 ^ 16 * (s / 2 ^ 16 % 256)
        + 2 ^ 24 * ((224 + d % 2 * 16 + s / 2 ^ 24 % 16) % 16)
      ≡ s
sector_lem s d h = omega (arith, h)

drive_lem : (s d : ℕ) → d < 2 → (224 + d % 2 * 16 + s / 2 ^ 24 % 16) / 16 % 2 ≡ d
drive_lem s d h = omega (arith, h)

-- What idestart writes to the controller's registers is the number of the sector, below 2 ^ 28, and
-- the number of the drive, 0 or 1, for a read and for a write.
pub commands_lem :
    (b : Buf)
    → b.sector < 2 ^ 28
    → b.dev < 2
    → (sector_of (commands b) ≡ b.sector) × (drive_of (commands b) ≡ b.dev)
unfolding commands
commands_lem b h d = elim (Bool-cases b.dirty) [
  | inl e ↦ rw e (sector_lem b.sector b.dev h, drive_lem b.sector b.dev d)
  | inr e ↦ rw e (sector_lem b.sector b.dev h, drive_lem b.sector b.dev d)
]
