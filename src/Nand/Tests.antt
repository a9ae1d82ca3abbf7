-- ===== src/Nand/Tests.antt =====
-- The driver with a simulated chip.
use inferno_kirkwood.Prelude.{
  ℕ, ◌+◌, ◌*◌, ◌%◌, ◌^◌, ◌<◌, ◌≡◌, refl, arith, List, [], ◌∷◌, true, ◌==◌, if◌then◌else◌, replicate,
  length-replicate,
}
use inferno_kirkwood.Port.{fault}
use inferno_kirkwood.Nand.Chip.{Nand, poll}
use inferno_kirkwood.Nand.Erase.{erasezone}
use inferno_kirkwood.Nand.Pages.{Verdict, error_bad, error_good, write, read, program_page}
use inferno_kirkwood.Nand.Ident.{geometry, idchip, samsung}
use inferno_kirkwood.Nand.Stored.{read-write, IsBytes-replicate}
use inferno_kirkwood.Nand.Claims.{
  IsPolled, poll-IsPolled, IsCovered, idchip-IsCovered, operations-ctl,
}
use inferno_kirkwood.Nand.Simulated.{
  Flash, fit-length, held, simulated, simulated-IsFlash, command, fetch,
}

abbrev blank : Nand Flash
blank = record {
  ctl = 0;
  chip = record {
    mode = 0;
    addrs = [];
    bytes = [];
    out = [];
    cells = λ q. if q == 5 then replicate 2112 0x00 else replicate 2112 0xff;
  };
}

-- A checksum of the length, and a correction that only knows sums that agree.
abbrev add_up : List ℕ → ℕ
add_up [] = 0
add_up (b ∷ bs) = (b + add_up bs) % 2 ^ 24

add_up-small : (c : List ℕ) → add_up c < 2 ^ 24
add_up-small [] = omega arith
add_up-small (b ∷ bs) = omega arith

abbrev agree : List ℕ → ℕ → ℕ → Verdict × List ℕ
agree c v w = if v == w then (error_good, c) else (error_bad, c)

agree-good : (c : List ℕ) (v : ℕ) → agree c v v ≡ (error_good, c)
agree-good c v = ground arith

abbrev sevens : List ℕ
sevens = replicate 2048 7

blank_page : held blank.chip 3 ≡ replicate 2112 0xff
unfolding held
blank_page = fit-length 2112 (replicate 2112 0xff) (length-replicate {A = ℕ} 2112 0xff)

sevens_written : (write add_up simulated (3 * 2048) sevens 2048 blank).0 ≡ true
unfolding write program_page poll simulated command fetch
sevens_written = refl

-- The program stops at a chip of which the size of a block is not known.
unknown_block : geometry 0x30 (record { vid = samsung; did = 0xdc; size = 2 ^ 29 }) ≡ fault
unfolding geometry
unknown_block = refl

read-write_example :
    (read add_up agree simulated 2048
      (3 * 2048)
      []
      2048
      (write add_up simulated (3 * 2048) sevens 2048 blank).1).0
    ≡ (true, sevens)
read-write_example =
    read-write add_up agree add_up-small agree-good simulated simulated-IsFlash 3 sevens [] blank
      (omega arith) blank_page (length-replicate {A = ℕ} 2048 7)
      (IsBytes-replicate 2048 7 (omega arith)) sevens_written

poll-IsPolled_example : IsPolled simulated 50 100 blank (poll simulated 50 100 blank)
poll-IsPolled_example = poll-IsPolled simulated 50 100 blank

idchip-IsCovered_example : IsCovered (idchip simulated blank).0
idchip-IsCovered_example = idchip-IsCovered simulated blank

operations-ctl_example :
    ((idchip simulated blank).1.ctl ≡ 0)
    × (((erasezone simulated 0 blank).1.ctl ≡ 0)
        × (((write add_up simulated 0 sevens 2048 blank).1.ctl ≡ 0)
            × ((read add_up agree simulated 2048 0 sevens 2048 blank).1.ctl ≡ 0)))
operations-ctl_example =
    operations-ctl simulated add_up agree 2048 0 sevens 2048 blank refl (omega arith)
