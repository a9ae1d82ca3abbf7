-- ===== src/Nand/Claims.antt =====
-- The register that claims the flash, the wait for the chip, and the chips that are recognised.
use inferno_kirkwood.Prelude.{
  ℕ, zero, suc, ◌+◌, ◌-◌, ◌*◌, ◌/◌, ◌%◌, ◌^◌, ◌<◌, ◌≡◌, refl, ◌∙◌, arith, List, [], ◌∷◌, Bool, true,
  false, not, ◌==◌, ◌&&◌, bit_and, u32, ◌>>>◌, Bool-cases, inl, inr, Option, some, All,
}
use inferno_kirkwood.Prelude.Bits.{bit_and_mask}
use inferno_kirkwood.Port.{Result, ok}
use inferno_kirkwood.Nand.Chip.{
  Chip, Nand, poll, is_idle, nandread, nandcmd, nandclaim, nandunclaim, readstatus,
}
use inferno_kirkwood.Nand.Erase.{start_erase, erasezone}
use inferno_kirkwood.Nand.Pages.{Verdict, write, program_page, read}
use inferno_kirkwood.Nand.Ident.{Geometry, Nandtab, geometry, idchip, find_chip, nandtab}
use inferno_kirkwood.Nand.Traffic.{poll_ctl, unclaim-claim}

-- The bit for ready in a status.
abbrev pub ready : ℕ → Bool
ready s = not (bit_and s 64 == 0)

module _ {S : Type 0} (k : Chip S) where
  -- The chip after `j` reads of the status, `pause` microseconds apart.
  unfoldable pub chip_at : (pause j : ℕ) → S → S
  chip_at pause zero s = s
  chip_at pause (suc j) s = chip_at pause j (k.wait pause (k.get s).1)

  -- Read `j` of the status, counted from 0.
  abbrev pub status : (pause j : ℕ) → S → ℕ
  status pause j s = (k.get (chip_at pause j s)).0

  -- What a wait leaves: read `j` is the first of `rounds` that is ready, it is the last, and its
  -- bit for a failure is the result; or all `rounds` reads were not ready, there was no other, and
  -- the wait failed. The flash is no longer claimed.
  pub data IsPolled (pause rounds : ℕ) (f : Nand S) (t : Bool × Nand S) : Type 0 where
    over :
        (j : ℕ)
        → j < rounds
        → ((i : ℕ) → i < j → ready (status pause i f.chip) ≡ false)
        → ready (status pause j f.chip) ≡ true
        → t.0 ≡ (bit_and (status pause j f.chip) 1 == 0)
        → t.1 ≡ nandunclaim k (record { ctl = f.ctl; chip = (k.get (chip_at pause j f.chip)).1 })
        → IsPolled pause rounds f t
    never :
        ((i : ℕ) → i < rounds → ready (status pause i f.chip) ≡ false)
        → t.0 ≡ false
        → t.1 ≡ nandunclaim k (record { ctl = f.ctl; chip = chip_at pause rounds f.chip })
        → IsPolled pause rounds f t

  IsPolled-later :
      (pause rounds : ℕ) (f : Nand S) {t : Bool × Nand S}
      → ready (k.get f.chip).0 ≡ false
      → IsPolled pause rounds (record f { chip = k.wait pause (k.get f.chip).1 }) t
      → IsPolled pause (suc rounds) f t
  unfolding chip_at
  IsPolled-later pause rounds f {t} busy (over j small before now verdict left) =
      over (suc j) (omega arith) all_before now verdict left
    where
      all_before : (i : ℕ) → i < suc j → ready (status pause i f.chip) ≡ false
      all_before zero lt = busy
      all_before (suc i) lt = before i (omega arith)
  IsPolled-later pause rounds f {t} busy (never before verdict left) = never all_before verdict left
    where
      all_before : (i : ℕ) → i < suc rounds → ready (status pause i f.chip) ≡ false
      all_before zero lt = busy
      all_before (suc i) lt = before i (omega arith)

  -- The wait is over at the first status that is ready, or after `rounds` reads of the status none
  -- of which is ready: no status is read after that. Its result is that the status has no bit for a
  -- failure, and without a status that is ready it is a failure. The flash is no longer claimed.
  pub poll-IsPolled :
      (pause rounds : ℕ) (f : Nand S) → IsPolled pause rounds f (poll k pause rounds f)
  unfolding poll chip_at
  poll-IsPolled pause zero f = never (λ i lt. absurd (omega arith)) refl refl
  poll-IsPolled pause (suc rounds) f =
      let (s, chip) = k.get f.chip in
      let rest = poll-IsPolled pause rounds (record f { chip = k.wait pause chip }) in
      elim (Bool-cases (bit_and s 64 == 0)) [
        | inl busy ↦ rw busy (IsPolled-later pause rounds f (rw busy refl) rest)
        | inr done ↦
            rw done (
              over 0 (omega arith) (λ i lt. absurd (omega arith)) (rw done refl) (ground arith)
                refl)
      ]

  start_erase-ctl : (page : ℕ) (f : Nand S) → (start_erase k page f).1.ctl ≡ (nandunclaim k f).ctl
  unfolding start_erase
  start_erase-ctl page f = poll_ctl k 50 100 _

  -- The pair of the ctl register before and after.
  unclaimed :
      (f : Nand S)
      → f.ctl / 2 % 2 ≡ 0
      → f.ctl < 2 ^ 32
      → (nandunclaim k (nandclaim k f)).ctl ≡ f.ctl
  unclaimed f clear fits = unclaim-claim f.ctl clear fits

  erasezone-ctl :
      (offset : ℕ) (f : Nand S)
      → f.ctl / 2 % 2 ≡ 0
      → f.ctl < 2 ^ 32
      → (erasezone k offset f).1.ctl ≡ f.ctl
  unfolding erasezone
  erasezone-ctl offset f clear fits =
      let back = unclaimed f clear fits in
      let g = (nandread k (nandcmd k readstatus (nandclaim k f))).1 in
      let s = (nandread k (nandcmd k readstatus (nandclaim k f))).0 in
      elim (Bool-cases (bit_and offset (128 * 1024 - 1) == 0)) [
        | inl aligned ↦ elim (Bool-cases (is_idle k s)) [
          | inl idle ↦ rw (aligned, idle) (start_erase-ctl (offset >>> 11) g ∙ back)
          | inr busy ↦ rw (aligned, busy) back
        ]
        | inr other ↦ rw other refl
      ]

  module _ (nandecc : List ℕ → ℕ) where
    program_page-ctl :
        (page : ℕ) (buf : List ℕ) (f : Nand S)
        → (program_page nandecc k page buf f).1.ctl ≡ (nandunclaim k f).ctl
    unfolding program_page
    program_page-ctl page buf f = poll_ctl k 10 100 _

    write-ctl :
        (offset : ℕ) (buf : List ℕ) (n : ℕ) (f : Nand S)
        → f.ctl / 2 % 2 ≡ 0
        → f.ctl < 2 ^ 32
        → (write nandecc k offset buf n f).1.ctl ≡ f.ctl
    unfolding write
    write-ctl offset buf n f clear fits =
        let back = unclaimed f clear fits in
        let g = (nandread k (nandcmd k readstatus (nandclaim k f))).1 in
        let s = (nandread k (nandcmd k readstatus (nandclaim k f))).0 in
        elim (Bool-cases (n == 2048 && bit_and offset (2048 - 1) == 0)) [
          | inl aligned ↦ elim (Bool-cases (is_idle k s)) [
            | inl idle ↦ rw (aligned, idle) (program_page-ctl (offset >>> 11) buf g ∙ back)
            | inr busy ↦ rw (aligned, busy) back
          ]
          | inr other ↦ rw other refl
        ]

    read-ctl :
        (nandecccorrect : List ℕ → ℕ → ℕ → Verdict × List ℕ) (pagesize offset : ℕ) (buf : List ℕ)
        (n : ℕ) (f : Nand S)
        → f.ctl / 2 % 2 ≡ 0
        → f.ctl < 2 ^ 32
        → (read nandecc nandecccorrect k pagesize offset buf n f).1.ctl ≡ f.ctl
    unfolding read
    read-ctl nandecccorrect pagesize offset buf n f clear fits =
        let back = unclaimed f clear fits in
        elim (Bool-cases (bit_and offset (u32 (pagesize + 2 ^ 32 - 1)) == 0 && n == 2048)) [
          | inl aligned ↦ rw aligned back
          | inr other ↦ rw other refl
        ]

    -- The bit that claims the flash is clear again after each operation, whatever its result is, and
    -- the other bits are what they were.
    pub operations-ctl :
        (nandecccorrect : List ℕ → ℕ → ℕ → Verdict × List ℕ) (pagesize offset : ℕ) (buf : List ℕ)
        (n : ℕ) (f : Nand S)
        → f.ctl / 2 % 2 ≡ 0
        → f.ctl < 2 ^ 32
        → ((idchip k f).1.ctl ≡ f.ctl)
          × (((erasezone k offset f).1.ctl ≡ f.ctl)
              × (((write nandecc k offset buf n f).1.ctl ≡ f.ctl)
                  × ((read nandecc nandecccorrect k pagesize offset buf n f).1.ctl ≡ f.ctl)))
    unfolding idchip
    operations-ctl nandecccorrect pagesize offset buf n f clear fits = (
      unclaimed f clear fits,
      (
        erasezone-ctl offset f clear fits,
        (
          write-ctl offset buf n f clear fits,
          read-ctl nandecccorrect pagesize offset buf n f clear fits,
        ),
      ),
    )

-- The geometry of a chip that is recognised, unless a division by 0 stops that.
abbrev pub IsCovered : Option (Result Geometry) → Type 0
IsCovered (some (ok g)) = (g.n * g.erasesize ≡ g.size) × ((g.start ≡ 0) × (g.end ≡ g.size))
IsCovered other = Unit

geometry-IsCovered :
    (id4 r : ℕ) (chip : Nandtab)
    → bit_and (id4 >>> 4) 3 ≡ r
    → r < 4
    → chip.size ≡ 2 ^ 29
    → IsCovered (some (geometry id4 chip))
unfolding geometry
geometry-IsCovered id4 zero chip e small size = rw e (omega arith, (refl, refl))
geometry-IsCovered id4 (suc zero) chip e small size = rw e (omega arith, (refl, refl))
geometry-IsCovered id4 (suc (suc zero)) chip e small size = rw e (omega arith, (refl, refl))
geometry-IsCovered id4 (suc (suc (suc zero))) chip e small size = rw e tt
geometry-IsCovered id4 (suc (suc (suc (suc r)))) chip e small size = absurd (omega arith)

find_chip-IsCovered :
    (maker device id4 : ℕ) (chips : List Nandtab)
    → All (λ chip. chip.size ≡ 2 ^ 29) chips
    → IsCovered (find_chip maker device id4 chips)
unfolding find_chip
find_chip-IsCovered maker device id4 [] sizes = tt
find_chip-IsCovered maker device id4 (chip ∷ chips) (size, sizes) =
    let rest = find_chip-IsCovered maker device id4 chips sizes in
    elim (Bool-cases (chip.vid == maker && chip.did == device)) [
      | inl yes_it_is ↦ rw yes_it_is (
          geometry-IsCovered id4 (bit_and (id4 >>> 4) 3) chip refl
            (omega (arith, bit_and_mask 2 (id4 >>> 4))) size)
      | inr other ↦ rw other rest
    ]

-- Whatever the chip answers, if it is recognised and its block size is known then the blocks are
-- just the whole chip.
pub idchip-IsCovered : {S : Type 0} (k : Chip S) (f : Nand S) → IsCovered (idchip k f).0
unfolding idchip
idchip-IsCovered k f = find_chip-IsCovered _ _ _ nandtab (refl, (refl, tt))
