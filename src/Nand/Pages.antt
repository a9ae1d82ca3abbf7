-- ===== src/Nand/Pages.antt =====
-- kwnand.c: the writing and the reading of a page, with its checksums.
use inferno_kirkwood.Prelude.{
  ℕ, zero, suc, ◌+◌, ◌-◌, ◌^◌, Bool, true, false, List, [], ◌∷◌, ◌++◌, ◌==◌, ◌&&◌, bit_and, bit_or,
  u8, u32, ◌<<<◌, ◌>>>◌, if◌then◌else◌, take, drop, get_or, replicate,
}
use inferno_kirkwood.Nand.Chip.{
  Chip, Nand, nandcmd, nandaddr, nandread, nandwriten, nandreadn, microdelay, nandclaim,
  nandunclaim, is_idle, poll, readstatus, read_page, readstart, program, programstart,
}

-- What `nandecccorrect` finds.
pub data Verdict : Type 0 where
  error_bad error_one_bit error_one_bit_in_ecc error_good : Verdict

-- The three bytes of a checksum, in the order in which they are stored, and back.
abbrev pub ecc_bytes : ℕ → List ℕ
ecc_bytes v = u8 (v >>> 8) ∷ u8 v ∷ u8 (v >>> 16) ∷ []

abbrev pub ecc_of : List ℕ → ℕ
ecc_of eccp = bit_or (bit_or (get_or eccp 0 0 <<< 8) (get_or eccp 1 0)) (get_or eccp 2 0 <<< 16)

module _ (nandecc : List ℕ → ℕ) where
  -- The checksums of the pieces of 256 bytes.
  unfoldable pub ecc_loop : ℕ → List ℕ → List ℕ
  ecc_loop zero p = []
  ecc_loop (suc i) p = ecc_bytes (nandecc (take 256 p)) ++ ecc_loop i (drop 256 p)

  -- The spare bytes of a page.
  unfoldable pub oob_of : List ℕ → List ℕ
  oob_of buf = replicate 40 0xff ++ ecc_loop 8 buf

  module _ {S : Type 0} (k : Chip S) where
    -- The command to program a page and the wait for its end.
    unfoldable pub program_page : ℕ → List ℕ → Nand S → Bool × Nand S
    program_page page buf f =
        let f = nandcmd k program f in
        let f = nandaddr k 0 f in
        let f = nandaddr k 0 f in
        let f = nandaddr k (u8 page) f in
        let f = nandaddr k (u8 (page >>> 8)) f in
        let f = nandaddr k (u8 (page >>> 16)) f in
        let f = nandwriten k (take 2048 buf) f in
        let f = nandwriten k (oob_of buf) f in
        let f = nandcmd k programstart f in
        let f = microdelay k 100 f in let f = nandcmd k readstatus f in poll k 10 100 f

    -- `true` for the result 0, `false` for -1; `n` bytes of `buf` are to be written.
    unfoldable pub write : (offset : ℕ) (buf : List ℕ) (n : ℕ) → Nand S → Bool × Nand S
    write offset buf n f =
        let (s, g) = nandread k (nandcmd k readstatus (nandclaim k f)) in
        let written = program_page (offset >>> 11) buf g in
        if n == 2048 && bit_and offset (2048 - 1) == 0
        then (if is_idle k s then written else (false, nandunclaim k g))
        else (false, f)

  -- `nandecccorrect(p, v, &w, 1)` for a piece, the checksum of what was read and the stored one: its
  -- verdict and the piece as it leaves it.
  module _ (nandecccorrect : List ℕ → ℕ → ℕ → Verdict × List ℕ) where
    abbrev pub is_bad : Verdict → Bool
    is_bad error_bad = true
    is_bad error_one_bit = false
    is_bad error_one_bit_in_ecc = false
    is_bad error_good = false

    unfoldable pub correct_loop : ℕ → (p eccp : List ℕ) → Bool × List ℕ
    correct_loop zero p eccp = (true, p)
    correct_loop (suc i) p eccp =
        let (verdict, q) = nandecccorrect (take 256 p) (nandecc (take 256 p)) (ecc_of eccp) in
        let (done, rest) = correct_loop i (drop 256 p) (drop 3 eccp) in
        if is_bad verdict then (false, q ++ drop 256 p) else (done, q ++ rest)

    -- The result, 0 or -1, with the buffer, which is left alone if the call asks for anything but a
    -- page.
    unfoldable pub read :
        {S : Type 0}
        → Chip S
        → (pagesize offset : ℕ) (buf : List ℕ) (n : ℕ) → Nand S
        → (Bool × List ℕ) × Nand S
    read k pagesize offset buf n f =
        let addr = bit_and offset (u32 (pagesize + 2 ^ 32 - 1)) in
        let page = offset >>> 11 in
        let f1 = nandcmd k read_page (nandclaim k f) in
        let f1 = nandaddr k (u8 addr) f1 in
        let f1 = nandaddr k (u8 (addr >>> 8)) f1 in
        let f1 = nandaddr k (u8 page) f1 in
        let f1 = nandaddr k (u8 (page >>> 8)) f1 in
        let f1 = nandaddr k (u8 (page >>> 16)) f1 in
        let f1 = nandcmd k readstart f1 in
        let f1 = microdelay k 50 f1 in
        let (p, f2) = nandreadn k n f1 in
        let (oob, f3) = nandreadn k 64 f2 in
        let corrected = correct_loop 8 p (drop 40 oob) in
        if addr == 0 && n == 2048 then (corrected, nandunclaim k f3) else ((false, buf), f)
