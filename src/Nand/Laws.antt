-- ===== src/Nand/Laws.antt =====
-- What the driver relies on of a NAND flash chip.
use inferno_kirkwood.Prelude.{
  ℕ, ◌/◌, ◌^◌, ◌<◌, ◌≡◌, ◌≢◌, List, [], ◌∷◌, bit_and, u8, ◌>>>◌, length, replicate,
}
use inferno_kirkwood.Nand.Chip.{
  Chip, put_all, get_all, readstatus, read_page, readstart, program, programstart, erase,
  erasestart,
}

-- Programming clears bits.
abbrev pub programmed : List ℕ → List ℕ → List ℕ
programmed [] bytes = []
programmed (b ∷ bs) [] = b ∷ bs
programmed (b ∷ bs) (c ∷ bytes) = bit_and c b ∷ programmed bs bytes

module _ {S : Type 0} (k : Chip S) where
  open k use {cmd, addr, put, get, wait}

  -- The three bytes of a page's number.
  abbrev pub addr_page : ℕ → S → S
  addr_page page s = addr (u8 (page >>> 16)) (addr (u8 (page >>> 8)) (addr (u8 page) s))

  -- The commands that the driver gives to program, to erase and to read.
  abbrev pub to_program : ℕ → List ℕ → S → S
  to_program page bytes s =
      cmd programstart (put_all k bytes (addr_page page (addr 0 (addr 0 (cmd program s)))))

  abbrev pub to_erase : ℕ → S → S
  to_erase page s = cmd erasestart (addr_page page (cmd erase s))

  abbrev pub to_read : ℕ → S → S
  to_read page s = wait 50 (cmd readstart (addr_page page (addr 0 (addr 0 (cmd read_page s)))))

  -- A chip of pages of 2048 bytes with 64 spare ones, and blocks of 64 pages, without failures:
  -- `page s p` is what it holds.
  pub record IsFlash (page : S → ℕ → List ℕ) : Type 0 where
    pub to_program_page :
        (s : S) (p : ℕ) (bytes : List ℕ)
        → p < 2 ^ 18
        → length bytes ≡ 2112
        → page (to_program p bytes s) p ≡ programmed (page s p) bytes
    pub to_program_other :
        (s : S) (p q : ℕ) (bytes : List ℕ)
        → p < 2 ^ 18
        → length bytes ≡ 2112
        → p ≢ q
        → page (to_program p bytes s) q ≡ page s q
    pub to_erase_page :
        (s : S) (p q : ℕ)
        → p < 2 ^ 18
        → p / 64 ≡ q / 64
        → page (to_erase p s) q ≡ replicate 2112 0xff
    pub to_erase_other :
        (s : S) (p q : ℕ) → p < 2 ^ 18 → p / 64 ≢ q / 64 → page (to_erase p s) q ≡ page s q
    pub to_read_bytes : (s : S) (p : ℕ) → p < 2 ^ 18 → (get_all k 2112 (to_read p s)).0 ≡ page s p
    pub to_read_page : (s : S) (p q : ℕ) → p < 2 ^ 18 → page (to_read p s) q ≡ page s q
    pub get_page : (s : S) (q : ℕ) → page (get s).1 q ≡ page s q
    pub wait_page : (s : S) (l q : ℕ) → page (wait l s) q ≡ page s q
    pub readstatus_page : (s : S) (q : ℕ) → page (cmd readstatus s) q ≡ page s q
