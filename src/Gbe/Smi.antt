-- ===== src/Gbe/Smi.antt =====
-- etherkirkwood.c: the registers of the PHY, which are read and written by way of the register
-- `smi`. `reads n` is what read number `n` of that register gives, and `i` the number of the next.
use inferno_kirkwood.Prelude.{
  ℕ, zero, suc, ◌+◌, Bool, true, false, not, Option, none, some, List, [], ◌∷◌, ◌==◌, ◌&&◌, ◌||◌,
  if◌then◌else◌, bit_and, bit_or, complement32, low_mask, u32, ◌<<<◌,
}

abbrev pub phy_smi_timeout : ℕ
phy_smi_timeout = 100000

abbrev pub phy_smi_data_msk : ℕ
phy_smi_data_msk = low_mask 16

abbrev phy_smi_addr_msk : ℕ
phy_smi_addr_msk = 31 <<< 16

abbrev smi_reg_addr_msk : ℕ
smi_reg_addr_msk = 31 <<< 21

abbrev pub phy_smi_opcode_rd : ℕ
phy_smi_opcode_rd = 1 <<< 26

abbrev pub phy_smi_read_valid : ℕ
phy_smi_read_valid = 1 <<< 27

abbrev pub phy_smi_busy : ℕ
phy_smi_busy = 1 <<< 28

-- The loop, by what is left of the timeout: whether the bits were seen clear, and the next read.
unfoldable pub busy_loop : (reads : ℕ → ℕ) (waitbit : ℕ) → ℕ → ℕ → Bool × ℕ
busy_loop reads waitbit zero i = (false, i + 1)
busy_loop reads waitbit (suc timeout) i =
    let rest = busy_loop reads waitbit timeout (i + 1) in
    if bit_and (reads i) waitbit == 0 then (true, i + 1) else rest

unfoldable pub smibusywait : (reads : ℕ → ℕ) (waitbit : ℕ) → ℕ → Bool × ℕ
smibusywait reads waitbit i = busy_loop reads waitbit phy_smi_timeout i

-- `pa` and `ra` are words; a number with more than 5 bits is refused.
unfoldable pub bad_params : ℕ → ℕ → Bool
bad_params pa ra =
    not (bit_and (u32 (pa <<< 16)) (complement32 phy_smi_addr_msk) == 0)
    || not (bit_and (u32 (ra <<< 21)) (complement32 smi_reg_addr_msk) == 0)

-- What is read once the address has been written, or -1.
unfoldable pub read_data : (reads : ℕ → ℕ) → Bool × ℕ → Option ℕ
read_data reads (done, i) = if done then some (bit_and (reads i) phy_smi_data_msk) else none

-- The value read, or -1, and the words written to `smi`; `phy` is the register of that name.
unfoldable pub miird : (phy : ℕ) (reads : ℕ → ℕ) → ℕ → ℕ → ℕ → Option ℕ × List ℕ
miird phy reads i pa ra =
    if pa == 238 && ra == 238
    then (some (bit_and phy 255), [])
    else (if bad_params pa ra
        then (none, [])
        else (let i = (smibusywait reads phy_smi_busy i).1 in
            (
              read_data reads (smibusywait reads phy_smi_read_valid i),
              bit_or (bit_or (pa <<< 16) (ra <<< 21)) phy_smi_opcode_rd ∷ [],
            )))

-- The result, and the words written to `smi`; `v` is a word.
unfoldable pub miiwr : (reads : ℕ → ℕ) → ℕ → ℕ → ℕ → ℕ → Option ℕ × List ℕ
miiwr reads i pa ra v =
    if bad_params pa ra
    then (none, [])
    else (let i = (smibusywait reads phy_smi_busy i).1 in
        (
          some 0,
          bit_or (bit_or v (pa <<< 16)) (ra <<< 21)
              ∷ bit_and (reads i) (complement32 phy_smi_opcode_rd)
              ∷ [],
        ))
