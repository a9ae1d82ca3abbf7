-- ===== src/Gbe/Polling.antt =====
-- How long the registers of the PHY are waited for.
use inferno_kirkwood.Prelude.{
  ℕ, zero, suc, ◌+◌, ◌*◌, ◌%◌, ◌^◌, ◌<◌, ◌≡◌, ◌≢◌, refl, arith, true, false, some, [], ◌∷◌, ◌==◌,
  ◌&&◌, if◌then◌else◌, bit_and, bit_or, u32, ◌<<<◌, sym, ap, ◌∙◌, ltb,
}
use inferno_kirkwood.Prelude.Bits.{bit_and_mask, bit_or_above, bit_and_split, bit_and_high_mask}
use inferno_kirkwood.Gbe.Smi.{
  busy_loop, smibusywait, bad_params, read_data, miird, phy_smi_busy, phy_smi_read_valid,
  phy_smi_timeout,
}

busy_loop_lem :
    (reads : ℕ → ℕ) (waitbit n t i : ℕ)
    → ((k : ℕ) → k < n → bit_and (reads (i + k)) waitbit ≢ 0)
    → bit_and (reads (i + n)) waitbit ≡ 0
    → busy_loop reads waitbit t i ≡ (if ltb n t then (true, i + n + 1) else (false, i + t + 1))
unfolding busy_loop
busy_loop_lem reads waitbit n zero i set clear = ground arith
busy_loop_lem reads waitbit zero (suc t) i set clear =
    let at : i + 0 ≡ i = omega arith in
    let seen : bit_and (reads i) waitbit ≡ 0 =
      ap (λ j. bit_and (reads j) waitbit) (sym at) ∙ clear in
    ground (arith, seen)
busy_loop_lem reads waitbit (suc n) (suc t) i set clear =
    let at : i + 0 ≡ i = omega arith in
    let unseen : bit_and (reads i) waitbit ≢ 0 =
      λ e. set 0 (omega arith) (ap (λ j. bit_and (reads j) waitbit) at ∙ e) in
    let later : i + 1 + n ≡ i + suc n = omega arith in
    let rest =
      busy_loop_lem reads waitbit n t (i + 1)
        (λ k lt e.
          let next : i + suc k ≡ i + 1 + k = omega arith in
          set (suc k) (omega arith) (ap (λ j. bit_and (reads j) waitbit) next ∙ e))
        (ap (λ j. bit_and (reads j) waitbit) later ∙ clear) in
    ground (arith, unseen, rest)

-- If the bits that are waited for are seen clear for the first time by read `n`, counted from the
-- first one made, then the wait succeeds with that read if `n` is below 100000, and otherwise it
-- gives up after 100001 reads.
pub smibusywait_lem :
    (reads : ℕ → ℕ) (waitbit n i : ℕ)
    → ((k : ℕ) → k < n → bit_and (reads (i + k)) waitbit ≢ 0)
    → bit_and (reads (i + n)) waitbit ≡ 0
    → smibusywait reads waitbit i
      ≡ (if ltb n phy_smi_timeout then (true, i + n + 1) else (false, i + phy_smi_timeout + 1))
unfolding smibusywait
smibusywait_lem reads waitbit n i set clear = busy_loop_lem reads waitbit n 100000 i set clear

-- A number of 5 digits that is moved up has no digit outside the field.
in_field :
    (k p s x : ℕ)
    → x * 2 ^ k < 2 ^ 32
    → s < 2 ^ k
    → bit_and x p ≡ 0
    → bit_and 0 s ≡ 0
    → bit_and (u32 (x <<< k)) (p * 2 ^ k + s) ≡ 0
in_field k p s x small fits apart none_below =
    let e : u32 (x <<< k) ≡ x * 2 ^ k + 0 = omega arith in
    ap (λ y. bit_and y (p * 2 ^ k + s)) e
    ∙ bit_and_split k x p 0 s (omega arith) fits
    ∙ rw (apart, none_below) (omega arith)

bad_params-false : (pa ra : ℕ) → pa < 32 → ra < 32 → bad_params pa ra ≡ false
unfolding bad_params
bad_params-false pa ra small small' =
    let phy =
      in_field 16 65504 65535 pa (omega arith) (omega arith)
        (bit_and_high_mask 11 5 pa (omega arith) ∙ omega arith) refl in
    let reg =
      in_field 21 2016 2097151 ra (omega arith) (omega arith)
        (bit_and_high_mask 6 5 ra (omega arith) ∙ omega arith) refl in
    ground (arith, phy, reg)

-- `miird` does not wait until the bit that says that the data are valid is set, but until it is
-- clear: if the PHY is not busy and the bit is not set yet at the first look, it takes the data
-- from the next read, which follows a delay. It has written the two addresses and the code for a read.
pub miird_early :
    (phy : ℕ) (reads : ℕ → ℕ) (i pa ra : ℕ)
    → pa < 32
    → ra < 32
    → bit_and (reads i) phy_smi_busy ≡ 0
    → bit_and (reads (i + 1)) phy_smi_read_valid ≡ 0
    → miird phy reads i pa ra
      ≡ (some (reads (i + 2) % 2 ^ 16), (2 ^ 26 + ra * 2 ^ 21 + pa * 2 ^ 16) ∷ [])
unfolding miird read_data
miird_early phy reads i pa ra small small' idle early =
    let good = bad_params-false pa ra small small' in
    let at : i + 0 ≡ i = omega arith in
    let at' : i + 1 + 0 ≡ i + 1 = omega arith in
    let first =
      smibusywait_lem reads phy_smi_busy 0 i (λ k lt. absurd (omega arith))
        (ap (λ j. bit_and (reads j) phy_smi_busy) at ∙ idle) in
    let second =
      smibusywait_lem reads phy_smi_read_valid 0 (i + 1) (λ k lt. absurd (omega arith))
        (ap (λ j. bit_and (reads j) phy_smi_read_valid) at' ∙ early) in
    let ids : bit_or (pa <<< 16) (ra <<< 21) ≡ ra * 2 ^ 21 + pa * 2 ^ 16 =
      bit_or_above 21 ra (pa <<< 16) (omega arith) in
    let word : bit_or (ra * 2 ^ 21 + pa * 2 ^ 16) (1 <<< 26) ≡ 2 ^ 26 + ra * 2 ^ 21 + pa * 2 ^ 16 =
      bit_or_above 26 1 (ra * 2 ^ 21 + pa * 2 ^ 16) (omega arith) ∙ omega arith in
    let low = bit_and_mask 16 (reads (i + 2)) in
    let other : (pa == 238 && ra == 238) ≡ false = ground arith in
    let next : i + 1 + 0 + 1 ≡ i + 2 = omega arith in
    let start : i + 0 + 1 ≡ i + 1 = omega arith in
    rw (other, good, first, start, second, next, ids, word, low) refl
