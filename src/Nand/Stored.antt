-- ===== src/Nand/Stored.antt =====
-- What a page holds after it has been written, and what a read of it gives.
use inferno_kirkwood.Prelude.{
  ℕ, zero, suc, ◌+◌, ◌-◌, ◌*◌, ◌^◌, ◌<◌, ◌≡◌, refl, ◌∙◌, sym, ap, arith, List, [], ◌∷◌, ◌++◌, Bool,
  true, false, bit_and, bit_or, u8, u32, ◌>>>◌, ◌<<<◌, take, drop, length, replicate, Bool-cases,
  inl, inr, length-append, take-append-drop,
}
use inferno_kirkwood.Prelude.Bits.{bit_and_mask, bit_or_fields, bit_or_above}
use inferno_kirkwood.Crc.Same.{IsBytes}
use inferno_kirkwood.Nand.Chip.{
  Chip, Nand, get_all, is_idle, nandread, nandcmd, nandclaim, readstatus,
}
use inferno_kirkwood.Nand.Pages.{
  Verdict, ecc_bytes, ecc_of, ecc_loop, oob_of, program_page, write, correct_loop, read,
}
use inferno_kirkwood.Nand.Laws.{IsFlash, programmed, to_program, to_read}
use inferno_kirkwood.Nand.Chip.{programstart}
use inferno_kirkwood.Nand.Traffic.{put_all-append, take-get_all, drop-get_all, poll_page}

-- The bytes of a checksum are put together again.
ecc_of-ecc_bytes : (v : ℕ) (rest : List ℕ) → v < 2 ^ 24 → ecc_of (ecc_bytes v ++ rest) ≡ v
ecc_of-ecc_bytes v rest small =
    let low : u8 v < 2 ^ 8 = omega arith in
    let two : bit_or (u8 (v >>> 8) <<< 8) (u8 v) ≡ u8 (v >>> 8) * 2 ^ 8 + u8 v =
      bit_or_fields 8 (u8 (v >>> 8)) (u8 v) low in
    let fits : u8 (v >>> 8) * 2 ^ 8 + u8 v < 2 ^ 16 = omega arith in
    ap (λ x. bit_or x (u8 (v >>> 16) <<< 16)) two
    ∙ (bit_or_above 16 (u8 (v >>> 16)) (u8 (v >>> 8) * 2 ^ 8 + u8 v) fits ∙ omega arith)

-- An erased page takes what is programmed.
programmed-erased :
    (n : ℕ) (bytes : List ℕ)
    → length bytes ≡ n
    → IsBytes bytes
    → programmed (replicate n 0xff) bytes ≡ bytes
programmed-erased zero [] count h = refl
programmed-erased zero (b ∷ bytes) count h = absurd (omega arith)
programmed-erased (suc n) [] count h = absurd (omega arith)
programmed-erased (suc n) (b ∷ bytes) count (byte, h) =
    let kept : bit_and b 0xff ≡ b = omega (arith, bit_and_mask 8 b) in
    rw (kept, programmed-erased n bytes (omega arith) h) refl

take-all : (n : ℕ) (xs : List ℕ) → length xs ≡ n → take n xs ≡ xs
take-all zero [] h = refl
take-all zero (x ∷ xs) h = absurd (omega arith)
take-all (suc n) [] h = refl
take-all (suc n) (x ∷ xs) h = ap (λ ys. x ∷ ys) (take-all n xs (omega arith))

pub no_success : {b : Bool} {A : Type 0} → b ≡ false → b ≡ true → A
no_success failed success = cc

-- The first `n` of a list that is put together, and the rest.
parts-append :
    (n : ℕ) (xs ys : List ℕ)
    → length xs ≡ n
    → ◌≡◌ {A = List ℕ × List ℕ} (take n (xs ++ ys), drop n (xs ++ ys)) (xs, ys)
parts-append zero [] ys h = refl
parts-append zero (x ∷ xs) ys h = absurd (omega arith)
parts-append (suc n) [] ys h = absurd (omega arith)
parts-append (suc n) (x ∷ xs) ys h =
    ap (λ (z : List ℕ × List ℕ). (x ∷ z.0, z.1)) (parts-append n xs ys (omega arith))

IsBytes-append : (xs ys : List ℕ) → IsBytes xs → IsBytes ys → IsBytes (xs ++ ys)
IsBytes-append [] ys h g = g
IsBytes-append (x ∷ xs) ys (byte, h) g = (byte, IsBytes-append xs ys h g)

IsBytes-take : (n : ℕ) (xs : List ℕ) → IsBytes xs → IsBytes (take n xs)
IsBytes-take zero xs h = tt
IsBytes-take (suc n) [] h = tt
IsBytes-take (suc n) (x ∷ xs) (byte, h) = (byte, IsBytes-take n xs h)

pub IsBytes-replicate : (n b : ℕ) → b < 256 → IsBytes (replicate n b)
IsBytes-replicate zero b h = tt
IsBytes-replicate (suc n) b h = (h, IsBytes-replicate n b h)

module _ (nandecc : List ℕ → ℕ) where
  ecc_loop-IsBytes : (n : ℕ) (p : List ℕ) → IsBytes (ecc_loop nandecc n p)
  unfolding ecc_loop
  ecc_loop-IsBytes zero p = tt
  ecc_loop-IsBytes (suc n) p =
      (omega arith, (omega arith, (omega arith, ecc_loop-IsBytes n (drop 256 p))))

  length-ecc_loop : (n : ℕ) (p : List ℕ) → length (ecc_loop nandecc n p) ≡ 3 * n
  unfolding ecc_loop
  length-ecc_loop zero p = refl
  length-ecc_loop (suc n) p = omega (arith, length-ecc_loop n (drop 256 p))

  oob_of-IsBytes : (p : List ℕ) → IsBytes (oob_of nandecc p)
  unfolding oob_of
  oob_of-IsBytes p =
      IsBytes-append (replicate 40 0xff) (ecc_loop nandecc 8 p)
        (IsBytes-replicate 40 0xff (omega arith)) (ecc_loop-IsBytes 8 p)

  spare-ecc_loop : (p : List ℕ) → drop 40 (oob_of nandecc p) ≡ ecc_loop nandecc 8 p
  unfolding oob_of
  spare-ecc_loop p = refl

  length-oob_of : (p : List ℕ) → length (oob_of nandecc p) ≡ 64
  unfolding oob_of
  length-oob_of p =
      omega (arith, length-append (replicate 40 0xff) (ecc_loop nandecc 8 p), length-ecc_loop 8 p)

  -- A piece whose checksum is the one that is stored is left alone.
  module _ (nandecccorrect : List ℕ → ℕ → ℕ → Verdict × List ℕ)
      (small : (c : List ℕ) → nandecc c < 2 ^ 24)
      (good : (c : List ℕ) (v : ℕ) → nandecccorrect c v v ≡ (Verdict.error_good, c)) where
    correct_loop-ecc_loop :
        (n : ℕ) (p : List ℕ)
        → correct_loop nandecc nandecccorrect n p (ecc_loop nandecc n p) ≡ (true, p)
    unfolding correct_loop ecc_loop
    correct_loop-ecc_loop zero p = refl
    correct_loop-ecc_loop (suc n) p =
        rw
          (
            ecc_of-ecc_bytes (nandecc (take 256 p)) (ecc_loop nandecc n (drop 256 p))
                (small (take 256 p)),
            good (take 256 p) (nandecc (take 256 p)),
            correct_loop-ecc_loop n (drop 256 p),
            take-append-drop 256 p,
          )
          refl

    module _ {S : Type 0} (k : Chip S) {page : S → ℕ → List ℕ} (flash : IsFlash k page) where
      -- What is read is the page, corrected, and the chip holds what it held.
      read-page :
          (p : ℕ) (old : List ℕ) (f : Nand S)
          → p < 2 ^ 18
          → (read nandecc nandecccorrect k 2048 (p * 2048) old 2048 f).0
            ≡ correct_loop nandecc nandecccorrect 8
                (take 2048 (page f.chip p))
                (drop 40 (drop 2048 (page f.chip p)))
      unfolding read
      read-page p old f fits =
          let aligned : bit_and (p * 2048) (u32 (2048 + 2 ^ 32 - 1)) ≡ 0 =
            omega (arith, bit_and_mask 11 (p * 2048)) in
          let number : (p * 2048) >>> 11 ≡ p = omega arith in
          let bytes = flash.to_read_bytes f.chip p fits in
          let body : (get_all k 2048 (to_read k p f.chip)).0 ≡ take 2048 (page f.chip p) =
            sym (take-get_all k 2048 2112 (to_read k p f.chip) (omega arith))
            ∙ ap (take 2048) bytes in
          let spare : (get_all k 64 (get_all k 2048 (to_read k p f.chip)).1).0
              ≡ drop 2048 (page f.chip p) =
            sym (drop-get_all k 2048 64 2112 (to_read k p f.chip) refl) ∙ ap (drop 2048) bytes in
          rw (aligned, number, body, spare) refl

      program_page-page :
          (p q : ℕ) (buf : List ℕ) (f : Nand S)
          → page (program_page nandecc k p buf f).1.chip q
            ≡ page (to_program k p (take 2048 buf ++ oob_of nandecc buf) f.chip) q
      unfolding program_page
      program_page-page p q buf f =
          poll_page k flash 10 100 _ q
          ∙ (flash.readstatus_page _ q
              ∙ (flash.wait_page _ 100 q
                  ∙ ap (λ s. page (k.cmd programstart s) q)
                      (sym (put_all-append k (take 2048 buf) (oob_of nandecc buf) _))))

      -- The status that is read before anything else changes no page.
      asked-page :
          (f : Nand S) (q : ℕ)
          → page (nandread k (nandcmd k readstatus (nandclaim k f))).1.chip q ≡ page f.chip q
      asked-page f q = flash.get_page (k.cmd readstatus f.chip) q ∙ flash.readstatus_page f.chip q

      -- A write that succeeds has programmed the page.
      write-programmed :
          (p q : ℕ) (buf : List ℕ) (f : Nand S)
          → (write nandecc k (p * 2048) buf 2048 f).0 ≡ true
          → page (write nandecc k (p * 2048) buf 2048 f).1.chip q
            ≡ page
                (to_program k p
                  (take 2048 buf ++ oob_of nandecc buf)
                  (nandread k (nandcmd k readstatus (nandclaim k f))).1.chip)
                q
      unfolding write
      write-programmed p q buf f success =
          let aligned : bit_and (p * 2048) 2047 ≡ 0 = omega (arith, bit_and_mask 11 (p * 2048)) in
          let number : (p * 2048) >>> 11 ≡ p = omega arith in
          let g = (nandread k (nandcmd k readstatus (nandclaim k f))).1 in
          let s = (nandread k (nandcmd k readstatus (nandclaim k f))).0 in
          elim (Bool-cases (is_idle k s)) [
            | inl idle ↦ rw (aligned, number, idle) (program_page-page p q buf g)
            | inr busy ↦
                let refused : (write nandecc k (p * 2048) buf 2048 f).0 ≡ false =
                  rw (aligned, busy) refl in
                no_success refused success
          ]

      -- A page that is erased, and then written without failure, is read as what was written.
      pub read-write :
          (p : ℕ) (buf old : List ℕ) (f : Nand S)
          → p < 2 ^ 18
          → page f.chip p ≡ replicate 2112 0xff
          → length buf ≡ 2048
          → IsBytes buf
          → (write nandecc k (p * 2048) buf 2048 f).0 ≡ true
          → (read nandecc nandecccorrect k 2048
              (p * 2048)
              old
              2048
              (write nandecc k (p * 2048) buf 2048 f).1).0
            ≡ (true, buf)
      read-write p buf old f fits erased count bytes success =
          let g = (nandread k (nandcmd k readstatus (nandclaim k f))).1 in
          let f1 = (write nandecc k (p * 2048) buf 2048 f).1 in
          let stored = buf ++ oob_of nandecc buf in
          let whole : take 2048 buf ≡ buf = take-all 2048 buf count in
          let size : length stored ≡ 2112 =
            omega (arith, length-append buf (oob_of nandecc buf), length-oob_of buf, count) in
          let holds : page f1.chip p ≡ stored =
            write-programmed p p buf f success
            ∙ (ap (λ xs. page (to_program k p (xs ++ oob_of nandecc buf) g.chip) p) whole
                ∙ (flash.to_program_page g.chip p stored fits size
                    ∙ (ap (λ xs. programmed xs stored) (asked-page f p ∙ erased)
                        ∙ programmed-erased 2112 stored size (
                            IsBytes-append buf (oob_of nandecc buf) bytes
                              (oob_of-IsBytes buf))))) in
          read-page p old f1 fits
          ∙ (ap
                (λ xs.
                  correct_loop nandecc nandecccorrect 8 (take 2048 xs) (drop 40 (drop 2048 xs)))
                holds
              ∙ (ap
                    (λ (z : List ℕ × List ℕ).
                      correct_loop nandecc nandecccorrect 8 z.0 (drop 40 z.1))
                    (parts-append 2048 buf (oob_of nandecc buf) count)
                  ∙ (ap (λ ys. correct_loop nandecc nandecccorrect 8 buf ys) (spare-ecc_loop buf)
                      ∙ correct_loop-ecc_loop 8 buf)))
