-- ===== src/Nand/Simulated.antt =====
-- A chip for the tests: it is never busy, and keeps its pages as lists.
use inferno_kirkwood.Prelude.{
  ℕ, zero, suc, ◌+◌, ◌*◌, ◌/◌, ◌^◌, ◌<◌, ◌≡◌, ◌≢◌, refl, ◌∙◌, ap, arith, List, [], ◌∷◌, ◌++◌, true,
  false, ◌==◌, u8, ◌>>>◌, length, replicate, if◌then◌else◌, Bool-cases, inl, inr, get_or,
  length-replicate,
}
use inferno_kirkwood.Nand.Chip.{
  Chip, put_all, get_all, readstatus, readstart, program, programstart, erasestart,
}
use inferno_kirkwood.Nand.Laws.{IsFlash, programmed, to_read}

-- The last command, the bytes of the address and those that have been put, the latest first, the
-- bytes that are to be read, and the pages.
pub record Flash : Type 0 where
  pub mode : ℕ
  pub addrs : List ℕ
  pub bytes : List ℕ
  pub out : List ℕ
  pub cells : ℕ → List ℕ

-- As many bytes as a page has.
unfoldable pub fit : ℕ → List ℕ → List ℕ
fit zero xs = []
fit (suc n) [] = 0xff ∷ fit n []
fit (suc n) (x ∷ xs) = x ∷ fit n xs

unfoldable pub held : Flash → ℕ → List ℕ
held s q = fit 2112 (s.cells q)

abbrev pub onto : List ℕ → List ℕ → List ℕ
onto [] ys = ys
onto (x ∷ xs) ys = onto xs (x ∷ ys)

-- The page that the last three bytes of the address are for.
abbrev pub number_of : List ℕ → ℕ
number_of addrs = get_or addrs 2 0 + get_or addrs 1 0 * 256 + get_or addrs 0 0 * 65536

abbrev pub program_cells : Flash → ℕ → List ℕ
program_cells s q =
    if q == number_of s.addrs then programmed (held s q) (onto s.bytes []) else s.cells q

abbrev pub erase_cells : Flash → ℕ → List ℕ
erase_cells s q = if q / 64 == number_of s.addrs / 64 then replicate 2112 0xff else s.cells q

unfoldable pub command : ℕ → Flash → Flash
command b s =
    if b == programstart
    then record s { mode = b; cells = program_cells s }
    else (if b == erasestart
        then record s { mode = b; cells = erase_cells s }
        else (if b == readstart
            then record s { mode = b; out = held s (number_of s.addrs) }
            else record s {
              mode = b;
              addrs = [];
              bytes = [];
              out = 0xad ∷ 0xdc ∷ 0x80 ∷ 0x95 ∷ [];
            }))

-- The status is ready and idle.
abbrev pub pop : List ℕ → Flash → ℕ × Flash
pop [] s = (0, s)
pop (b ∷ out) s = (b, record s { out = out })

unfoldable pub fetch : Flash → ℕ × Flash
fetch s = if s.mode == readstatus then (0x60, s) else pop s.out s

unfoldable pub simulated : Chip Flash
simulated = record {
  cmd = command;
  addr = λ b s. record s { addrs = b ∷ s.addrs };
  put = λ b s. record s { bytes = b ∷ s.bytes };
  get = fetch;
  wait = λ l s. s;
}

length-fit : (n : ℕ) (xs : List ℕ) → length (fit n xs) ≡ n
unfolding fit
length-fit zero xs = refl
length-fit (suc n) [] = ap suc (length-fit n [])
length-fit (suc n) (x ∷ xs) = ap suc (length-fit n xs)

pub fit-length : (n : ℕ) (xs : List ℕ) → length xs ≡ n → fit n xs ≡ xs
unfolding fit
fit-length zero [] e = refl
fit-length zero (x ∷ xs) e = absurd (omega arith)
fit-length (suc n) [] e = absurd (omega arith)
fit-length (suc n) (x ∷ xs) e = ap (λ ys. x ∷ ys) (fit-length n xs (omega arith))

length-programmed : (xs ys : List ℕ) → length (programmed xs ys) ≡ length xs
length-programmed [] ys = refl
length-programmed (x ∷ xs) [] = refl
length-programmed (x ∷ xs) (y ∷ ys) = ap suc (length-programmed xs ys)

onto-onto : (xs ys zs : List ℕ) → onto (onto xs ys) zs ≡ onto ys (xs ++ zs)
onto-onto [] ys zs = refl
onto-onto (x ∷ xs) ys zs = onto-onto xs (x ∷ ys) zs

append-nil : (xs : List ℕ) → xs ++ [] ≡ xs
append-nil [] = refl
append-nil (x ∷ xs) = ap (λ ys. x ∷ ys) (append-nil xs)

-- The bytes that have been put are those that were put.
put_all-bytes :
    (xs : List ℕ) (s : Flash) → put_all simulated xs s ≡ record s { bytes = onto xs s.bytes }
unfolding put_all simulated
put_all-bytes [] s = refl
put_all-bytes (x ∷ xs) s = put_all-bytes xs (record s { bytes = x ∷ s.bytes })

abbrev reading : Flash → List ℕ → Flash
reading s xs = record s { mode = readstart; out = xs }

get_all-reading :
    (n : ℕ) (xs : List ℕ) (s : Flash) → length xs ≡ n → (get_all simulated n (reading s xs)).0 ≡ xs
unfolding get_all simulated fetch
get_all-reading zero [] s size = refl
get_all-reading zero (x ∷ xs) s size = absurd (omega arith)
get_all-reading (suc n) [] s size = absurd (omega arith)
get_all-reading (suc n) (x ∷ xs) s size = ap (λ ys. x ∷ ys) (get_all-reading n xs s (omega arith))

number_of-addr :
    (p : ℕ) (rest : List ℕ)
    → p < 2 ^ 18
    → number_of (u8 (p >>> 16) ∷ u8 (p >>> 8) ∷ u8 p ∷ rest) ≡ p
number_of-addr p rest small = omega arith

-- The state with the address of a page.
abbrev addressed : ℕ → Flash → Flash
addressed p s = record s {
  mode = program;
  addrs = u8 (p >>> 16) ∷ u8 (p >>> 8) ∷ u8 p ∷ 0 ∷ 0 ∷ [];
  bytes = [];
}

program_cells_self :
    (s : Flash) (p : ℕ) (bytes : List ℕ)
    → p < 2 ^ 18
    → fit 2112 (program_cells (record (addressed p s) { bytes = onto bytes [] }) p)
      ≡ programmed (held s p) bytes
unfolding held
program_cells_self s p bytes small =
    let s1 = addressed p s in
    let hit : (p == number_of s1.addrs) ≡ true =
      ground (arith, number_of-addr p (0 ∷ 0 ∷ []) small) in
    rw hit (
      fit-length 2112 (programmed (held s p) (onto (onto bytes []) []))
        (length-programmed (held s p) (onto (onto bytes []) []) ∙ length-fit 2112 (s.cells p))
      ∙ ap (programmed (held s p)) (onto-onto bytes [] [] ∙ append-nil bytes))

program_cells_other :
    (s : Flash) (p q : ℕ) (bytes : List ℕ)
    → p < 2 ^ 18
    → p ≢ q
    → program_cells (record (addressed p s) { bytes = bytes }) q ≡ s.cells q
program_cells_other s p q bytes small ne =
    let s1 = addressed p s in
    let miss : (q == number_of s1.addrs) ≡ false =
      ground (arith, number_of-addr p (0 ∷ 0 ∷ []) small, ne) in
    rw miss refl

-- The state before a block is erased.
abbrev erasing : ℕ → Flash → Flash
erasing p s = record s { addrs = u8 (p >>> 16) ∷ u8 (p >>> 8) ∷ u8 p ∷ [] }

erase_cells_self :
    (s : Flash) (p q : ℕ)
    → p < 2 ^ 18
    → p / 64 ≡ q / 64
    → fit 2112 (erase_cells (erasing p s) q) ≡ replicate 2112 0xff
erase_cells_self s p q small e =
    let hit : (q / 64 == number_of (erasing p s).addrs / 64) ≡ true =
      ground (arith, ap (λ n. n / 64) (number_of-addr p [] small), e) in
    rw hit (fit-length 2112 (replicate 2112 0xff) (length-replicate {A = ℕ} 2112 0xff))

erase_cells_other :
    (s : Flash) (p q : ℕ) → p < 2 ^ 18 → p / 64 ≢ q / 64 → erase_cells (erasing p s) q ≡ s.cells q
erase_cells_other s p q small ne =
    let miss : (q / 64 == number_of (erasing p s).addrs / 64) ≡ false =
      ground (arith, ap (λ n. n / 64) (number_of-addr p [] small), ne) in
    rw miss refl

get-held : (s : Flash) (q : ℕ) → held (fetch s).1 q ≡ held s q
unfolding held fetch
get-held s q = elim (Bool-cases (s.mode == readstatus)) [
  | inl asked ↦ rw asked refl
  | inr other ↦ rw other (popped s.out)
]
  where
    popped : (xs : List ℕ) → fit 2112 ((pop xs s).1.cells q) ≡ fit 2112 (s.cells q)
    popped [] = refl
    popped (x ∷ xs) = refl

pub simulated-IsFlash : IsFlash simulated held
unfolding simulated command held
simulated-IsFlash = record {
  to_program_page = λ s p bytes small size.
      ap (λ t. fit 2112 (program_cells t p)) (put_all-bytes bytes _)
      ∙ program_cells_self s p bytes small;
  to_program_other = λ s p q bytes small size ne.
      ap (λ t. fit 2112 (program_cells t q)) (put_all-bytes bytes _)
      ∙ ap (fit 2112) (program_cells_other s p q (onto bytes []) small ne);
  to_erase_page = λ s p q small e. erase_cells_self s p q small e;
  to_erase_other = λ s p q small ne. ap (fit 2112) (erase_cells_other s p q small ne);
  to_read_bytes = λ s p small.
      get_all-reading 2112 (to_read simulated p s).out (to_read simulated p s) (length-fit 2112 _)
      ∙ ap (λ j. fit 2112 (s.cells j)) (number_of-addr p (0 ∷ 0 ∷ []) small);
  to_read_page = λ s p q small. refl;
  get_page = λ s q. get-held s q;
  wait_page = λ s l q. refl;
  readstatus_page = λ s q. refl;
}
