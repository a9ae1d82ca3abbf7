-- ===== src/Part/Names.antt =====
-- `haspartname`, `partgenname` and `partname` of part.c. The kernel's `seprint` is not in the
-- repository. It is a parameter: `seprint room text` is the text that it leaves in a buffer of
-- `room` bytes when it prints `text`, and how far the pointer that it returns has moved.
use inferno_kirkwood.Prelude.{
  ℕ, zero, suc, ◌+◌, ◌-◌, ◌/◌, ◌%◌, Bool, true, false, List, [], ◌∷◌, ◌++◌, ◌==◌, ◌&&◌, ◌||◌,
  if◌then◌else◌, take, length,
}
use inferno_kirkwood.Port.{Error, Result, ok, err, hang}
use inferno_kirkwood.Part.Defs.{Part}

-- `strcmp(a, b) == 0`
unfoldable pub same_text : List ℕ → List ℕ → Bool
same_text [] [] = true
same_text [] (d ∷ ds) = false
same_text (c ∷ cs) [] = false
same_text (c ∷ cs) (d ∷ ds) = c == d && same_text cs ds

unfoldable pub haspartname : List Part → List ℕ → Bool
unfolding same_text
haspartname [] s = false
haspartname (p ∷ parts) s = same_text p.name s || haspartname parts s

-- What `%d` prints for a number from 0 on; a number below `fuel` has fewer than `fuel` digits.
unfoldable pub decimal_fuel : ℕ → ℕ → List ℕ → List ℕ
decimal_fuel zero n digits = digits
decimal_fuel (suc fuel) n digits =
    let digits' = (n % 10 + b'0') ∷ digits in
    let more = decimal_fuel fuel (n / 10) digits' in if n / 10 == 0 then digits' else more

unfoldable pub decimal : ℕ → List ℕ
unfolding decimal_fuel
decimal n = decimal_fuel (suc n) n []

abbrev plan9 : List ℕ
plan9 = b'p' ∷ b'l' ∷ b'a' ∷ b'n' ∷ b'9' ∷ []

abbrev fat9 : List ℕ
fat9 = b'9' ∷ b'f' ∷ b'a' ∷ b't' ∷ []

abbrev dos : List ℕ
dos = b'd' ∷ b'o' ∷ b's' ∷ []

-- The types of the FAT file systems.
abbrev pub is_fat : ℕ → Bool
is_fat typ = typ == 0x01 || typ == 0x04 || typ == 0x06 || typ == 0x0b || typ == 0x0c || typ == 0x0e

-- `sizeof pp->name`
abbrev pub name_size : ℕ
name_size = 32

module _ (seprint : ℕ → List ℕ → List ℕ × ℕ) where
  -- The loop over `i`, with `start` printed already and the pointer moved by `moved`. Of
  -- `length parts + 1` different names one is free, so with as much fuel only a loop that does
  -- not end runs out of it.
  unfoldable pub numbered_name : ℕ → ℕ → List Part → List ℕ → ℕ → Result (List ℕ)
  unfolding haspartname decimal
  numbered_name zero i parts start moved = hang
  numbered_name (suc fuel) i parts start moved =
      let (text, further) = seprint (name_size - moved) (decimal i) in
      let name = take moved start ++ text in
      let next = numbered_name fuel (i + 1) parts start moved in
      if further == name_size - moved
      then err Error.long_name
      else (if haspartname parts name then next else ok name)

  -- The name is returned; the source prints it into `pp->name`.
  unfoldable pub partgenname : List Part → List ℕ → List ℕ → Result (List ℕ)
  unfolding haspartname numbered_name
  partgenname parts first next =
      if haspartname parts first
      then (let (start, moved) = seprint name_size (next ++ (b'.' ∷ [])) in
          numbered_name (length parts + 1) 0 parts start moved)
      else (let (text, moved) = seprint name_size first in
          if moved == name_size then err Error.long_name else ok text)

  unfoldable pub partname : ℕ → List Part → ℕ → Result (List ℕ)
  unfolding partgenname
  partname typ parts i =
      if typ == 0x39
      then partgenname parts plan9 plan9
      else (if is_fat typ
          then partgenname parts fat9 dos
          else ok (seprint name_size (b'p' ∷ decimal i)).0)
