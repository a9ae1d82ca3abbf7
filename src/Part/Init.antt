-- ===== src/Part/Init.antt =====
-- `partinit` of part.c. Memory is never short, so `partrealloc` only makes room. What the
-- repository lacks comes as parameters: `seprint` (see `Names`), `tokenize`, which cuts a line
-- into at most four fields, and `strtoull`; so do `eve`, the name of the kernel's owner, `stale`,
-- what the type field of new memory holds (part.c does not set that of a plan 9 partition), and
-- `read`, the driver's function: the bytes that it reads, by their number and offset.
use inferno_kirkwood.Prelude.{
  ℕ, zero, suc, ◌+◌, ◌-◌, ◌*◌, ◌^◌, Option, none, some, List, [], ◌∷◌, ◌++◌, bit_or, ◌==◌, ◌||◌,
  not, if◌then◌else◌, length, get_or, get_elem?, drop, u8, u64, ◌<<<◌, signed_ltb,
}
use inferno_kirkwood.Port.{Error, Result, ok, err, fault, ◌>>=◌, ◌>>◌, raise_if}
use inferno_kirkwood.Part.Defs.{Part}
use inferno_kirkwood.Part.Names.{same_text, partgenname, partname}
use inferno_kirkwood.Part.Check.{partcheck}

unfoldable pub byte_at : List ℕ → ℕ → ℕ
byte_at sector i = get_or sector i 0

-- `g32(p+i)`
unfoldable pub g32 : List ℕ → ℕ → ℕ
unfolding byte_at
g32 p i =
    bit_or (byte_at p (i + 3) <<< 24)
      (bit_or (byte_at p (i + 2) <<< 16) (bit_or (byte_at p (i + 1) <<< 8) (byte_at p i)))

-- The complete lines before the first NUL: the pieces that `strchr(s, '\n')` finds one after the
-- other. `line` is what has been read of the present one.
unfoldable pub lines_from : List ℕ → List ℕ → List (List ℕ)
lines_from line [] = []
lines_from line (c ∷ cs) =
    let next = line ∷ lines_from [] cs in
    let longer = lines_from (line ++ (c ∷ [])) cs in
    if c == 0 then [] else if c == 10 then next else longer

abbrev part_word : List ℕ
part_word = b'p' ∷ b'a' ∷ b'r' ∷ b't' ∷ []

-- The four fields of a line that begins with `part`.
unfoldable pub part_fields : List (List ℕ) → Option (List ℕ × List ℕ × List ℕ)
part_fields (f0 ∷ f1 ∷ f2 ∷ f3 ∷ []) = if same_text f0 part_word then some (f1, f2, f3) else none
part_fields f = none

-- `partclear` and the fields that are set in `partinit`
unfoldable pub new_part : List ℕ → List Part → ℕ → List ℕ → ℕ → ℕ → ℕ → Part
new_part eve parts typ name s e size = record {
  index = u8 (length parts);
  typ = typ;
  name = name;
  s = s;
  e = e;
  size = size;
  uid = eve;
  perm = 0x1b0;
  isopen = 0;
}

module _ (seprint : ℕ → List ℕ → List ℕ × ℕ) (eve : List ℕ) where
  -- One round of the first loop, on entry `i` of the table.
  unfoldable pub mbr_entry : List ℕ → ℕ → ℕ → List Part → Result (List Part)
  unfolding new_part
  mbr_entry p size i parts =
      let o = 446 + i * 16 in
      let typ = byte_at p (o + 4) in
      let s = u64 (g32 p (o + 8) * 512) in
      let n = u64 (g32 p (o + 12) * 512) in
      if typ == 0 then ok parts else (do
        name ← partname seprint typ parts i
        let pp = new_part eve parts typ name s (u64 (s + n)) n
        partcheck pp parts size
        ok (parts ++ (pp ∷ [])))

  -- The first loop, by the rounds left.
  unfoldable pub mbr_loop : List ℕ → ℕ → ℕ → ℕ → List Part → Result (List Part)
  unfolding mbr_entry
  mbr_loop p size zero i parts = ok parts
  mbr_loop p size (suc rounds) i parts = do
    parts ← mbr_entry p size i parts
    mbr_loop p size rounds (i + 1) parts

module _ (seprint : ℕ → List ℕ → List ℕ × ℕ) (tokenize : List ℕ → List (List ℕ))
    (strtoull : List ℕ → ℕ) (eve : List ℕ) (stale : ℕ) where
  -- A line of the table in partition `i`, which is `whole`: its name, start and end.
  unfoldable pub plan9_entry : ℕ → Part → List Part → List ℕ × List ℕ × List ℕ → Result (List Part)
  unfolding new_part
  plan9_entry i whole parts (f1, f2, f3) = do
    name ← partgenname seprint parts f1 f1
    let s = u64 (strtoull f2 * 512)
    let e = u64 (strtoull f3 * 512)
    let pp = new_part eve parts stale name s e (u64 (e + 2 ^ 64 - s))
    partcheck pp (drop i parts) whole.size
    ok (parts ++ (record pp { s = u64 (s + whole.s); e = u64 (e + whole.e) } ∷ []))

  unfoldable pub plan9_line : ℕ → Part → List Part → List ℕ → Result (List Part)
  plan9_line i whole parts line = elim (part_fields (tokenize line)) [
    | none ↦ err Error.bad_plan9
    | some fields ↦ plan9_entry i whole parts fields
  ]

  unfoldable pub plan9_table : ℕ → Part → List Part → List (List ℕ) → Result (List Part)
  plan9_table i whole parts [] = ok parts
  plan9_table i whole parts (line ∷ lines) = do
    parts ← plan9_line i whole parts line
    plan9_table i whole parts lines

module _ (seprint : ℕ → List ℕ → List ℕ × ℕ) (tokenize : List ℕ → List (List ℕ))
    (strtoull : List ℕ → ℕ) (eve : List ℕ) (stale : ℕ) (read : ℕ → ℕ → Result (List ℕ)) where
  -- One round of the second loop, on partition `i`.
  unfoldable pub plan9_part : ℕ → List Part → Result (List Part)
  plan9_part i parts = elim (get_elem? parts i) [
    | none ↦ fault
    | some whole ↦
        (if not (whole.typ == 0x39) || signed_ltb whole.size (2 * 512) then ok parts else (do
          p ← read 512 (u64 (whole.s + 512))
          raise_if (not (length p == 512)) Error.reading_plan9
          plan9_table seprint tokenize strtoull eve stale i whole parts (lines_from [] p)))
  ]

  -- The second loop, by the rounds left.
  unfoldable pub plan9_loop : ℕ → ℕ → List Part → Result (List Part)
  plan9_loop zero i parts = ok parts
  plan9_loop (suc rounds) i parts = do parts ← plan9_part i parts; plan9_loop rounds (i + 1) parts

  -- The argument is the list with the partition for the whole disk alone. A result `ok` is the
  -- new list; the source returns its length.
  unfoldable pub partinit : ℕ → List Part → Result (List Part)
  partinit size parts = do
    p ← read 512 0
    raise_if (not (length p == 512)) Error.reading_mbr
    raise_if (not (byte_at p 510 == 0x55) || not (byte_at p 511 == 0xaa))
        Error.missing_mbr_signature
    parts ← mbr_loop seprint eve p size 4 0 parts
    plan9_loop (length parts - 1) 1 parts
