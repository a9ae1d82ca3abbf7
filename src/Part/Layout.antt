-- ===== src/Part/Layout.antt =====
-- Where the partitions of the first sector's table lie.
use inferno_kirkwood.Prelude.{
  ℕ, zero, suc, ◌+◌, ◌*◌, ◌^◌, ◌≤◌, ◌<◌, ◌≡◌, ap, subst, ◌⊎◌, inl, inr, arith, List, [], ◌∷◌, ◌++◌,
  All, All-append, Bool-cases, ◌==◌,
}
use inferno_kirkwood.Prelude.Bits.{bit_or_fields}
use inferno_kirkwood.Port.{ok, >>=-eq-ok}
use inferno_kirkwood.Part.Defs.{Part, IsNonneg}
use inferno_kirkwood.Part.Names.{partname}
use inferno_kirkwood.Part.Check.{partcheck}
use inferno_kirkwood.Part.Overlap.{HasNonneg, Disjoint, Inside, partcheck-ok}
use inferno_kirkwood.Part.Init.{byte_at, g32, mbr_entry, mbr_loop}

abbrev pub IsBytes : List ℕ → Type 0
IsBytes sector = All (λ c. c < 256) sector

byte_at-lt : (sector : List ℕ) (i : ℕ) → IsBytes sector → byte_at sector i < 256
unfolding byte_at
byte_at-lt [] i h = omega arith
byte_at-lt (c ∷ cs) zero h = h.0
byte_at-lt (c ∷ cs) (suc i) h = byte_at-lt cs i h.1

-- `g32` is the little-endian number of four bytes.
pub g32-eq :
    (p : List ℕ) (i : ℕ)
    → IsBytes p
    → g32 p i
      ≡ byte_at p (i + 3) * 2 ^ 24
        + byte_at p (i + 2) * 2 ^ 16
        + byte_at p (i + 1) * 2 ^ 8
        + byte_at p i
unfolding g32
g32-eq p i h = ground (
  arith,
  byte_at-lt p i h,
  byte_at-lt p (i + 1) h,
  byte_at-lt p (i + 2) h,
  bit_or_fields 8 (byte_at p (i + 1)) (byte_at p i),
  bit_or_fields 16 (byte_at p (i + 2)) (byte_at p (i + 1) * 2 ^ 8 + byte_at p i),
  bit_or_fields 24 (byte_at p (i + 3))
      (byte_at p (i + 2) * 2 ^ 16 + (byte_at p (i + 1) * 2 ^ 8 + byte_at p i)),
)

g32-lt : (p : List ℕ) (i : ℕ) → IsBytes p → g32 p i < 2 ^ 32
g32-lt p i h = omega (
  arith,
  g32-eq p i h,
  byte_at-lt p i h,
  byte_at-lt p (i + 1) h,
  byte_at-lt p (i + 2) h,
  byte_at-lt p (i + 3) h,
)

-- A partition with its end at or after its start, at most `size`, and of the size that it states.
pub record IsPlaced (size : ℕ) (p : Part) : Type 0 where
  pub ordered : p.s ≤ p.e
  pub within : p.e ≤ size
  pub sized : p.s + p.size ≡ p.e

-- Each partition is disjoint from every earlier one, or lies inside it, away from its ends.
abbrev pub AreApart : List Part → Type 0
AreApart [] = Unit
AreApart (q ∷ qs) = All (λ p. Disjoint p q ⊎ Inside p q) qs × AreApart qs

AreApart-append :
    (qs : List Part) (p : Part)
    → AreApart qs
    → All (λ q. Disjoint p q ⊎ Inside p q) qs
    → AreApart (qs ++ (p ∷ []))
AreApart-append [] p h k = (tt, tt)
AreApart-append (q ∷ qs) p h k = (
  All-append (λ x. Disjoint x q ⊎ Inside x q) qs (p ∷ []) h.0 (k.0, tt),
  AreApart-append qs p h.1 k.1,
)

nonneg_of_placed :
    (size : ℕ) (qs : List Part) → IsNonneg size → All (λ q. IsPlaced size q) qs → All HasNonneg qs
nonneg_of_placed size [] hs h = tt
nonneg_of_placed size (q ∷ qs) hs h =
    (omega (arith, h.0.ordered, h.0.within), nonneg_of_placed size qs hs h.1)

-- The whole disk, and then partitions that are placed and apart.
pub record IsLaidOut (size : ℕ) (whole : Part) (parts : List Part) : Type 0 where
  pub rest : List Part
  pub listed : parts ≡ whole ∷ rest
  pub placed : All (λ q. IsPlaced size q) rest
  pub apart : AreApart rest

module _ (seprint : ℕ → List ℕ → List ℕ × ℕ) (eve : List ℕ) (sector : List ℕ) (size : ℕ)
    (bytes : IsBytes sector) (small : IsNonneg size) where
  -- What an accepted check says of a new partition whose numbers come from the table.
  append-IsLaidOut :
      (whole p : Part) {parts : List Part}
      → p.s < 2 ^ 62
      → p.e < 2 ^ 64
      → p.s + p.size ≡ p.e
      → IsLaidOut size whole parts
      → partcheck p parts size ≡ ok tt
      → IsLaidOut size whole (parts ++ (p ∷ []))
  append-IsLaidOut whole p {parts} hs he sized laid checked =
      let (ordered, within, apart) =
        partcheck-ok p (whole ∷ laid.rest) size small (omega arith) he
          (nonneg_of_placed size laid.rest small laid.placed) (rw laid.listed at checked) in
      record {
        rest = laid.rest ++ (p ∷ []);
        listed = ap (λ (l : List Part). l ++ (p ∷ [])) laid.listed;
        placed =
            All-append (λ q. IsPlaced size q) laid.rest (p ∷ []) laid.placed
              (record { ordered = ordered; within = within; sized = sized }, tt);
        apart = AreApart-append laid.rest p laid.apart apart;
      }

  mbr_entry-IsLaidOut :
      (whole : Part) (i : ℕ) (parts : List Part) {parts' : List Part}
      → IsLaidOut size whole parts
      → mbr_entry seprint eve sector size i parts ≡ ok parts'
      → IsLaidOut size whole parts'
  unfolding mbr_entry
  mbr_entry-IsLaidOut whole i parts {parts'} laid e =
      elim (Bool-cases (byte_at sector (446 + i * 16 + 4) == 0)) [
        | inl unused ↦
            let same : ok parts ≡ ok parts' = rw unused at e in
            subst (λ l. IsLaidOut size whole l) (cc same) laid
        | inr used ↦
            let (name, named, later) =
              >>=-eq-ok (partname seprint (byte_at sector (446 + i * 16 + 4)) parts i) _
                (rw used at e) in
            let (_, checked, last) = >>=-eq-ok (partcheck _ parts size) _ later in
            subst (λ l. IsLaidOut size whole l) (cc last)
              (append-IsLaidOut whole _ (omega (arith, g32-lt sector (446 + i * 16 + 8) bytes))
                (omega arith)
                (omega (
                  arith,
                  g32-lt sector (446 + i * 16 + 8) bytes,
                  g32-lt sector (446 + i * 16 + 12) bytes,
                ))
                laid checked)
      ]

  pub mbr_loop-IsLaidOut :
      (whole : Part) (rounds i : ℕ) (parts : List Part) {parts' : List Part}
      → IsLaidOut size whole parts
      → mbr_loop seprint eve sector size rounds i parts ≡ ok parts'
      → IsLaidOut size whole parts'
  unfolding mbr_loop
  mbr_loop-IsLaidOut whole zero i parts laid e = subst (λ l. IsLaidOut size whole l) (cc e) laid
  mbr_loop-IsLaidOut whole (suc rounds) i parts laid e =
      let (next, entry, later) = >>=-eq-ok (mbr_entry seprint eve sector size i parts) _ e in
      mbr_loop-IsLaidOut whole rounds (i + 1) next (mbr_entry-IsLaidOut whole i parts laid entry)
        later
