-- ===== src/Part/Overlap.antt =====
-- What `partcheck` lets through.
use inferno_kirkwood.Prelude.{
  ℕ, ◌^◌, ◌≤◌, ◌<◌, ◌≡◌, refl, ◌⊎◌, inl, inr, arith, false, List, [], ◌∷◌, All, drop, Bool-cases,
  signed_ltb,
}
use inferno_kirkwood.Port.{ok}
use inferno_kirkwood.Part.Defs.{Part, IsNonneg}
use inferno_kirkwood.Part.Check.{overlaps, check_overlap, partcheck}

abbrev pub HasNonneg : Part → Type 0
HasNonneg q = IsNonneg q.s × IsNonneg q.e

abbrev pub Disjoint : Part → Part → Type 0
Disjoint p q = (q.e ≤ p.s) ⊎ (p.e ≤ q.s)

-- `p` lies inside `q`, away from both of its ends.
abbrev pub Inside : Part → Part → Type 0
Inside p q = (q.s < p.s) × (p.e < q.e)

overlaps-false :
    (p q : Part) → HasNonneg p → HasNonneg q → overlaps p q ≡ false → Disjoint p q ⊎ Inside p q
unfolding overlaps
overlaps-false p q hp hq e = ground arith

overlaps-Inside :
    (p q : Part) → HasNonneg p → HasNonneg q → p.s ≤ p.e → Inside p q → overlaps p q ≡ false
unfolding overlaps
overlaps-Inside p q hp hq le inside = ground arith

overlaps-after :
    (p q : Part)
    → HasNonneg p
    → HasNonneg q
    → p.s ≤ p.e
    → p.e ≤ q.s
    → p.e < q.e
    → overlaps p q ≡ false
unfolding overlaps
overlaps-after p q hp hq le after later = ground arith

check_overlap-ok :
    (p : Part) (others : List Part)
    → HasNonneg p
    → All HasNonneg others
    → check_overlap p others ≡ ok tt
    → All (λ q. Disjoint p q ⊎ Inside p q) others
unfolding check_overlap
check_overlap-ok p [] hp h e = tt
check_overlap-ok p (q ∷ others) hp h e = elim (Bool-cases (overlaps p q)) [
  | inl yes_overlap ↦ ground (arith, e)
  | inr no_overlap ↦
      (overlaps-false p q hp h.0 no_overlap, check_overlap-ok p others hp h.1 (rw no_overlap at e))
]

check_overlap-pass :
    (p : Part) (others : List Part)
    → All (λ q. overlaps p q ≡ false) others
    → check_overlap p others ≡ ok tt
unfolding check_overlap
check_overlap-pass p [] h = refl
check_overlap-pass p (q ∷ others) h = rw h.0 (check_overlap-pass p others h.1)

-- What `partcheck` accepts, for a start, disk size and other partitions that are not negative:
-- the partition ends at or after its start and within the size, and each other partition is
-- disjoint from it, or reaches beyond it at both ends.
pub partcheck-ok :
    (p : Part) (parts : List Part) (size : ℕ)
    → IsNonneg size
    → IsNonneg p.s
    → p.e < 2 ^ 64
    → All HasNonneg (drop 1 parts)
    → partcheck p parts size ≡ ok tt
    → (p.s ≤ p.e) × (p.e ≤ size) × All (λ q. Disjoint p q ⊎ Inside p q) (drop 1 parts)
unfolding partcheck
partcheck-ok p parts size hsize hs he h e = elim (Bool-cases (signed_ltb size p.e)) [
  | inl beyond ↦ ground (arith, beyond)
  | inr fits ↦ elim (Bool-cases (signed_ltb p.e p.s)) [
    | inl reversed ↦ ground (arith, fits, reversed)
    | inr ordered ↦
        let rest : check_overlap p (drop 1 parts) ≡ ok tt = rw (fits, ordered) at e in
        let le : p.s ≤ p.e = ground arith in
        let within : p.e ≤ size = ground arith in
        (le, within, check_overlap-ok p (drop 1 parts) (hs, omega arith) h rest)
  ]
]

passes :
    (p : Part) (parts : List Part) (size : ℕ)
    → IsNonneg size
    → p.s ≤ p.e
    → p.e ≤ size
    → check_overlap p (drop 1 parts) ≡ ok tt
    → partcheck p parts size ≡ ok tt
unfolding partcheck
passes p parts size hsize le fits h = ground (arith, h)

Inside-passes :
    (p : Part) (others : List Part)
    → HasNonneg p
    → p.s ≤ p.e
    → All HasNonneg others
    → All (λ q. Inside p q) others
    → All (λ q. overlaps p q ≡ false) others
Inside-passes p [] hp le h inside = tt
Inside-passes p (q ∷ others) hp le h inside =
    (overlaps-Inside p q hp (h.0) le inside.0, Inside-passes p others hp le h.1 inside.1)

-- A partition within the disk that lies strictly inside every other one, none of them negative,
-- is accepted: the test for overlaps looks only for an end of the other one inside the new one.
pub partcheck-Inside :
    (p : Part) (parts : List Part) (size : ℕ)
    → IsNonneg size
    → p.s ≤ p.e
    → p.e ≤ size
    → All HasNonneg (drop 1 parts)
    → All (λ q. Inside p q) (drop 1 parts)
    → partcheck p parts size ≡ ok tt
partcheck-Inside p parts size hsize le fits h inside = passes p parts size hsize le fits (
    check_overlap-pass p (drop 1 parts)
      (Inside-passes p (drop 1 parts) (omega arith, omega arith) le h inside))

after-passes :
    (p : Part) (others : List Part) (size : ℕ)
    → IsNonneg size
    → p.s ≤ p.e
    → p.e ≤ size
    → All HasNonneg others
    → All (λ q. (size ≤ q.s) × (q.s < q.e)) others
    → All (λ q. overlaps p q ≡ false) others
after-passes p [] size hsize le fits h after = tt
after-passes p (q ∷ others) size hsize le fits h after = (
  overlaps-after p q (omega arith, omega arith) h.0 le (omega arith) (omega arith),
  after-passes p others size hsize le fits h.1 after.1,
)

-- Nothing overlaps, as `partcheck` sees it, with partitions that start at or after the size.
pub partcheck-after :
    (p : Part) (parts : List Part) (size : ℕ)
    → IsNonneg size
    → p.s ≤ p.e
    → p.e ≤ size
    → All HasNonneg (drop 1 parts)
    → All (λ q. (size ≤ q.s) × (q.s < q.e)) (drop 1 parts)
    → partcheck p parts size ≡ ok tt
partcheck-after p parts size hsize le fits h after =
    passes p parts size hsize le fits (
      check_overlap-pass p (drop 1 parts)
        (after-passes p (drop 1 parts) size hsize le fits h after))
