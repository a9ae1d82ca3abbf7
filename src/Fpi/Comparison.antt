-- ===== src/Fpi/Comparison.antt =====
-- Which conditions hold after a comparison.
use inferno_kirkwood.Prelude.{
  ℕ, ap, ◌*◌, ◌^◌, ◌<◌, ◌≡◌, refl, ◌∙◌, ◌⊎◌, inl, inr, arith, Bool, true, false, ◌||◌,
  if◌then◌else◌, Bool-cases, Option, none, some,
}
use inferno_kirkwood.Fpi.Defs.{Internal, Library, Compared, is_weird}
use inferno_kirkwood.Fpi.Condition.{condok, same_nv, other_nv, fcmp, set_flags}
use inferno_kirkwood.Fpi.Flags.{condok-set_flags}

-- The order of two numbers, `none` if one is an infinity or not a number.
unfoldable pub ordering : Library → Internal → Internal → Option Compared
ordering lib n m = if is_weird m || is_weird n then none else some (lib.fpicmp n m)

abbrev flags_of : Option Compared → ℕ
flags_of none = 3
flags_of (some Compared.greater) = 2
flags_of (some Compared.equal) = 6
flags_of (some Compared.less) = 8

Compared-cases :
    (o : Compared) → (o ≡ Compared.less) ⊎ ((o ≡ Compared.equal) ⊎ (o ≡ Compared.greater))
Compared-cases Compared.less = inl refl
Compared-cases Compared.equal = inr (inl refl)
Compared-cases Compared.greater = inr (inr refl)

fcmp-flags_of :
    (lib : Library) (n m : Internal) → fcmp lib n m ≡ flags_of (ordering lib n m) * 2 ^ 28
unfolding fcmp ordering
fcmp-flags_of lib n m = elim (Bool-cases (is_weird m || is_weird n)) [
  | inl e ↦ rw e refl
  | inr e ↦ elim (Compared-cases (lib.fpicmp n m)) [
    | inl c ↦ rw (e, c) refl
    | inr (inl c) ↦ rw (e, c) refl
    | inr (inr c) ↦ rw (e, c) refl
  ]
]

flags_of-lt : (o : Option Compared) → flags_of o < 16
flags_of-lt none = omega arith
flags_of-lt (some Compared.greater) = omega arith
flags_of-lt (some Compared.equal) = omega arith
flags_of-lt (some Compared.less) = omega arith

abbrev pub equal_to : Option Compared → Bool
equal_to (some Compared.equal) = true
equal_to _ = false

abbrev pub greater_than : Option Compared → Bool
greater_than (some Compared.greater) = true
greater_than _ = false

abbrev pub unordered : Option Compared → Bool
unordered none = true
unordered (some c) = false

holds_flags :
    (o : Option Compared)
    → let p = flags_of o * 2 ^ 28 in
      (condok p 0 ≡ equal_to o)
      × (condok p 6 ≡ unordered o)
      × (condok p 10 ≡ (equal_to o || greater_than o))
      × (condok p 12 ≡ greater_than o)
unfolding condok same_nv other_nv
holds_flags none = (refl, refl, refl, refl)
holds_flags (some Compared.less) = (refl, refl, refl, refl)
holds_flags (some Compared.equal) = (refl, refl, refl, refl)
holds_flags (some Compared.greater) = (refl, refl, refl, refl)

-- After a comparison of `n` with `m`, whatever the status register held, condition 0 (EQ) holds
-- just if the numbers compare as equal, condition 6 (VS) just if one of them is an infinity or not
-- a number, condition 10 (GE) just if `n` compares as equal or greater, and condition 12 (GT) just
-- if it compares as greater.
pub condok-fcmp :
    (lib : Library) (n m : Internal) (psr : ℕ)
    → let p = set_flags psr (fcmp lib n m) in
      let o = ordering lib n m in
      (condok p 0 ≡ equal_to o)
      × (condok p 6 ≡ unordered o)
      × (condok p 10 ≡ (equal_to o || greater_than o))
      × (condok p 12 ≡ greater_than o)
condok-fcmp lib n m psr =
    let o = ordering lib n m in
    let seen : (c : ℕ) → condok (set_flags psr (fcmp lib n m)) c ≡ condok (flags_of o * 2 ^ 28) c =
      (λ c.
        ap (λ f. condok (set_flags psr f) c) (fcmp-flags_of lib n m)
        ∙ condok-set_flags psr (flags_of o) c (flags_of-lt o)) in
    let h = holds_flags o in (seen 0 ∙ h.0, seen 6 ∙ h.1, seen 10 ∙ h.2, seen 12 ∙ h.3)
