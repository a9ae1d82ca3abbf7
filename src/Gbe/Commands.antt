-- ===== src/Gbe/Commands.antt =====
-- The commands that the ethernet device passes on.
use inferno_kirkwood.Prelude.{
  ℕ, ◌≡◌, ◌⊎◌, inl, inr, refl, arith, Bool, true, false, Option, none, some, List, ◌==◌, get_elem?,
  Bool-cases,
}
use inferno_kirkwood.Port.{Result, ok, err, fault, panic, hang, on_ok}
use inferno_kirkwood.Bs.Command.{Cmdtab}
use inferno_kirkwood.Gbe.Defs.{Ether}
use inferno_kirkwood.Gbe.Control.{jumbo, jumbo_off, fall_through, ctl_switch, ctlmsg, ctl}

abbrev pub succeeds : Result ℕ → Bool
succeeds (ok n) = true
succeeds r = false

-- A command has no result, and the state is the old one or that after "jumbo off".
abbrev pub IsRefused : Ether → Result ℕ × Ether → Type 0
IsRefused e (r, e') = (succeeds r ≡ false) × ((e' ≡ e) ⊎ (e' ≡ jumbo_off e))

jumbo-cases : (f : Option (List ℕ)) (e : Ether) {e' : Ether} → jumbo f e ≡ ok e' → e' ≡ jumbo_off e
unfolding jumbo
jumbo-cases none e h = cc
jumbo-cases (some f) e h = ground (arith, h)

fall_through-IsRefused :
    (e : Ether) (r : Result Ether)
    → ((e' : Ether) → r ≡ ok e' → e' ≡ jumbo_off e)
    → IsRefused e (fall_through e r)
unfolding fall_through
fall_through-IsRefused e (ok e') cases = (refl, inr (cases e' refl))
fall_through-IsRefused e (err why) cases = (refl, inl refl)
fall_through-IsRefused e fault cases = (refl, inl refl)
fall_through-IsRefused e panic cases = (refl, inl refl)
fall_through-IsRefused e hang cases = (refl, inl refl)

ctl_switch-IsRefused :
    (index : ℕ) (f : List (List ℕ)) (e : Ether) → IsRefused e (ctl_switch index f e)
unfolding ctl_switch
ctl_switch-IsRefused index f e = elim (Bool-cases (index == 0)) [
  | inl zero_th ↦
      rw zero_th
        (fall_through-IsRefused e (jumbo (get_elem? f 1) e) (λ e'. jumbo-cases (get_elem? f 1) e))
  | inr other ↦ rw other (refl, inl refl)
]

on_lookup-IsRefused :
    (f : List (List ℕ)) (e : Ether) (r : Result ℕ)
    → IsRefused e (on_ok r e (λ index. ctl_switch index f e))
on_lookup-IsRefused f e (ok index) = ctl_switch-IsRefused index f e
on_lookup-IsRefused f e (err why) = (refl, inl refl)
on_lookup-IsRefused f e fault = (refl, inl refl)
on_lookup-IsRefused f e panic = (refl, inl refl)
on_lookup-IsRefused f e hang = (refl, inl refl)

module _ (parsecmd : List ℕ → List (List ℕ))
    (lookupcmd : List (List ℕ) → List Cmdtab → Result ℕ) where
  -- No command succeeds, whatever is written, not even one that has set the size of packets back
  -- to that without jumbo frames, which is the only change that a command can make.
  pub ctl_refuses : (p : List ℕ) (e : Ether) → IsRefused e (ctl parsecmd lookupcmd p e)
  unfolding ctl
  ctl_refuses p e = on_lookup-IsRefused (parsecmd p) e (lookupcmd (parsecmd p) ctlmsg)
