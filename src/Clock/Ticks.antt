-- ===== src/Clock/Ticks.antt =====
-- clock.c: the links that the clock interrupt goes over.
use inferno_kirkwood.Prelude.{
  ℕ, zero, suc, ◌+◌, ◌%◌, Bool, true, false, List, [], ◌∷◌, ◌==◌, u32, if◌then◌else◌,
}
use inferno_kirkwood.Port.{Result, ok, fault, on_ok}

-- A function, known by a number, and every how many ticks it is called.
pub record Clock0link : Type 0 where
  pub clock : ℕ
  pub tm : ℕ

-- `clock0link`, `clock0lock` and `m->ticks`.
pub record Clock : Type 0 where
  pub links : List Clock0link
  pub locked : Bool
  pub ticks : ℕ

-- `memory` says whether `malloc` gave any. `tm` is a word.
unfoldable pub addclock0link : (memory : Bool) → (clock ticks : ℕ) → Clock → Clock
addclock0link false clock ticks c = c
addclock0link true clock ticks c = record c {
  links = record { clock = clock; tm = u32 ticks } ∷ c.links;
}

-- What the interrupt calls: the functions of the links, and `checkalarms` and `intrclear`.
pub record Calls (W : Type 0) : Type 0 where
  pub call : ℕ → W → W
  pub checkalarms : W → W
  pub intrclear : W → W

module _ {W : Type 0} (k : Calls W) where
  open k use {call, checkalarms, intrclear}

  -- The links that are due at `ticks`. A remainder by 0 is a fault.
  unfoldable pub run_links : (ticks : ℕ) → List Clock0link → W → Result (Unit {0}) × W
  run_links ticks [] w = (ok tt, w)
  run_links ticks (lp ∷ links) w =
      let called = run_links ticks links (call lp.clock w) in
      let passed_over = run_links ticks links w in
      if lp.tm == 0 then (fault, w) else (if ticks % lp.tm == 0 then called else passed_over)

  -- The links are left alone while the lock is held, as it is when the interrupt came while a link
  -- was put in.
  unfoldable pub clockintr : Clock × W → Result (Unit {0}) × (Clock × W)
  clockintr (c, w) =
      let c = record c { ticks = u32 (c.ticks + 1) } in
      let w = checkalarms w in
      let (r, w1) = run_links c.ticks c.links w in
      if c.locked
      then (ok tt, (c, intrclear w))
      else on_ok r (c, w1) (λ done. (ok tt, (c, intrclear w1)))

  -- As many interrupts, until one fails.
  unfoldable pub interrupts : ℕ → Clock × W → Result (Unit {0}) × (Clock × W)
  interrupts zero s = (ok tt, s)
  interrupts (suc n) s = let (r, s) = interrupts n s in on_ok r s (λ done. clockintr s)

-- `fastticks`: the ticks, and how many there are in a second.
unfoldable pub fastticks : (hz : ℕ) → Clock → ℕ × ℕ
fastticks hz c = (c.ticks, hz)
