-- ===== src/Clock/Tests.antt =====
-- Two links and some ticks.
use inferno_kirkwood.Prelude.{◌≡◌, refl, arith, true, false, [], ◌∷◌}
use inferno_kirkwood.Port.{fault}
use inferno_kirkwood.Clock.Ticks.{Clock, addclock0link, interrupts, clockintr, run_links}
use inferno_kirkwood.Clock.Periods.{logging, IsOnTime, interrupts-IsOnTime}

abbrev two_links : Clock
two_links = record {
  links = record { clock = 1; tm = 3 } ∷ record { clock = 2; tm = 2 } ∷ [];
  locked = false;
  ticks = 0;
}

seven_ticks : (interrupts logging 7 (two_links, [])).1.1 ≡ 2 ∷ 1 ∷ 2 ∷ 1 ∷ 2 ∷ []
unfolding interrupts clockintr run_links logging
seven_ticks = refl

-- A link that is put in with the period 0.
no_period : (clockintr logging (addclock0link true 4 0 two_links, [])).0 ≡ fault
unfolding clockintr run_links logging addclock0link
no_period = refl

interrupts-IsOnTime_example : IsOnTime two_links 7 (interrupts logging 7 (two_links, []))
interrupts-IsOnTime_example =
    interrupts-IsOnTime two_links 7 refl refl (omega arith) (omega arith, (omega arith, tt))
