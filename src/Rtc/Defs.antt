-- ===== src/Rtc/Defs.antt =====
-- `struct Rtc` of devrtc.c. Its fields are C ints; both functions that fill them in, `sec2rtc`
-- and `rtctime`, store only numbers from 0 on.
use inferno_kirkwood.Prelude.{ℕ}

pub record Rtc : Type 0 where
  pub sec : ℕ
  pub min : ℕ
  pub hour : ℕ
  pub mday : ℕ
  pub mon : ℕ
  pub year : ℕ
