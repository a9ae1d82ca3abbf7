-- ===== src/Clock/Periods.antt =====
-- How often the clock calls a function.
use inferno_kirkwood.Prelude.{
  ℕ, zero, suc, ◌+◌, ◌*◌, ◌/◌, ◌%◌, ◌^◌, ◌<◌, ◌≡◌, refl, sym, ap, ◌∙◌, arith, false, List, [], ◌∷◌,
  ◌==◌, ◌&&◌, u32, if◌then◌else◌, All, Bool-cases, inl, inr,
}
use native.Mathlib.Nat.{
  mul-add-div_right, div-add-mod', div-eq_of_lt, div_self, mod-lt, suc-mod, mod_self, mod-eq_of_lt,
}
use inferno_kirkwood.Port.{Result, ok, on_ok}
use inferno_kirkwood.Clock.Ticks.{Clock0link, Clock, Calls, run_links, clockintr, interrupts}

-- A world that keeps the functions that were called, the latest first.
unfoldable pub logging : Calls (List ℕ)
logging = record { call = λ f w. f ∷ w; checkalarms = λ w. w; intrclear = λ w. w }

abbrev pub calls_of : ℕ → List ℕ → ℕ
calls_of f [] = 0
calls_of f (g ∷ w) = (if g == f then 1 else 0) + calls_of f w

-- A link with the period p is due n / p times in n ticks.
abbrev pub due_in : ℕ → ℕ → List Clock0link → ℕ
due_in f n [] = 0
due_in f n (lp ∷ links) = (if lp.clock == f then n / lp.tm else 0) + due_in f n links

abbrev due_at : ℕ → ℕ → List Clock0link → ℕ
due_at f t [] = 0
due_at f t (lp ∷ links) = (if lp.clock == f && t % lp.tm == 0 then 1 else 0) + due_at f t links

abbrev pub HasPeriod : Clock0link → Type 0
HasPeriod lp = 0 < lp.tm

-- The quotient goes up when the remainder gets to 0.
div_step : (t p : ℕ) → 0 < p → suc t / p ≡ t / p + (if suc t % p == 0 then 1 else 0)
div_step t p pos =
    let q = t / p in
    let r = t % p in
    let split : suc t ≡ q * p + suc r = omega (arith, div-add-mod' t p) in
    let quotient : suc t / p ≡ q + suc r / p =
      ap (λ n. n / p) split ∙ mul-add-div_right pos q (suc r) in
    let remainder : suc t % p ≡ suc r % p = suc-mod t p in
    elim (Bool-cases (suc r == p)) [
      | inl full ↦
          let e : suc r ≡ p = ground (arith, full) in
          ground (
            arith,
            quotient,
            remainder,
            ap (λ n. n / p) e,
            ap (λ n. n % p) e,
            div_self pos,
            mod_self p,
          )
      | inr part ↦
          let small : suc r < p = ground (arith, part, mod-lt t pos) in
          ground (arith, quotient, remainder, div-eq_of_lt small, mod-eq_of_lt small)
    ]

due_step :
    (f t : ℕ) (links : List Clock0link)
    → All HasPeriod links
    → due_in f (suc t) links ≡ due_in f t links + due_at f (suc t) links
due_step f t [] periods = refl
due_step f t (lp ∷ links) (period, periods) =
    ground (arith, div_step t lp.tm period, due_step f t links periods)

-- What is called at a tick.
record IsRun (t : ℕ) (links : List Clock0link) (w : List ℕ) (r : Result (Unit {0}) × List ℕ)
    : Type 0 where
  ok_lem : r.0 ≡ ok tt
  calls : (f : ℕ) → calls_of f r.1 ≡ calls_of f w + due_at f t links

run_links-IsRun :
    (t : ℕ) (links : List Clock0link) (w : List ℕ)
    → All HasPeriod links
    → IsRun t links w (run_links logging t links w)
unfolding run_links logging
run_links-IsRun t [] w periods = record { ok_lem = refl; calls = λ f. omega arith }
run_links-IsRun t (lp ∷ links) w (period, periods) =
    let nonzero : (lp.tm == 0) ≡ false = ground arith in
    elim (Bool-cases (t % lp.tm == 0)) [
      | inl due ↦
          let rest = run_links-IsRun t links (lp.clock ∷ w) periods in
          record {
            ok_lem = rw (nonzero, due) rest.ok_lem;
            calls = λ f. rw (nonzero, due) (rest.calls f ∙ ground arith);
          }
      | inr not_due ↦
          let rest = run_links-IsRun t links w periods in
          record {
            ok_lem = rw (nonzero, not_due) rest.ok_lem;
            calls = λ f. rw (nonzero, not_due) (rest.calls f ∙ ground arith);
          }
    ]

-- After `n` ticks of a clock with the links of `c`: each function has been called once for each time
-- that a link with it was due.
pub record IsOnTime (c : Clock) (n : ℕ) (t : Result (Unit {0}) × (Clock × List ℕ)) : Type 0 where
  pub ok_lem : t.0 ≡ ok tt
  pub clock : t.1.0 ≡ record c { ticks = n }
  pub calls : (f : ℕ) → calls_of f t.1.1 ≡ due_in f n c.links

due_in_zero : (f : ℕ) (links : List Clock0link) → All HasPeriod links → due_in f 0 links ≡ 0
due_in_zero f [] periods = refl
due_in_zero f (lp ∷ links) (period, periods) =
    let none_yet : 0 / lp.tm ≡ 0 = div-eq_of_lt period in
    ground (arith, none_yet, due_in_zero f links periods)

-- The next interrupt.
clockintr-IsOnTime :
    (c : Clock) (n : ℕ) (t : Result (Unit {0}) × (Clock × List ℕ))
    → c.locked ≡ false
    → n + 1 < 2 ^ 32
    → All HasPeriod c.links
    → IsOnTime c n t
    → IsOnTime c (suc n) (on_ok t.0 t.1 (λ done. clockintr logging t.1))
unfolding clockintr logging
clockintr-IsOnTime c n (r, (d, w)) free small periods before =
    let run = run_links-IsRun (suc n) c.links w periods in
    let ticks : u32 (n + 1) ≡ suc n = omega arith in
    rw (before.ok_lem, before.clock, ticks, free, run.ok_lem)
      (record {
        ok_lem = refl;
        clock = refl;
        calls = λ f. run.calls f ∙ omega (arith, before.calls f, due_step f n c.links periods);
      })

-- After `n` clock interrupts, fewer than 2^32, from tick 0 with the lock free, a function that is
-- linked with a period p above 0 has been called n / p times, or the sum of those for its links if
-- there are several; and none of the interrupts has failed.
pub interrupts-IsOnTime :
    (c : Clock) (n : ℕ)
    → c.locked ≡ false
    → c.ticks ≡ 0
    → n < 2 ^ 32
    → All HasPeriod c.links
    → IsOnTime c n (interrupts logging n (c, []))
unfolding interrupts
interrupts-IsOnTime c zero free start small periods = record {
  ok_lem = refl;
  clock = ap (λ t. record c { ticks = t }) start;
  calls = λ f. sym (due_in_zero f c.links periods);
}
interrupts-IsOnTime c (suc n) free start small periods =
    clockintr-IsOnTime c n (interrupts logging n (c, [])) free (omega arith) periods
      (interrupts-IsOnTime c n free start (omega arith) periods)
