-- ===== src/Trap/Tests.antt =====
-- The theorem at a table with two handlers.
use inferno_kirkwood.Prelude.{ℕ, ◌≡◌, refl, arith, some, List, [], ◌∷◌, ◌++◌, ◌==◌, if◌then◌else◌}
use inferno_kirkwood.Port.{Result, ok}
use inferno_kirkwood.Trap.Irq.{Irq, intrunset, intrs_loop}
use inferno_kirkwood.Trap.Dispatch.{due, world, run, intrs_loop_lem}

-- Line 1 has function 7 and line 4 function 9.
abbrev table : Irq
table = record {
  irq = 0;
  irqmask = 0;
  irqvec = λ i.
      if i == 1
      then record { r = some 7; a = 70; name = [] }
      else (if i == 4 then record { r = some 9; a = 90; name = [] } else intrunset);
}

-- The table and the functions called.
abbrev World : Type 0
World = Irq × List ℕ

abbrev call : ℕ → ℕ → World → Result World
call f a (t, calls) = ok (t, calls ++ f ∷ [])

call-irqvec : (f a : ℕ) (w w' : World) → call f a w ≡ ok w' → w'.0.irqvec ≡ w.0.irqvec
call-irqvec f a (t, calls) (t', calls') e = cc

both_called :
    run call (λ w. w.0) table.irqvec (due table.irqvec 32 0 22) (table, []) ≡ ok (table, 7 ∷ 9 ∷ [])
unfolding run due
both_called = refl

intrs_loop_lem_example :
    world (intrs_loop call (λ w. w.0) 32 0 22 (table, []))
    ≡ run call (λ w. w.0) table.irqvec (due table.irqvec 32 0 22) (table, [])
intrs_loop_lem_example = intrs_loop_lem call (λ w. w.0) call-irqvec 22 (table, []) (omega arith)
