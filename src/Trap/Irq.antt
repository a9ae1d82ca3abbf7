-- ===== src/Trap/Irq.antt =====
-- trap.c: the tables of interrupt handlers, and the calls that an interrupt makes.
use inferno_kirkwood.Prelude.{
  ℕ, zero, suc, ◌+◌, ◌-◌, ◌^◌, Bool, true, false, Option, none, some, List, [], ◌==◌, ◌&&◌, ltb,
  if◌then◌else◌, bit_and, bit_or, complement32, take, update,
}
use inferno_kirkwood.Port.{Result, ok, fault, panic, ◌>>=◌}
use inferno_kirkwood.Part.Names.{same_text}

-- A function is known by a number.
pub record Handler : Type 0 where
  pub r : Option ℕ
  pub a : ℕ
  pub name : List ℕ

-- The two words of causes of the controller, and that of the bridge.
pub data Sort : Type 0 where
  irqlo irqhi irqbridge : Sort

-- A table with the registers of its sort, by which it is known.
pub record Irq : Type 0 where
  pub irq : ℕ
  pub irqmask : ℕ
  pub irqvec : ℕ → Handler

abbrev pub nirqvec : ℕ
nirqvec = 32

abbrev pub line : ℕ → ℕ
line v = 2 ^ v

-- `write old new` is what a register of causes has when `new` is written while it has `old`.
unfoldable pub intrclear : (write : ℕ → ℕ → ℕ) → ℕ → Irq → Irq
intrclear write v t = record t { irq = write t.irq (complement32 (line v)) }

unfoldable pub intrmask : ℕ → Irq → Irq
intrmask v t = record t { irqmask = bit_and t.irqmask (complement32 (line v)) }

unfoldable pub intrunmask : ℕ → Irq → Irq
intrunmask v t = record t { irqmask = bit_or t.irqmask (line v) }

-- `knamelen` is the size of a name with its NUL.
unfoldable pub intrset : (knamelen : ℕ) → ℕ → ℕ → List ℕ → Handler → Result Handler
intrset knamelen f a name h = elim h.r [
  | some g ↦ panic
  | none ↦ ok (record { r = some f; a = a; name = take (knamelen - 1) name })
]

abbrev pub intrunset : Handler
intrunset = record { r = none; a = 0; name = [] }

abbrev is_function : Option ℕ → ℕ → Bool
is_function none f = false
is_function (some g) f = g == f

unfoldable pub intrdel : ℕ → ℕ → List ℕ → Handler → Handler
intrdel f a name h = if is_function h.r f && h.a == a && same_text h.name name then intrunset else h

unfoldable pub intrenable : (knamelen : ℕ) → ℕ → ℕ → ℕ → List ℕ → Irq → Result Irq
intrenable knamelen v f a name t =
    if ltb v nirqvec
    then (do
      h ← intrset knamelen f a name (t.irqvec v)
      ok (intrunmask v (record t { irqvec = update v h t.irqvec })))
    else fault

unfoldable pub intrdisable : ℕ → ℕ → ℕ → List ℕ → Irq → Result Irq
intrdisable v f a name t =
    if ltb v nirqvec
    then ok (intrmask v (record t { irqvec = update v (intrdel f a name (t.irqvec v)) t.irqvec }))
    else fault

-- `call f a` calls a handler; the world has the tables, which a handler may use.
module _ {W : Type 0} (call : ℕ → ℕ → W → Result W) (table : W → Irq) where
  -- The loop over the lines from `i` on, by the rounds left: the causes that no handler took.
  unfoldable pub intrs_loop : ℕ → ℕ → ℕ → W → Result (ℕ × W)
  intrs_loop zero i ibits w = ok (ibits, w)
  intrs_loop (suc rounds) i ibits w = elim (ibits == 0) [
    | true ↦ ok (ibits, w)
    | false ↦ elim (bit_and ibits (line i) == 0) [
      | true ↦ intrs_loop rounds (i + 1) ibits w
      | false ↦ elim ((table w).irqvec i).r [
        | none ↦ intrs_loop rounds (i + 1) ibits w
        | some f ↦
            call f ((table w).irqvec i).a w
            >>= intrs_loop rounds (i + 1) (bit_and ibits (complement32 (line i)))
      ]
    ]
  ]

  -- What is left once the handlers have been called is written back to the causes.
  unfoldable pub intrs : (write : ℕ → ℕ → ℕ) (set_table : Irq → W → W) → W → Result W
  intrs write set_table w = do
    let t = table w
    (ibits, w) ← intrs_loop nirqvec 0 (bit_and t.irq t.irqmask) w
    let t = table w
    ok (
        if ibits == 0
        then w
        else set_table (record t { irq = write t.irq (bit_and t.irq ibits) }) w)
