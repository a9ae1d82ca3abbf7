-- ===== src/Xor/Ports.antt =====
-- xor.c: allotting the ports, and the interrupt that ends a transfer.
use inferno_kirkwood.Prelude.{
  ℕ, zero, suc, ◌+◌, Bool, true, false, not, Option, none, some, ◌==◌, ◌&&◌, if◌then◌else◌, update,
  bit_and, bit_or, complement32, ◌<<<◌,
}
use inferno_kirkwood.Port.{Result, ok, fault, panic}
use inferno_kirkwood.Xor.Defs.{Use, Port, Xor, engine}

abbrev pub is_free : Use → Bool
is_free Use.unused = true
is_free u = false

abbrev pub is_meminit : Use → Bool
is_meminit Use.meminit = true
is_meminit u = false

abbrev pub use_of : Bool → Use
use_of true = Use.meminit
use_of false = Use.other

-- The port of the pair from `p` on that a memory initialisation may take.
unfoldable pub meminitport : (ℕ → Port) → ℕ → Option ℕ
meminitport ports p =
    if is_free (ports p).inuse && not (is_meminit (ports (p + 1)).inuse)
    then some p
    else (if is_free (ports (p + 1)).inuse && not (is_meminit (ports p).inuse)
        then some (p + 1)
        else none)

-- The loop over the ports from `i` on, by the rounds left.
unfoldable pub free_port : (ℕ → Port) → ℕ → ℕ → Option ℕ
free_port ports zero i = none
free_port ports (suc rounds) i =
    let next = free_port ports rounds (i + 1) in if is_free (ports i).inuse then some i else next

-- One look for a port, under the lock.
unfoldable pub find_port : Bool → (ℕ → Port) → Option ℕ
find_port ismeminit ports =
    if ismeminit
    then elim (meminitport ports 0) [ some i ↦ some i | none ↦ meminitport ports 2 ]
    else free_port ports 4 0

-- What `portget` does with the port that it found.
unfoldable pub take_port : Bool → ℕ → Xor → Xor
take_port ismeminit i x = record x {
  ports = update i (record { done = false; inuse = use_of ismeminit }) x.ports;
}

unfoldable pub portput : ℕ → Xor → Xor
portput i x = record x { ports = update i (record (x.ports i) { inuse = Use.unused }) x.ports }

unfoldable pub isdone : ℕ → Xor → Bool
isdone i x = (x.ports i).done

abbrev pub iendofchain : ℕ
iendofchain = 1 <<< 1

-- `p->done = 1`
unfoldable pub set_done : ℕ → Xor → Xor
set_done i x = record x { ports = update i (record (x.ports i) { done = true }) x.ports }

-- `p->er->irq = 0`
unfoldable pub clear_irq : ℕ → Xor → Xor
clear_irq i x = record x { er = update (engine i) (record (x.er (engine i)) { irq = 0 }) x.er }

-- The handler, which is given the first port of the engine.
unfoldable pub xorintr : ℕ → Xor → Result Xor
xorintr i x =
    let irq = (x.er (engine i)).irq in
    if not (bit_and irq (complement32 (bit_or iendofchain (iendofchain <<< 16))) == 0)
    then panic
    else (let x = if bit_and irq iendofchain == 0 then x else set_done i x in
        let x = if bit_and irq (iendofchain <<< 16) == 0 then x else set_done (i + 1) x in
        ok (clear_irq i x))

-- The handler of an engine's error, which reads registers by way of its port.
unfoldable pub xorintrerror : Option ℕ → Result Xor
xorintrerror none = fault
xorintrerror (some i) = panic
