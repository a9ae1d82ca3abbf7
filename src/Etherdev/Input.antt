-- ===== src/Etherdev/Input.antt =====
-- devether.c: a packet that is handed to the connections that want it.
use inferno_kirkwood.Prelude.{
  ℕ, ◌+◌, ◌-◌, Bool, true, false, not, Option, none, some, List, [], ◌∷◌, ◌++◌, ◌==◌, ◌&&◌, ◌||◌,
  ltb, if◌then◌else◌, bit_and, get_or, take, drop, length, u8, u32, ◌>>>◌,
}
use inferno_kirkwood.Part.Names.{same_text}
use inferno_kirkwood.Etherdev.Netif.{Netfile, Ether, Kernel, dest_of, source_of, type_of}

-- The packet is for this interface, from it, to several; and whether it came from the wire.
pub record Way : Type 0 where
  pub tome : Bool
  pub fromme : Bool
  pub multi : Bool
  pub fromwire : Bool
  pub type : ℕ

abbrev pub type_wanted : Option ℕ → ℕ → Bool
type_wanted none type = true
type_wanted (some t) type = t == type

-- `past` is the memory after the packet.
unfoldable pub way_of : Ether → (past : List ℕ) → List ℕ → Bool → Way
way_of e past pkt fromwire =
    let p = pkt ++ past in
    record {
      tome = same_text (dest_of p) e.ea;
      fromme = same_text (source_of p) e.ea;
      multi = not (bit_and (get_or p 0 0) 1 == 0);
      fromwire = fromwire;
      type = type_of p;
    }

-- The packet is for several, and the interface does not listen to the address, of which `activemulti`
-- tells.
abbrev pub is_refused : (activemulti : List ℕ → Bool) (past : List ℕ) → Ether → List ℕ → Bool
is_refused activemulti past e pkt =
    let dest = dest_of (pkt ++ past) in
    not (bit_and (get_or (pkt ++ past) 0 0) 1 == 0)
    && not (same_text dest e.bcast)
    && not e.prom
    && not (activemulti dest)

-- The three tests of the loop.
unfoldable pub wants : Way → Netfile → Bool
wants way f =
    type_wanted f.type way.type
    && (way.tome || way.multi || f.prom)
    && not (f.bridge && not way.fromwire && not way.fromme)

-- What the loop carries: the connection that gets the block itself, and the two things it changes.
pub record Offers (W : Type 0) : Type 0 where
  pub fx : Option Netfile
  pub soverflows : ℕ
  pub world : W

-- `xx` of the trace: the first bytes over the block's memory, the length, and the time in `i`.
unfoldable pub trace_frame : (i : ℕ) → List ℕ → List ℕ → List ℕ
trace_frame i pkt mem =
    let n = if ltb 58 (length pkt) then 58 else length pkt in
    take n pkt
    ++ (take (58 - n) (drop n mem)
        ++ (u8 (length pkt >>> 8)
            ∷ u8 (length pkt)
            ∷ u8 (i >>> 24)
            ∷ u8 (i >>> 16)
            ∷ u8 (i >>> 8)
            ∷ u8 i
            ∷ []))

module _ {W : Type 0} (k : Kernel W) where
  open k use {qpass, qwindow, iallocb, freeb}

  abbrev pub trace_into : (i : ℕ) → Netfile → List ℕ → Option (List ℕ) × W → W
  trace_into i f pkt (none, w) = w
  trace_into i f pkt (some mem, w) = (qpass f.queue (trace_frame i pkt mem) w).1

  -- `i` is the time in milliseconds.
  unfoldable pub etherrtrace : (i : ℕ) → Netfile → List ℕ → W → W
  etherrtrace i f pkt w = if qwindow f.queue w then trace_into i f pkt (iallocb 64 w) else w

  -- A queue without room, or no memory, is counted.
  abbrev pub counted : Offers W → Bool × W → Offers W
  counted o (true, w) = record o { world = w }
  counted o (false, w) = record o { soverflows = u32 (o.soverflows + 1); world = w }

  abbrev pub copy_into : Netfile → List ℕ → Offers W → Option (List ℕ) × W → Offers W
  copy_into f pkt o (none, w) = counted o (false, w)
  copy_into f pkt o (some mem, w) = counted o (qpass f.queue pkt w)

  abbrev pub is_none : Option Netfile → Bool
  is_none none = true
  is_none (some f) = false

  -- One round of the loop.
  unfoldable pub offer : (i : ℕ) → Way → List ℕ → Option Netfile → Offers W → Offers W
  offer i way pkt none o = o
  offer i way pkt (some f) o =
      if wants way f
      then (if f.headersonly
          then record o { world = etherrtrace i f pkt o.world }
          else (if way.fromwire && is_none o.fx
              then record o { fx = some f }
              else copy_into f pkt o (iallocb (length pkt) o.world)))
      else o

  unfoldable pub offer_all : (i : ℕ) → Way → List ℕ → List (Option Netfile) → Offers W → Offers W
  offer_all i way pkt [] o = o
  offer_all i way pkt (f ∷ fs) o = offer_all i way pkt fs (offer i way pkt f o)

  -- What is done with the block after the loop; the result is the block if it is still in use.
  unfoldable pub settle : Bool → List ℕ → Offers W → Option (List ℕ) × Offers W
  settle fromwire pkt o = elim o.fx [
    | some f ↦ (none, counted o (qpass f.queue pkt o.world))
    | none ↦ if fromwire then (none, record o { world = freeb pkt o.world }) else (some pkt, o)
  ]

  -- The rest of `etheriq`, for a packet that is listened to.
  unfoldable pub multiplex : (i : ℕ) → Way → Ether → List ℕ → W → Option (List ℕ) × (Ether × W)
  multiplex i way e pkt w =
      let o : Offers W = record { fx = none; soverflows = e.soverflows; world = w } in
      let (rest, o) = settle way.fromwire pkt (offer_all i way pkt e.f o) in
      (rest, (record e { soverflows = o.soverflows }, o.world))

  unfoldable pub etheriq :
      (activemulti : List ℕ → Bool) (i : ℕ) (past : List ℕ)
      → Ether
      → List ℕ
      → Bool
      → W
      → Option (List ℕ) × (Ether × W)
  etheriq activemulti i past e pkt fromwire w =
      let e = record e { inpackets = u32 (e.inpackets + 1) } in
      if is_refused activemulti past e pkt
      then (if fromwire then (none, (e, freeb pkt w)) else (some pkt, (e, w)))
      else multiplex i (way_of e past pkt fromwire) e pkt w
