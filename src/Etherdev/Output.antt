-- ===== src/Etherdev/Output.antt =====
-- devether.c: packets that are written to the device, and the devices and drivers it knows.
use inferno_kirkwood.Prelude.{
  ℕ, zero, suc, ◌+◌, Bool, false, not, Option, none, some, List, [], ◌∷◌, ◌++◌, ◌==◌, ◌&&◌, ◌||◌,
  ltb, leb, if◌then◌else◌, take, drop, length, u8, u32, get_elem?,
}
use inferno_kirkwood.Port.{Error, Result, ok, err, fault, panic, ◌>>=◌, on_ok}
use inferno_kirkwood.Part.Names.{same_text}
use inferno_kirkwood.Etherdev.Netif.{Ether, Kernel, dest_of}
use inferno_kirkwood.Etherdev.Input.{etheriq}

module _ {W : Type 0} (k : Kernel W) where
  open k use {freeb, qbwrite, transmit}

  -- The packet is addressed to the interface itself.
  abbrev pub is_loopback : Ether → List ℕ → Bool
  is_loopback e p = same_text (dest_of p) e.ea

  -- It is handed to the connections of the interface as well.
  abbrev pub is_fed_back : Ether → List ℕ → Bool
  is_fed_back e p = is_loopback e p || same_text (dest_of p) e.bcast || e.prom

  unfoldable pub etheroq :
      (activemulti : List ℕ → Bool) (i : ℕ) (past : List ℕ) → Ether → List ℕ → W → ℕ × (Ether × W)
  etheroq activemulti i past e pkt w =
      let e = record e { outpackets = u32 (e.outpackets + 1) } in
      let p = pkt ++ past in
      let (e, w) =
        if is_fed_back e p then (etheriq k activemulti i past e pkt false w).1 else (e, w) in
      (length pkt, (e, if is_loopback e p then freeb pkt w else transmit (qbwrite pkt w)))

  -- `bp` holds the buffer, with the interface's address as the source.
  unfoldable pub framed : Ether → List ℕ → List ℕ
  framed e buf = take 6 buf ++ (e.ea ++ drop 12 buf)

  -- A write to the file of a connection's packets.
  unfoldable pub write_packet :
      (activemulti : List ℕ → Bool) (i : ℕ) (past : List ℕ)
      → List ℕ
      → Ether × W
      → Result ℕ × (Ether × W)
  write_packet activemulti i past buf (e, w) =
      if ltb e.maxmtu (length buf)
      then (err Error.too_big, (e, w))
      else (if ltb (length buf) e.minmtu
          then (err Error.too_small, (e, w))
          else (let (n, s) = etheroq activemulti i past e (framed e buf) w in (ok n, s)))

  -- A block that is written to the file of a connection's packets keeps its source.
  unfoldable pub write_block :
      (activemulti : List ℕ → Bool) (i : ℕ) (past : List ℕ)
      → List ℕ
      → Ether × W
      → Result ℕ × (Ether × W)
  write_block activemulti i past pkt (e, w) =
      if ltb e.maxmtu (length pkt)
      then (err Error.too_big, (e, freeb pkt w))
      else (if ltb (length pkt) e.minmtu
          then (err Error.too_small, (e, freeb pkt w))
          else (let (n, s) = etheroq activemulti i past e pkt w in (ok n, s)))

abbrev nonblocking_word : List ℕ
nonblocking_word = b'n' ∷ b'o' ∷ b'n' ∷ b'b' ∷ b'l' ∷ b'o' ∷ b'c' ∷ b'k' ∷ b'i' ∷ b'n' ∷ b'g' ∷ []

-- A write to another file. `netifwrite` has `none` for a negative number, which is the result of a
-- command that it does not know.
module _ {S : Type 0} (netifwrite : List ℕ → S → Result (Option ℕ) × S)
    (parsecmd : List ℕ → List (List ℕ)) (atoi : List ℕ → ℕ) (qnoblock : ℕ → S → S)
    (ctl : Option (List ℕ → S → Result (Option ℕ) × S)) where
  -- The argument of "nonblocking", if there is one.
  abbrev onoff_of : List (List ℕ) → ℕ
  onoff_of f = elim (get_elem? f 1) [ none ↦ 1 | some t ↦ atoi t ]

  unfoldable pub write_command : List ℕ → S → Result (Option ℕ) × S
  write_command buf s = elim (get_elem? (parsecmd buf) 0) [
    | none ↦ (fault, s)
    | some name ↦
        if same_text name nonblocking_word
        then (ok none, qnoblock (onoff_of (parsecmd buf)) s)
        else elim ctl [ none ↦ (err Error.bad_ctl, s) | some c ↦ c buf s ]
  ]

  abbrev pub after_netifwrite : List ℕ → Option ℕ → S → Result (Option ℕ) × S
  after_netifwrite buf none s = write_command buf s
  after_netifwrite buf (some l) s = (ok (some l), s)

  unfoldable pub write_control : List ℕ → S → Result (Option ℕ) × S
  write_control buf s = let (r, s) = netifwrite buf s in on_ok r s (λ l. after_netifwrite buf l s)

-- `MaxEther`
abbrev pub max_ether : ℕ
max_ether = 1

-- A driver's name and its `reset`.
pub record Card : Type 0 where
  pub type : List ℕ
  pub reset : ℕ

unfoldable pub addethercard : List ℕ → ℕ → List Card → Result (List Card)
addethercard t r cards =
    if length cards == max_ether then panic else ok (cards ++ record { type = t; reset = r } ∷ [])

-- `strtoul spec` is the number and what is left of the text. The devices are those by number.
module _ (strtoul : List ℕ → ℕ × List ℕ) where
  unfoldable pub ctlrno_of : List ℕ → Result ℕ
  ctlrno_of [] = ok 0
  ctlrno_of (c ∷ spec) =
      let (n, p) = strtoul (c ∷ spec) in
      if n == 0 && length p == length (c ∷ spec) || not (length p == 0) || leb max_ether n
      then err Error.bad_arg
      else ok n

  -- The controller that `etherattach` attaches.
  unfoldable pub etherattach {ℓ} : {D : Type ℓ} → (ℕ → Option D) → List ℕ → Result (ℕ × D)
  etherattach etherxx spec = do
    n ← ctlrno_of spec
    elim (etherxx n) [ none ↦ err Error.no_dev | some d ↦ ok (n, d) ]

-- Two digits to a byte, with a colon after a byte skipped. `hex a b` is what `strtoul` makes of two
-- characters in base 16.
module _ (hex : ℕ → ℕ → ℕ) where
  abbrev pub skip_colon : List ℕ → List ℕ
  skip_colon [] = []
  skip_colon (c ∷ p) = if c == b':' then p else c ∷ p

  unfoldable pub parse_bytes : ℕ → List ℕ → Option (List ℕ)
  parse_bytes zero p = some []
  parse_bytes (suc n) [] = none
  parse_bytes (suc n) (a ∷ []) = none
  parse_bytes (suc n) (a ∷ b ∷ p) = elim (parse_bytes n (skip_colon p)) [
    | none ↦ none
    | some to ↦ some (u8 (hex a b) ∷ to)
  ]

  -- The six bytes of an address, or -1.
  unfoldable pub parseether : List ℕ → Option (List ℕ)
  parseether from = parse_bytes 6 from
