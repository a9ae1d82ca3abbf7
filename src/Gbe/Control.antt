-- ===== src/Gbe/Control.antt =====
-- etherkirkwood.c: the interrupt handler, and what the ethernet device asks of the driver.
use inferno_kirkwood.Prelude.{
  ℕ, ◌+◌, Bool, true, false, not, Option, none, some, List, [], ◌∷◌, ◌==◌, ◌&&◌, if◌then◌else◌,
  bit_and, bit_or, complement32, low_mask, u32, ◌<<<◌, get_elem?,
}
use inferno_kirkwood.Port.{Error, Result, ok, err, fault, panic, hang, ◌>>=◌, on_ok}
use inferno_kirkwood.Part.Names.{same_text}
use inferno_kirkwood.Bs.Command.{Cmdtab}
use inferno_kirkwood.Gbe.Defs.{Block, GbeReg, Ether}
use inferno_kirkwood.Gbe.Receive.{receive}
use inferno_kirkwood.Gbe.Transmit.{transmit}

abbrev pub irx_bufferq0 : ℕ
irx_bufferq0 = 1 <<< 2

abbrev pub ie_txbufferq0 : ℕ
ie_txbufferq0 = 1 <<< 0

abbrev pub ie_txerrorq0 : ℕ
ie_txerrorq0 = 1 <<< 8

abbrev pub ie_phystatuschange : ℕ
ie_phystatuschange = 1 <<< 16

abbrev pub ie_rxoverrun : ℕ
ie_rxoverrun = 1 <<< 18

abbrev pub ie_txunderrun : ℕ
ie_txunderrun = 1 <<< 19

abbrev pub ie_sum : ℕ
ie_sum = 1 <<< 31

abbrev pub ps0_linkup : ℕ
ps0_linkup = 1 <<< 1

abbrev pub ps1_autonegdone : ℕ
ps1_autonegdone = 1 <<< 4

abbrev pub bit_set : ℕ → ℕ → Bool
bit_set word bit = not (bit_and word bit == 0)

abbrev pub set_reg : Ether → GbeReg → Ether
set_reg e reg = record e { ctlr = record e.ctlr { reg = reg } }

-- What is counted and noted of `irqe`.
unfoldable pub note_events : ℕ → Ether → Ether
note_events irqe e =
    let e =
      if bit_set irqe ie_phystatuschange
      then record e { link = bit_set e.ctlr.reg.ps0 ps0_linkup; linkchange = true }
      else e in
    let e = if bit_set irqe ie_txerrorq0 then record e { oerrs = u32 (e.oerrs + 1) } else e in
    let e =
      if bit_set irqe ie_rxoverrun then record e { overflows = u32 (e.overflows + 1) } else e in
    if bit_set irqe ie_txunderrun
    then record e { ctlr = record e.ctlr { txunderrun = u32 (e.ctlr.txunderrun + 1) } }
    else e

-- `qcanread(e->oq)`
abbrev pub qcanread : List Block → Bool
qcanread [] = false
qcanread (b ∷ bs) = true

-- The link's state once the negotiation after a change is done.
unfoldable pub note_link : Ether → Ether
note_link e =
    if e.linkchange && bit_set e.ctlr.reg.ps1 ps1_autonegdone
    then record e { link = bit_set e.ctlr.reg.ps0 ps0_linkup; linkchange = false }
    else e

-- The part before `receive`: the two words of causes are read and cleared.
unfoldable pub read_causes : Ether → Ether
read_causes e =
    let irqe = e.ctlr.reg.irqe in
    let c = record e.ctlr {
      newintrs = u32 (e.ctlr.newintrs + 1);
      reg = record e.ctlr.reg { irq = 0; irqe = 0 };
    } in
    let e = record e { ctlr = c } in if bit_set irqe ie_sum then note_events irqe e else e

module _ (freeb_nil : Result (Unit {0})) (intrclear : Ether → Ether) where
  unfoldable pub interrupt : ℕ → Ether → Result Ether
  interrupt fuel e =
      let irq = e.ctlr.reg.irq in
      let irqe = e.ctlr.reg.irqe in
      do
        e ←
            if bit_set irq irx_bufferq0
            then receive freeb_nil fuel (read_causes e)
            else ok (read_causes e)
        e ← if qcanread e.oq && bit_set irqe ie_txbufferq0 then transmit e else ok e
        ok (intrclear (note_link e))

abbrev pub pcfg_upromiscuous : ℕ
pcfg_upromiscuous = 1 <<< 0

unfoldable pub promiscuous : Bool → Ether → Ether
promiscuous on e =
    let reg = e.ctlr.reg in
    set_reg e (record reg {
      portcfg =
          if on
          then bit_or reg.portcfg pcfg_upromiscuous
          else bit_and reg.portcfg (complement32 pcfg_upromiscuous);
    })

abbrev pub psc1_portreset : ℕ
psc1_portreset = 1 <<< 4

unfoldable pub shutdown : Ether → Ether
shutdown e = set_reg e (record e.ctlr.reg { psc1 = bit_or e.ctlr.reg.psc1 psc1_portreset })

abbrev pub psc0_mrumask : ℕ
psc0_mrumask = low_mask 3 <<< 17

-- `PSC0mru(PSC0mru1522)`
abbrev pub psc0_mru1522 : ℕ
psc0_mru1522 = 1 <<< 17

abbrev jumbo_word : List ℕ
jumbo_word = b'j' ∷ b'u' ∷ b'm' ∷ b'b' ∷ b'o' ∷ []

abbrev pub ctlmsg : List Cmdtab
ctlmsg = record { index = 0; cmd = jumbo_word; narg = 2 } ∷ []

-- The size of packets without jumbo frames, in the register and for `transmit`.
unfoldable pub jumbo_off : Ether → Ether
jumbo_off e =
    let reg = e.ctlr.reg in
    let psc0 = bit_or (bit_and reg.psc0 (complement32 psc0_mrumask)) psc0_mru1522 in
    record (set_reg e (record reg { psc0 = psc0 })) { maxmtu = 1522 }

-- CMjumbo with its argument: the state in which the next case of the switch goes on, or an error.
unfoldable pub jumbo : Option (List ℕ) → Ether → Result Ether
jumbo none e = fault
jumbo (some f) e =
    if same_text f (b'o' ∷ b'n' ∷ [])
    then err Error.jumbo_disabled
    else (if same_text f (b'o' ∷ b'f' ∷ b'f' ∷ []) then ok (jumbo_off e) else err Error.bad_ctl)

-- The first case of the switch goes on into the default, which raises an error.
unfoldable pub fall_through : Ether → Result Ether → Result ℕ × Ether
fall_through e (ok e') = (err Error.bad_ctl, e')
fall_through e (err why) = (err why, e)
fall_through e fault = (fault, e)
fall_through e panic = (panic, e)
fall_through e hang = (hang, e)

unfoldable pub ctl_switch : ℕ → List (List ℕ) → Ether → Result ℕ × Ether
ctl_switch index f e =
    if index == 0 then fall_through e (jumbo (get_elem? f 1) e) else (err Error.bad_ctl, e)

module _ (parsecmd : List ℕ → List (List ℕ))
    (lookupcmd : List (List ℕ) → List Cmdtab → Result ℕ) where
  unfoldable pub ctl : List ℕ → Ether → Result ℕ × Ether
  ctl p e = let f = parsecmd p in on_ok (lookupcmd f ctlmsg) e (λ index. ctl_switch index f e)
