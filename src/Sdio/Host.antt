-- ===== src/Sdio/Host.antt =====
-- kwsdio.c: the registers of the SDIO controller, and a card as the driver knows it.
use inferno_kirkwood.Prelude.{ℕ, ◌+◌, ◌*◌, ◌^◌, Bool, low_mask}
use inferno_kirkwood.SdCard.Bits.{Words}
use inferno_kirkwood.SdCard.Registers.{Cid, Csd}

-- The registers of `SdioReg` that the driver uses.
pub data Reg : Type 0 where
  dmaaddrlo dmaaddrhi blksize blkcount arglo arghi mode cmd crc7 hoststate : Reg
  hostctl swreset st est stena estena stirq estirq : Reg
  acmd12st acmd12arglo acmd12arghi acmd12idx clockdiv : Reg
  resp : ℕ → Reg

-- On a world `W` with the controller and its card: what a register reads as, what a write does,
-- the sleep for some milliseconds, the sleep of at most five seconds until a condition holds, which
-- is looked at anew after each wakeup, and whether it was interrupted; and `intrenable`,
-- `intrdisable`.
pub record Host (W : Type 0) : Type 0 where
  pub read : Reg → W → ℕ
  pub write : Reg → ℕ → W → W
  pub tsleep : ℕ → W → W
  pub sleep_done : (W → Bool × W) → W → Bool × W
  pub dcwbinv : (addr len : ℕ) → W → W
  pub intrenable : W → W
  pub intrdisable : W → W

-- What `sdcmd` returns.
pub data Sd : Type 0 where
  sd_ok sd_timeout sd_cardbusy sd_error sd_interrupted sd_badstatus : Sd

-- The expected response.
pub data Resp : Type 0 where
  r0 r1 r1b r2 r3 r6 r7 : Resp

pub record Card : Type 0 where
  pub valid : Bool
  pub cid : Cid
  pub csd : Csd
  pub bs : ℕ
  pub size : ℕ
  pub mmc : Bool
  pub sd2 : Bool
  pub sdhc : Bool
  pub rca : ℕ
  pub resp : Words
  pub status : ℕ

-- The flags of `sdcmd`.
pub record Flags : Type 0 where
  pub app : Bool
  pub appdata : Bool
  pub dmad2h : Bool
  pub dmah2d : Bool
  pub multi : Bool

-- `TMdatawrite`, `TMautocmd12`, `TMxfertohost`
abbrev pub tm_datawrite : ℕ
tm_datawrite = 2

abbrev pub tm_autocmd12 : ℕ
tm_autocmd12 = 4

abbrev pub tm_xfertohost : ℕ
tm_xfertohost = 16

-- `Resp136`, `Resp48`, `Resp48busy`
abbrev pub resp136 : ℕ
resp136 = 1

abbrev pub resp48 : ℕ
resp48 = 2

abbrev pub resp48busy : ℕ
resp48busy = 3

abbrev pub cmd_datacrccheck : ℕ
cmd_datacrccheck = 4

abbrev pub cmd_cmdcrccheck : ℕ
cmd_cmdcrccheck = 8

abbrev pub cmd_cmdindexcheck : ℕ
cmd_cmdindexcheck = 16

abbrev pub cmd_datapresent : ℕ
cmd_datapresent = 32

abbrev pub cmd_unexpresp : ℕ
cmd_unexpresp = 128

-- `HScmdinhibit|HScardbusy`
abbrev pub hs_busy : ℕ
hs_busy = 3

abbrev pub s_cmdcomplete : ℕ
s_cmdcomplete = 1

abbrev pub s_dmaintr : ℕ
s_dmaintr = 8

abbrev pub s_unexpresp : ℕ
s_unexpresp = 2 ^ 14

abbrev pub s_error : ℕ
s_error = 2 ^ 15

abbrev pub e_cmdtimeout : ℕ
e_cmdtimeout = 1

-- `SDappcmd` and `SDbad`
abbrev pub sd_appcmd : ℕ
sd_appcmd = 32

abbrev pub sd_bad : ℕ
sd_bad = 2 ^ 3 + 2 ^ 13 + 2 ^ 14 + 2 ^ 15 + 2 ^ 16 + low_mask 13 * 2 ^ 19

abbrev pub resptypes : Resp → ℕ
resptypes Resp.r0 = 0
resptypes Resp.r1 = resp48
resptypes Resp.r1b = resp48busy
resptypes Resp.r2 = resp136
resptypes Resp.r3 = resp48
resptypes Resp.r6 = resp48
resptypes Resp.r7 = resp48
