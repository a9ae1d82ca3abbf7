-- ===== src/Sdio/Transfer.antt =====
-- kwsdio.c: reads, writes and erasures of a card, and the commands to the device.
use inferno_kirkwood.Prelude.{
  ℕ, zero, suc, ◌+◌, ◌-◌, ◌*◌, ◌/◌, ◌%◌, Bool, true, false, not, ◌==◌, ◌&&◌, ltb, leb, bit_and, u32,
  if◌then◌else◌,
}
use inferno_kirkwood.Port.{Error, ok}
use inferno_kirkwood.Sdio.Host.{Reg, Host, Sd, Resp, Card, Flags}
use inferno_kirkwood.Sdio.Command.{no_flags, sdcmd, sdcmddma}
use inferno_kirkwood.Sdio.Init.{Run, succeed, app_flags, check, ◌then_run◌}

-- `CMDReadmulti` and `CMDWritemulti`
abbrev pub cmd_readmulti : ℕ
cmd_readmulti = 18

abbrev pub cmd_writemulti : ℕ
cmd_writemulti = 25

-- What a transfer is asked for: `a` is the address of the buffer and `n` its bytes, less than 2 to
-- the power of 31.
pub record Request : Type 0 where
  pub iswrite : Bool
  pub preerase : Bool
  pub a : ℕ
  pub n : ℕ
  pub off : ℕ

-- A command of the loop: how far into the buffer, and how many bytes.
pub record Piece : Type 0 where
  pub h : ℕ
  pub nn : ℕ

abbrev pub chunk : ℕ
chunk = 512 * 1024

-- `nn`
abbrev pub size_of : Request → ℕ
size_of x = if ltb chunk x.n then chunk else x.n

-- `fl|Fmulti`
abbrev pub flags_of : Bool → Flags
flags_of iswrite = record no_flags { dmad2h = not iswrite; dmah2d = iswrite; multi = true }

module _ {W : Type 0} (k : Host W) where
  -- The argument of a command: a number of blocks, or of bytes.
  abbrev pub arg_of : Request → Card → ℕ → ℕ
  arg_of x c h = u32 (if c.sdhc then (x.off + h) / 512 else x.off + h)

  unfoldable pub preerased : Request → ℕ → Run W Unit
  preerased x nn (c, w) =
      let (s, t) = sdcmd k 23 (nn / 512) Resp.r1 app_flags (c, w) in
      let erased = succeed s t in if x.iswrite && x.preerase then erased else (ok tt, (c, w))

  unfoldable pub transfer_piece : Request → Piece → Run W Unit
  transfer_piece x p (c, w) =
      let cmd = if x.iswrite then cmd_writemulti else cmd_readmulti in
      let (s, t) =
        sdcmddma k cmd (arg_of x c p.h) (x.a + p.h) 512 (p.nn / 512) Resp.r1 (flags_of x.iswrite)
          (c, w) in
      succeed s t

  -- The loop, with `h` bytes done. It has gone over the buffer after `n` rounds, or one if `n` is 0.
  unfoldable pub sdioio_loop : (rounds : ℕ) → Request → (h : ℕ) → Run W Unit
  sdioio_loop zero x h = λ s. (ok tt, s)
  sdioio_loop (suc rounds) x h =
      let rest = sdioio_loop rounds x (h + size_of x) in
      preerased x (size_of x)
      then_run (λ done. transfer_piece x (record { h = h; nn = size_of x }))
      then_run (λ done s. if leb x.n (h + size_of x) then (ok tt, s) else rest s)

  -- `sdioio`, which returns `n`.
  unfoldable pub sdioio : Request → Run W ℕ
  sdioio x =
      check (λ c. c.valid) Error.no_card
      then_run (λ done. check (λ c. x.a % 4 == 0) Error.bad_buffer)
      then_run (λ done. check (λ c. bit_and x.off (512 - 1) == 0) Error.not_aligned)
      then_run (λ done. check (λ c. bit_and x.n (512 - 1) == 0) Error.not_multiple)
      then_run (λ done. sdioio_loop (x.n + 1) x 0)
      then_run (λ done s. (ok x.n, s))

  unfoldable pub sdstatus : (p : ℕ) → Card × W → Sd × (Card × W)
  sdstatus p s = sdcmddma k 13 0 p 64 1 Resp.r1 (record app_flags { dmad2h = true }) s

  -- The next command unless the last has failed.
  abbrev pub and_sdcmd : (cmd arg : ℕ) → Resp → Sd × (Card × W) → Sd × (Card × W)
  and_sdcmd cmd arg rt (Sd.sd_ok, s) = sdcmd k cmd arg rt no_flags s
  and_sdcmd cmd arg rt (other, s) = (other, s)

  -- The first and the last address of what is erased; for `sdhc`, in blocks.
  unfoldable pub erase_range : Bool → (offset n : ℕ) → ℕ × ℕ
  erase_range true offset n = (offset / 512, (offset + n - 512) / 512)
  erase_range false offset n = (offset, offset + n - 1)

  -- For `n` bytes of at least a block.
  unfoldable pub erase : (offset n : ℕ) → Card × W → Sd × (Card × W)
  erase offset n (c, w) =
      let (first, last) = erase_range c.sdhc offset n in
      and_sdcmd 38 0 Resp.r1b
        (and_sdcmd 33 (u32 last) Resp.r1 (sdcmd k 32 (u32 first) Resp.r1 no_flags (c, w)))

  -- The handler of the controller's interrupt, without the wakeup; `intrclear` is trap.c's.
  unfoldable pub sdiointr : (intrclear : W → W) → W → W
  sdiointr intrclear w = intrclear (k.write Reg.estirq 0 (k.write Reg.stirq 0 w))
