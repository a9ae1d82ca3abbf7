-- ===== src/Sdio/Tests.antt =====
-- The driver with a controller that answers every command with the same registers.
use inferno_kirkwood.Prelude.{ℕ, suc, ◌+◌, ◌*◌, ◌%◌, ◌^◌, ◌≡◌, refl, arith, true, false, []}
use inferno_kirkwood.Sdio.Host.{Reg, Host, Card, sd_ok, sd_cardbusy, r1}
use inferno_kirkwood.Sdio.Command.{
  words136, no_words, sdcmd_plain, idle_loop, execute, start_command, finish, fetch, sdiodone,
  words48, no_flags, mode_of, cmdopts_of,
}
use inferno_kirkwood.Sdio.Init.{sdiodevinit}
use inferno_kirkwood.Sdio.Transfer.{Request}
use inferno_kirkwood.Sdio.Response.{number_of, words136-number}
use inferno_kirkwood.Sdio.Ready.{Outcome, sdiodevinit-Outcome}
use inferno_kirkwood.Sdio.Pieces.{
  pieces, more_of, end_of, IsTransfer, IsAccepted, sdioio-IsTransfer,
}

-- The registers read as `busy` for the host state and as a command that is complete.
abbrev registers : (busy : ℕ) → Reg → ℕ
registers busy Reg.hoststate = busy
registers busy Reg.st = 9
registers busy other = 0

-- The world counts the writes.
abbrev controller : (busy : ℕ) → Host ℕ
controller busy = record {
  read = λ r w. registers busy r;
  write = λ r v w. w + 1;
  tsleep = λ ms w. w;
  sleep_done = λ done w. (false, (done w).1);
  dcwbinv = λ a n w. w;
  intrenable = λ w. w;
  intrdisable = λ w. w;
}

abbrev card : Card
card = record {
  valid = true;
  cid = record { mid = 0; oid = []; prodname = []; rev = 0; serial = 0; year = 0; mon = 0 };
  csd = record {
    vers = 0;
    taac = 0;
    nsac = 0;
    speed = 0;
    ccc = 0;
    rbl = 0;
    rbpart = 0;
    wbmalign = 0;
    rbmalign = 0;
    dsr = 0;
    size = 0;
    v0 = record { vddrmin = 0; vddrmax = 0; vddwmin = 0; vddwmax = 0; sizemult = 0 };
    eraseblk = 0;
    erasesecsz = 0;
    wpgrpsize = 0;
    wpgrp = 0;
    speedfactor = 0;
    wbl = 0;
    wbpart = 0;
    ffgrp = 0;
    copy = 0;
    permwp = 0;
    tmpwp = 0;
    ff = 0;
  };
  bs = 512;
  size = 0;
  mmc = false;
  sd2 = true;
  sdhc = true;
  rca = 1;
  resp = no_words;
  status = 0;
}

-- A command to a busy card is given up without a write, and one to an idle card is done.
busy_command : (sdcmd_plain (controller 1) 13 0 r1 no_flags (card, 0)).0 ≡ sd_cardbusy
unfolding sdcmd_plain idle_loop
busy_command = refl

idle_command : (sdcmd_plain (controller 0) 13 0 r1 no_flags (card, 0)).0 ≡ sd_ok
unfolding sdcmd_plain idle_loop execute start_command finish fetch sdiodone words48 mode_of
    cmdopts_of
idle_command = refl

abbrev request : Request
request = record { iswrite = false; preerase = false; a = 4096; n = 768 * 1024; off = 512 }

request-IsAccepted : IsAccepted (controller 0) request card
request-IsAccepted = record { valid = refl; a = refl; off = refl; n = refl }

-- A buffer of 768 KB is read into as if it had 1024 KB.
past_the_end : end_of (pieces (suc (more_of (768 * 1024))) 0 (512 * 1024)) ≡ 1024 * 1024
past_the_end = refl

sdioio-IsTransfer_example :
    IsTransfer (controller 0) request (card, 0) (pieces (suc (more_of (768 * 1024))) 0 (512 * 1024))
sdioio-IsTransfer_example = sdioio-IsTransfer (controller 0) request card 0 request-IsAccepted

sdiodevinit-Outcome_example : Outcome (controller 1) (sdiodevinit (controller 1) (card, 0))
sdiodevinit-Outcome_example = sdiodevinit-Outcome (controller 1) card 0

words136-number_example :
    (words136 (λ i. i % 8) 5).r0 * 2 ^ 128
      + (words136 (λ i. i % 8) 5).r1 * 2 ^ 64
      + (words136 (λ i. i % 8) 5).r2
    ≡ number_of (λ i. i % 8) 5
words136-number_example = words136-number (λ i. i % 8) 5 (λ i. omega arith) (omega arith)
