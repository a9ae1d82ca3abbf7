-- ===== src/Sdio/Keeping.antt =====
-- What commands leave of what is known of the card.
use inferno_kirkwood.Prelude.{
  ℕ, ◌≡◌, refl, ◌∙◌, Bool, true, false, not, ◌==◌, ◌||◌, if◌then◌else◌, bit_and, bit_or,
}
use inferno_kirkwood.SdCard.Bits.{Words}
use inferno_kirkwood.Sdio.Host.{Reg, Host, Sd, Resp, Card, Flags, s_unexpresp, s_error}
use inferno_kirkwood.Sdio.Command.{
  sdcmd, sdcmd_plain, execute, finish, fetch, announce, after_announce, expects_app, is_r1, need_of,
  start_command, sdiodone, idle_loop, no_flags, sdcmddma,
}

-- Both branches have a property, so the test's result has it.
if_case {ℓ κ} :
    {A : Type ℓ} (P : A → Type κ) (b : Bool) {x y : A} → P x → P y → P (if b then x else y)
if_case P true h g = h
if_case P false h g = g

-- A fact about the card that is not about the last response or status.
module _ {X : Type 0} (about : Card → X)
    (blind : (c : Card) (r : Words) (s : ℕ)
      → about (record c { resp = r; status = s }) ≡ about c) where
  blind_status : (c : Card) (s : ℕ) → about (record c { status = s }) ≡ about c
  blind_status c s = blind c c.resp s

  module _ {W : Type 0} (k : Host W) where
    -- The fact after a command is that before.
    pub record IsSame (c : Card) (t : Sd × (Card × W)) : Type 0 where
      pub same : about t.1.0 ≡ about c

    fetch-IsSame : (rt : Resp) (c : Card) (w : W) → IsSame c (fetch k rt c w)
    unfolding fetch
    fetch-IsSame rt c w =
        if_case (IsSame c) (is_r1 rt) (record { same = blind c _ _ })
          (record { same = blind c _ c.status })

    finish-IsSame : (rt : Resp) (fl : Flags) (c : Card) (w : W) → IsSame c (finish k rt fl c w)
    unfolding finish
    finish-IsSame rt fl c w =
        if_case (IsSame c) (not (bit_and (k.read Reg.st w) (bit_or s_unexpresp s_error) == 0))
          (record { same = blind_status c _ })
          (if_case (IsSame c) (bit_and (k.read Reg.st w) (need_of fl) == 0) (record { same = refl })
            (fetch-IsSame rt c w))

    execute-IsSame :
        (cmd arg : ℕ) (rt : Resp) (fl : Flags) (c : Card) (w : W)
        → IsSame c (execute k cmd arg rt fl c w)
    unfolding execute
    execute-IsSame cmd arg rt fl c w =
        let w1 = start_command k cmd arg rt fl w in
        if_case (IsSame c) (k.sleep_done (sdiodone k (k.read Reg.stirq w1)) w1).0
          (record { same = refl }) (finish-IsSame rt fl c _)

    sdcmd_plain-IsSame :
        (cmd arg : ℕ) (rt : Resp) (fl : Flags) (c : Card) (w : W)
        → IsSame c (sdcmd_plain k cmd arg rt fl (c, w))
    unfolding sdcmd_plain
    sdcmd_plain-IsSame cmd arg rt fl c w =
        if_case (IsSame c) (idle_loop k 50 0 w).0 (execute-IsSame cmd arg rt fl c _)
          (record { same = refl })

    expects_app-IsSame : (c : Card) (t : Sd × (Card × W)) → IsSame c t → IsSame c (expects_app k t)
    expects_app-IsSame c (Sd.sd_ok, t) h = record { same = h.same }
    expects_app-IsSame c (Sd.sd_timeout, t) h = record { same = h.same }
    expects_app-IsSame c (Sd.sd_cardbusy, t) h = record { same = h.same }
    expects_app-IsSame c (Sd.sd_error, t) h = record { same = h.same }
    expects_app-IsSame c (Sd.sd_interrupted, t) h = record { same = h.same }
    expects_app-IsSame c (Sd.sd_badstatus, t) h = record { same = h.same }

    announce-IsSame : (fl : Flags) (c : Card) (w : W) → IsSame c (announce k fl (c, w))
    unfolding announce
    announce-IsSame fl c w = expects_app-IsSame c _ (sdcmd_plain-IsSame _ _ Resp.r1 no_flags c w)

    after_announce-IsSame :
        (cmd arg : ℕ) (rt : Resp) (fl : Flags) (c : Card) (t : Sd × (Card × W))
        → IsSame c t
        → IsSame c (after_announce k cmd arg rt fl t)
    after_announce-IsSame cmd arg rt fl c (Sd.sd_ok, (c1, w)) h = record {
      same = (execute-IsSame cmd arg rt fl c1 w).same ∙ h.same;
    }
    after_announce-IsSame cmd arg rt fl c (Sd.sd_timeout, t) h = record { same = h.same }
    after_announce-IsSame cmd arg rt fl c (Sd.sd_cardbusy, t) h = record { same = h.same }
    after_announce-IsSame cmd arg rt fl c (Sd.sd_error, t) h = record { same = h.same }
    after_announce-IsSame cmd arg rt fl c (Sd.sd_interrupted, t) h = record { same = h.same }
    after_announce-IsSame cmd arg rt fl c (Sd.sd_badstatus, t) h = record { same = h.same }

    pub sdcmd-IsSame :
        (cmd arg : ℕ) (rt : Resp) (fl : Flags) (c : Card) (w : W)
        → IsSame c (sdcmd k cmd arg rt fl (c, w))
    unfolding sdcmd
    sdcmd-IsSame cmd arg rt fl c w =
        if_case (IsSame c) (fl.app || fl.appdata)
          (if_case (IsSame c) (idle_loop k 50 0 w).0
            (after_announce-IsSame cmd arg rt fl c _ (announce-IsSame fl c _))
            (record { same = refl }))
          (sdcmd_plain-IsSame cmd arg rt fl c w)

    pub sdcmddma-IsSame :
        (cmd arg a blsz nbl : ℕ) (rt : Resp) (fl : Flags) (c : Card) (w : W)
        → IsSame c (sdcmddma k cmd arg a blsz nbl rt fl (c, w))
    unfolding sdcmddma
    sdcmddma-IsSame cmd arg a blsz nbl rt fl c w = sdcmd-IsSame cmd arg rt fl c _
