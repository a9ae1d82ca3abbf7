-- ===== src/Port.antt =====
-- What the drivers share with the portable kernel: `error(msg)`, which leaves the handler by a
-- jump, as a result, and the messages that the drivers raise.
use inferno_kirkwood.Prelude.{◌≡◌, refl, Bool, true, false}

pub data Error : Type 0 where
  bad_arg greg perm in_use short_stat bad_usefd : Error
  no_disk no_part bad_align stale misaligned_size not_yet no_command no_raw : Error
  reading_mbr missing_mbr_signature long_name beyond_end start_after_end overlapping : Error
  reading_plan9 bad_plan9 unimp_fp : Error
  bad_ctl jumbo_disabled too_big too_small no_dev : Error
  no_card bad_buffer not_aligned not_multiple sd_failed check_pattern voltage : Error
  no_power_up mmc_card bad_cid bad_rca bad_csd : Error
  burn_active already_burned burn_timeout : Error
  -- what a driver that is called through a function pointer raises
  device_error : Error

-- `fault` is a memory access that C does not define, such as one through nil; `panic` stops the
-- kernel; `hang` is a loop that does not end.
pub data Result {ℓ} (A : Type ℓ) : Type ℓ where
  fault panic hang : Result A
  err : (why : Error) → Result A
  ok : (value : A) → Result A

infixl 5 ◌>>=◌
abbrev pub ◌>>=◌ {ℓ κ} : {T : Type ℓ} {U : Type κ} → Result T → (T → Result U) → Result U
fault >>= then_do = fault
panic >>= then_do = panic
hang >>= then_do = hang
err why >>= then_do = err why
ok value >>= then_do = then_do value

infixl 5 ◌>>◌
abbrev pub ◌>>◌ {κ} : {U : Type κ} → Result (Unit {0}) → Result U → Result U
first >> second = first >>= λ done. second

-- `if(b) error(e);`
abbrev pub raise_if : Bool → Error → Result (Unit {0})
raise_if false why = ok tt
raise_if true why = err why

-- A chain that succeeds has a first step that succeeds.
pub >>=-eq-ok {ℓ κ} :
    {T : Type ℓ} {U : Type κ} (step : Result T) (rest : T → Result U) {u : U}
    → (step >>= rest) ≡ ok u
    → (t : T) × (step ≡ ok t) × (rest t ≡ ok u)
>>=-eq-ok fault rest e = cc
>>=-eq-ok panic rest e = cc
>>=-eq-ok hang rest e = cc
>>=-eq-ok (err why) rest e = cc
>>=-eq-ok (ok t) rest e = (t, refl, e)

-- Two results that are equal pairs.
pub ok-pair {ℓ κ} :
    {T : Type ℓ} {U : Type κ} {s t : T} {u v : U}
    → ◌≡◌ {A = Result (T × U)} (ok (s, u)) (ok (t, v))
    → (s ≡ t) × (u ≡ v)
ok-pair e = (cc, cc)

-- The rest of a handler after a call that may raise an error, which leaves the state as it is.
abbrev pub on_ok {ℓ κ μ} :
    {T : Type ℓ} {U : Type κ} {S : Type μ} → Result T → S → (T → Result U × S) → Result U × S
on_ok fault s rest = (fault, s)
on_ok panic s rest = (panic, s)
on_ok hang s rest = (hang, s)
on_ok (err why) s rest = (err why, s)
on_ok (ok value) s rest = rest value
