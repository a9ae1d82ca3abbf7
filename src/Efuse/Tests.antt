-- ===== src/Efuse/Tests.antt =====
-- A fuse that is burned.
use inferno_kirkwood.Prelude.{ℕ, ◌≡◌, refl, Bool, List, [], ◌∷◌, leb}
use inferno_kirkwood.Port.{err, bad_arg}
use inferno_kirkwood.Efuse.Device.{Efuse, efuse1, efusewrite}

abbrev fresh : Efuse
fresh = record { protection = 1; ctl = 0; lo0 = 5; hi0 = 6; lo1 = 0; hi1 = 0 }

-- The controller is done at the third read.
abbrev done_at_two : ℕ → Bool
done_at_two i = leb 2 i

abbrev eight : List ℕ
eight = 1 ∷ 2 ∷ 3 ∷ 4 ∷ 5 ∷ 6 ∷ 7 ∷ 255 ∷ []

two_bytes : (efusewrite done_at_two efuse1 (1 ∷ 2 ∷ []) 0 fresh).0 ≡ err bad_arg
unfolding efusewrite
two_bytes = refl
