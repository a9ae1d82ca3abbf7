-- ===== src/Sdio/Pieces.antt =====
-- The commands that a transfer is made of.
use inferno_kirkwood.Prelude.{
  ℕ, zero, suc, ◌+◌, ◌-◌, ◌*◌, ◌/◌, ◌%◌, ◌<◌, ◌≤◌, ◌≡◌, refl, ap, ◌∙◌, arith, true, false, List, [],
  ◌∷◌, ◌==◌, ltb, leb, bit_and, if◌then◌else◌, Bool-cases, inl, inr, ◌⊎◌,
}
use inferno_kirkwood.Prelude.Bits.{bit_and_mask}
use inferno_kirkwood.Port.{Result, ok, err, fault, panic, hang, on_ok}
use inferno_kirkwood.Sdio.Host.{Host, Card}
use inferno_kirkwood.Sdio.Init.{Run, ◌then_run◌}
use inferno_kirkwood.Sdio.Transfer.{
  Request, Piece, chunk, size_of, preerased, transfer_piece, sdioio_loop, sdioio,
}

-- `count` pieces of `nn` bytes, one after the other from `h` on.
abbrev pub pieces : (count h nn : ℕ) → List Piece
pieces zero h nn = []
pieces (suc count) h nn = record { h = h; nn = nn } ∷ pieces count (h + nn) nn

-- The pieces that `n` bytes need after the first: of 512 KB, the last one too.
abbrev pub more_of : ℕ → ℕ
more_of n = if ltb chunk n then (n - 1) / chunk else 0

-- How far into the buffer pieces go.
abbrev pub end_of : List Piece → ℕ
end_of [] = 0
end_of (p ∷ []) = p.h + p.nn
end_of (p ∷ q ∷ ps) = end_of (q ∷ ps)

module _ {W : Type 0} (k : Host W) where
  -- The pieces in turn, each with its erasure before a write, until one fails.
  unfoldable pub run_all : Request → List Piece → Run W Unit
  run_all x [] = λ s. (ok tt, s)
  run_all x (p ∷ ps) =
      let rest = run_all x ps in
      preerased k x p.nn then_run (λ done. transfer_piece k x p) then_run (λ done. rest)

  on_ok_cong :
      {A B : Type 0} (t : Result A × (Card × W)) (f g : A → Run W B)
      → ((a : A) (s : Card × W) → f a s ≡ g a s)
      → on_ok t.0 t.1 (λ a. f a t.1) ≡ on_ok t.0 t.1 (λ a. g a t.1)
  on_ok_cong (ok a, s) f g h = h a s
  on_ok_cong (err why, s) f g h = refl
  on_ok_cong (fault, s) f g h = refl
  on_ok_cong (panic, s) f g h = refl
  on_ok_cong (hang, s) f g h = refl

  -- The loop over what is left, with `more` pieces after the next one.
  sdioio_loop-run_all :
      (rounds more : ℕ) (x : Request) (h : ℕ) (s : Card × W)
      → more < rounds
      → (more ≡ 0) ⊎ (h + more * size_of x < x.n)
      → x.n ≤ h + (more * size_of x + size_of x)
      → sdioio_loop k rounds x h s ≡ run_all x (pieces (suc more) h (size_of x)) s
  unfolding sdioio_loop run_all
  sdioio_loop-run_all zero more x h s enough before after = absurd (omega arith)
  sdioio_loop-run_all (suc rounds) zero x h s enough before after =
      let over : leb x.n (h + size_of x) ≡ true = ground arith in
      on_ok_cong
        ((preerased k x (size_of x)
            then_run (λ done. transfer_piece k x (record { h = h; nn = size_of x })))
          s)
        (λ done t.
          if leb x.n (h + size_of x) then (ok tt, t) else sdioio_loop k rounds x (h + size_of x) t)
        (λ done t. (ok tt, t)) (λ done t. rw over refl)
  sdioio_loop-run_all (suc rounds) (suc more) x h s enough before after =
      let left : h + suc more * size_of x < x.n = ground arith in
      let step : suc more * size_of x ≡ more * size_of x + size_of x = omega arith in
      let under : leb x.n (h + size_of x) ≡ false = ground (arith, left, step) in
      on_ok_cong
        ((preerased k x (size_of x)
            then_run (λ done. transfer_piece k x (record { h = h; nn = size_of x })))
          s)
        (λ done t.
          if leb x.n (h + size_of x) then (ok tt, t) else sdioio_loop k rounds x (h + size_of x) t)
        (λ done. run_all x (pieces (suc more) (h + size_of x) (size_of x)))
        (λ done t. rw under (
          sdioio_loop-run_all rounds more x (h + size_of x) t (omega arith)
            (inr (omega (arith, left, step))) (omega (arith, after, step))))

  more_of_small : (n : ℕ) → more_of n < n + 1
  more_of_small n = ground arith

  more_of_before : (x : Request) → (more_of x.n ≡ 0) ⊎ (0 + more_of x.n * size_of x < x.n)
  more_of_before x = elim (Bool-cases (ltb chunk x.n)) [
    | inl large ↦ inr (ground (arith, large))
    | inr small ↦ inl (ground (arith, small))
  ]

  more_of_after : (x : Request) → x.n ≤ 0 + (more_of x.n * size_of x + size_of x)
  more_of_after x = elim (Bool-cases (ltb chunk x.n)) [
    | inl large ↦ rw large (omega arith)
    | inr small ↦ rw small (omega arith)
  ]

  more_of_end :
      (x : Request)
      → 0 + (more_of x.n * size_of x + size_of x)
        ≡ (if ltb chunk x.n then (x.n + (chunk - 1)) / chunk * chunk else x.n)
  more_of_end x = elim (Bool-cases (ltb chunk x.n)) [
    | inl large ↦ rw large ground (arith, large)
    | inr small ↦ rw small (omega arith)
  ]

  -- A request for whole blocks at a block, with an aligned buffer, to a card that is valid.
  pub record IsAccepted (x : Request) (c : Card) : Type 0 where
    pub valid : c.valid ≡ true
    pub a : x.a % 4 ≡ 0
    pub off : x.off % 512 ≡ 0
    pub n : x.n % 512 ≡ 0

  -- The transfer is the run of `ps`, which go to the end of the buffer's last 512 KB if it is larger
  -- than that.
  pub record IsTransfer (x : Request) (s : Card × W) (ps : List Piece) : Type 0 where
    pub run : sdioio k x s ≡ (run_all x ps then_run (λ done t. (ok x.n, t))) s
    pub end_lem : end_of ps ≡ (if ltb chunk x.n then (x.n + (chunk - 1)) / chunk * chunk else x.n)

  end_of-pieces : (count h nn : ℕ) → end_of (pieces (suc count) h nn) ≡ h + (count * nn + nn)
  end_of-pieces zero h nn = omega arith
  end_of-pieces (suc count) h nn = omega (arith, end_of-pieces count (h + nn) nn)

  -- The loop of `sdioio` ends, after one piece for each 512 KB begun. All pieces of a buffer of more
  -- than 512 KB have 512 KB, the last one too, so it goes past the end of a buffer that is not
  -- a multiple of that.
  pub sdioio-IsTransfer :
      (x : Request) (c : Card) (w : W)
      → IsAccepted x c
      → IsTransfer x (c, w) (pieces (suc (more_of x.n)) 0 (size_of x))
  unfolding sdioio
  sdioio-IsTransfer x c w accepted =
      let a_ok : (x.a % 4 == 0) ≡ true = ground (arith, accepted.a) in
      let off_ok : (bit_and x.off 511 == 0) ≡ true =
        ground (arith, accepted.off, bit_and_mask 9 x.off) in
      let n_ok : (bit_and x.n 511 == 0) ≡ true = ground (arith, accepted.n, bit_and_mask 9 x.n) in
      let valid_c = record c { valid = true } in
      let looped =
        sdioio_loop-run_all (x.n + 1) (more_of x.n) x 0 (valid_c, w) (more_of_small x.n)
          (more_of_before x) (more_of_after x) in
      record {
        run =
            rw (accepted.valid, a_ok, off_ok, n_ok)
              (ap (λ t. on_ok t.0 t.1 (λ done. (ok x.n, t.1))) looped);
        end_lem = end_of-pieces (more_of x.n) 0 (size_of x) ∙ more_of_end x;
      }
