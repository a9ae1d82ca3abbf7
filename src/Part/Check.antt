-- ===== src/Part/Check.antt =====
-- `partcheck` of part.c. The comparisons are those of `vlong`s.
use inferno_kirkwood.Prelude.{ℕ, Bool, List, [], ◌∷◌, ◌&&◌, ◌||◌, drop, signed_ltb, signed_leb}
use inferno_kirkwood.Port.{Error, Result, ok, ◌>>◌, raise_if}
use inferno_kirkwood.Part.Defs.{Part}

-- `js >= p->s && js < p->e || je > p->s && je <= p->e`
unfoldable pub overlaps : Part → Part → Bool
overlaps p other =
    (signed_leb p.s other.s && signed_ltb other.s p.e)
    || (signed_ltb p.s other.e && signed_leb other.e p.e)

unfoldable pub check_overlap : Part → List Part → Result (Unit {0})
unfolding overlaps
check_overlap p [] = ok tt
check_overlap p (other ∷ others) =
    let rest = check_overlap p others in do raise_if (overlaps p other) Error.overlapping; rest

-- The loop starts at 1: the first `Part` is the whole.
unfoldable pub partcheck : Part → List Part → ℕ → Result (Unit {0})
unfolding check_overlap
partcheck p parts size = do
  raise_if (signed_ltb size p.e) Error.beyond_end
  raise_if (signed_ltb p.e p.s) Error.start_after_end
  check_overlap p (drop 1 parts)
